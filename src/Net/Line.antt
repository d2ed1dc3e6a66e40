-- ===== src/Net/Line.antt =====
-- net_io/codec/line: messages that are lines, each ended by "\r\n". A message is its body. The channel
-- that the bytes go to is a parameter: its state, and Send, which returns a negative number on failure.
pub mod Roundtrip
use ltio.Common.{
  ℕ, ◌+◌, Bool, true, false, not, List, [], ◌∷◌, ◌++◌, Option, none, some, if◌then◌else◌, length,
}
use ltio.Common.Int.{ℤ, pos, negsuc}
use ltio.Common.Slices.{slice}
use ltio.Net.Buffer.{IoBuffer, find_crlf, consume}

abbrev pub crlf : List ℕ
crlf = 13 ∷ 10 ∷ []

abbrev pub is_negative : ℤ → Bool
is_negative (pos n) = false
is_negative (negsuc n) = true

-- OnDataReceived: the message that the handler gets, if there is a handler, and the buffer after it.
unfoldable pub on_data_received : Bool → IoBuffer → Option (List ℕ) × IoBuffer
unfolding find_crlf consume
on_data_received has_handler buf = elim (find_crlf buf) [
  | none ↦ (none, buf)
  | some len ↦
      let body = slice buf.read_index (buf.read_index + len) buf.data_bytes in
      (if has_handler then some body else none, consume (len + 2) buf)
]

module _ {C : Type 0} (send : List ℕ → C → ℤ × C) where
  -- SendMessage, which SendRequest and SendResponse call.
  unfoldable pub send_message : List ℕ → C → Bool × C
  send_message body channel =
      let (ret, channel') = send body channel in
      let (ret', channel'') = send crlf channel' in
      if is_negative ret then (false, channel') else (not (is_negative ret'), channel'')
