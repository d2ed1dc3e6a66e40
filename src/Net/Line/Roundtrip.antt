-- ===== src/Net/Line/Roundtrip.antt =====
-- LineCodecService, line_codec_service.cc: a line sent and received.
use ltio.Common.{
  ℕ, ◌+◌, ◌-◌, ◌≡◌, refl, ap, ◌∙◌, true, false, List, [], ◌∷◌, ◌++◌, none, some, ◌==◌, length, take,
  drop, arith, length-append,
}
use ltio.Common.Int.{ℤ, pos}
use ltio.Common.Slices.{take-append, length-slice, drop-append_more, slice_start}
use ltio.Net.Buffer.{
  IoBuffer, is_empty, can_read_size, as_string, search_crlf, find_crlf, write_raw_data,
}
use ltio.Net.Buffer.Contents.{IsValid, write_raw_data-as_string, consume-as_string}
use ltio.Net.Line.{crlf, on_data_received, send_message}

-- A line that has no "\r\n" inside ends at the first "\r\n".
search_crlf-append :
    (line rest : List ℕ)
    → search_crlf line ≡ none
    → search_crlf (line ++ (crlf ++ rest)) ≡ some (length line)
unfolding search_crlf
search_crlf-append [] rest h = refl
search_crlf-append (x ∷ []) rest h = ground arith
search_crlf-append (x ∷ y ∷ s) rest h = ground (arith, search_crlf-append (y ∷ s) rest)

-- How much there is to read.
read_length :
    (line rest : List ℕ) (buf : IoBuffer)
    → IsValid buf
    → as_string buf ≡ line ++ (crlf ++ rest)
    → buf.write_index - buf.read_index ≡ length line + (2 + length rest)
unfolding as_string
read_length line rest buf h e = omega (
  arith,
  length-slice buf.read_index buf.write_index buf.data_bytes h.inside,
  ap length e,
  length-append line (crlf ++ rest),
)

find_crlf-line :
    (line rest : List ℕ) (buf : IoBuffer)
    → IsValid buf
    → search_crlf line ≡ none
    → as_string buf ≡ line ++ (crlf ++ rest)
    → find_crlf buf ≡ some (length line)
unfolding find_crlf is_empty can_read_size
find_crlf-line line rest buf h clean e =
    let more : ((buf.write_index - buf.read_index) == 0) ≡ false =
      ground (arith, read_length line rest buf h e) in
    rw (more, e) (search_crlf-append line rest clean)

-- OnDataReceived on a valid buffer that starts with a line gives the handler exactly that line, without its
-- "\r\n", and leaves what follows, of which it delivers nothing even where it holds more lines.
pub on_data_received_line :
    (line rest : List ℕ) (buf : IoBuffer)
    → IsValid buf
    → search_crlf line ≡ none
    → as_string buf ≡ line ++ (crlf ++ rest)
    → ((on_data_received true buf).0 ≡ some line)
      × (as_string (on_data_received true buf).1 ≡ rest)
      × IsValid (on_data_received true buf).1
unfolding on_data_received
on_data_received_line line rest buf h clean e =
    let f : find_crlf buf ≡ some (length line) = find_crlf-line line rest buf h clean e in
    let (after, valid) = consume-as_string (length line + 2) buf h in
    rw (f, on_data_received)
      (
        ap some (
            slice_start buf.read_index buf.write_index (length line) buf.data_bytes
              (omega (arith, read_length line rest buf h e)) h.inside
            ∙ ap (take (length line)) e
            ∙ take-append line (crlf ++ rest)),
        after ∙ ap (drop (length line + 2)) e ∙ drop-append_more line (crlf ++ rest) 2,
        valid,
      )

-- A channel that keeps all bytes that it is given, and returns their number.
abbrev pub Keeps : (List ℕ → List ℕ → ℤ × List ℕ) → Type 0
Keeps send = (bytes sent : List ℕ) → send bytes sent ≡ (pos (length bytes), sent ++ bytes)

send_message-Keeps :
    (send : List ℕ → List ℕ → ℤ × List ℕ) (line sent : List ℕ)
    → Keeps send
    → send_message send line sent ≡ (true, (sent ++ line) ++ crlf)
unfolding send_message
send_message-Keeps send line sent k = rw (k line sent, k crlf (sent ++ line))

-- A line without "\r\n" that SendMessage puts on a channel, which keeps all bytes, arrives: written
-- to an empty buffer, the bytes make OnDataReceived deliver the line and leave nothing.
pub line_roundtrip :
    (send : List ℕ → List ℕ → ℤ × List ℕ) (line : List ℕ) (buf : IoBuffer)
    → Keeps send
    → search_crlf line ≡ none
    → IsValid buf
    → as_string buf ≡ []
    → ((send_message send line []).0 ≡ true)
      × ((buf' : IoBuffer) × (write_raw_data (send_message send line []).1 buf ≡ some buf')
          × ((on_data_received true buf').0 ≡ some line)
          × (as_string (on_data_received true buf').1 ≡ []))
line_roundtrip send line buf k clean h e =
    let sent = send_message-Keeps send line [] k in
    let (buf', w, s, h') = write_raw_data-as_string (line ++ crlf) buf h in
    let (got, left, _) =
      on_data_received_line line [] buf' h' clean (s ∙ ap (λ t. t ++ (line ++ crlf)) e) in
    rw sent (refl, (buf', w, got, left))
