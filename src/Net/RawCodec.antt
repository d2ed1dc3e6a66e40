-- ===== src/Net/RawCodec.antt =====
-- net_io/codec/raw: frames that are a fixed header and a content of the size that the header names. The
-- header is sent as it lies in memory: on a little-endian host with 8-byte alignment of a uint64_t it is
-- 24 bytes, of which 6 are padding between `method` and `content_size_`, whose values are a parameter. The
-- channel that the bytes go to is a parameter too: its state, and Send, negative on failure. `none` is
-- a CHECK that fails or an exception of std::string.
pub mod Header
pub mod Decode
pub mod Stream
pub mod Pieces
mod Tests
use ltio.Common.{
  ℕ, zero, suc, ◌+◌, ◌-◌, ◌*◌, ◌/◌, ◌%◌, ◌^◌, Bool, true, false, not, ◌&&◌, List, [], ◌∷◌, ◌++◌,
  Option, none, some, ltb, leb, ◌==◌, if◌then◌else◌, length, get_or, take, drop,
}
use mathlib.Core.Option as Option
use ltio.Common.Int.{ℤ}
use ltio.Common.Slices.{slice}
use ltio.Net.Buffer.{IoBuffer, can_read_size, consume}
use ltio.Net.Line.{is_negative}

pub record RawHeader : Type 0 where
  pub code : ℕ
  pub method : ℕ
  pub content_size : ℕ
  pub sequence_id : ℕ

pub record RawMessage : Type 0 where
  pub header : RawHeader
  pub content : List ℕ

abbrev pub header_size : ℕ
header_size = 24

abbrev pub heartbeat_method_id : ℕ
heartbeat_method_id = 255

-- The sum is a uint64_t.
unfoldable pub frame_size : RawHeader → ℕ
frame_size h = (h.content_size + header_size) % 2 ^ 64

-- A number in `w` bytes, the lowest first, and back.
unfoldable pub le_bytes : ℕ → ℕ → List ℕ
le_bytes zero n = []
le_bytes (suc w) n = n % 256 ∷ le_bytes w (n / 256)

unfoldable pub of_le_bytes : List ℕ → ℕ
of_le_bytes [] = 0
of_le_bytes (x ∷ xs) = x + 256 * of_le_bytes xs

-- The header's bytes in memory, and the header that lies in bytes.
unfoldable pub header_bytes : List ℕ → RawHeader → List ℕ
unfolding le_bytes
header_bytes padding h =
    h.code ∷ h.method ∷ (padding ++ (le_bytes 8 h.content_size ++ le_bytes 8 h.sequence_id))

unfoldable pub header_at : List ℕ → RawHeader
unfolding of_le_bytes
header_at bytes = record {
  code = get_or bytes 0 0;
  method = get_or bytes 1 0;
  content_size = of_le_bytes (take 8 (drop 8 bytes));
  sequence_id = of_le_bytes (take 8 (drop 16 bytes));
}

-- Create.
abbrev pub new_message : RawMessage
new_message = record {
  header = record { code = 0; method = 0; content_size = 0; sequence_id = 0 };
  content = [];
}

-- CreateResponse.
unfoldable pub create_response : RawMessage → RawMessage
create_response request = record {
  header = record {
    code = 0;
    method = request.header.method;
    content_size = 0;
    sequence_id = request.header.sequence_id;
  };
  content = [];
}

unfoldable pub set_async_id : ℕ → RawMessage → RawMessage
set_async_id id m = record m { header = record m.header { sequence_id = id } }

-- AsHeartbeat, which always succeeds, on a new message: NewHeartbeat.
abbrev pub new_heartbeat : RawMessage
new_heartbeat = record {
  header = record { code = 0; method = heartbeat_method_id; content_size = 0; sequence_id = 0 };
  content = [];
}

unfoldable pub is_heartbeat : RawMessage → Bool
is_heartbeat m = (m.header.code == 0) && (m.header.method == heartbeat_method_id)

-- SetContent and AppendContent, which set the size in the header too.
unfoldable pub set_content : List ℕ → RawMessage → RawMessage
set_content bytes m = record {
  header = record m.header { content_size = length bytes };
  content = bytes;
}

unfoldable pub append_content : List ℕ → RawMessage → RawMessage
append_content bytes m =
    let whole = m.content ++ bytes in
    record { header = record m.header { content_size = length whole }; content = whole }

-- The bytes that std::string::append copies from the position to read from.
unfoldable pub read_bytes : ℕ → IoBuffer → Option (List ℕ)
read_bytes len buf =
    if leb len (length buf.data_bytes - buf.read_index)
    then some (slice buf.read_index (buf.read_index + len) buf.data_bytes)
    else none

-- Decode, from the message's header on: the message, if there is one, and the buffer after it.
unfoldable pub decode_body : RawHeader → IoBuffer → Option (Option RawMessage × IoBuffer)
unfolding append_content read_bytes consume
decode_body h buf =
    if ltb 0 h.content_size
    then Option.map
        (λ bytes. (
          some (append_content bytes (record { header = h; content = [] })),
          consume h.content_size buf,
        ))
        (read_bytes h.content_size buf)
    else some (some (record { header = h; content = [] }), buf)

-- With the header that Decode predicts.
unfoldable pub decode_predicted : RawHeader → IoBuffer → Option (Option RawMessage × IoBuffer)
unfolding can_read_size frame_size decode_body consume
decode_predicted h buf =
    if ltb (can_read_size buf) (frame_size h)
    then some (none, buf)
    else decode_body h (consume header_size buf)

unfoldable pub decode : IoBuffer → Option (Option RawMessage × IoBuffer)
unfolding can_read_size header_at decode_predicted
decode buf =
    if ltb (can_read_size buf) header_size
    then some (none, buf)
    else decode_predicted
        (header_at (slice buf.read_index (buf.read_index + header_size) buf.data_bytes)) buf

module _ {C : Type 0} (padding : List ℕ) (send : List ℕ → C → ℤ × C) where
  -- EncodeTo.
  unfoldable pub encode_to : RawMessage → C → Option (Bool × C)
  unfolding header_bytes
  encode_to m channel =
      let (ret, channel') = send (header_bytes padding m.header) channel in
      let (ret', channel'') = send m.content channel' in
      if length m.content == m.header.content_size
      then some (if is_negative ret then (false, channel') else (not (is_negative ret'), channel''))
      else none

  -- SendRequest: the next sequence number too.
  unfoldable pub send_request : RawMessage → ℕ → C → Option (Bool × C) × ℕ
  unfolding encode_to set_async_id
  send_request m sequence_id channel =
      (encode_to (set_async_id sequence_id m) channel, (sequence_id + 1) % 2 ^ 64)

  -- SendResponse.
  unfoldable pub send_response : RawMessage → RawMessage → C → Option (Bool × C)
  unfolding encode_to
  send_response request response channel =
      if request.header.sequence_id == response.header.sequence_id
      then encode_to response channel
      else none

  -- What OnDataReceived does with a message: the messages that the handler gets.
  unfoldable pub on_message : Bool → Bool → RawMessage → C → Option (List RawMessage × C)
  unfolding is_heartbeat set_async_id send_response
  on_message server_side has_handler m channel =
      if server_side && is_heartbeat m
      then Option.map (λ r. ([], r.1))
          (send_response m (set_async_id m.header.sequence_id new_heartbeat) channel)
      else some (if has_handler then m ∷ [] else [], channel)

  -- The loop of OnDataReceived, on fuel.
  unfoldable pub receive_loop :
      Bool → Bool → ℕ → IoBuffer → C → Option (List RawMessage × (IoBuffer × C))
  unfolding decode on_message
  receive_loop server_side has_handler zero buf channel = none
  receive_loop server_side has_handler (suc fuel) buf channel = elim (decode buf) [
    | none ↦ none
    | some r ↦ elim r.0 [
      | none ↦ some ([], (r.1, channel))
      | some m ↦ elim (on_message server_side has_handler m channel) [
        | none ↦ none
        | some s ↦
            Option.map (λ t. (s.0 ++ t.0, t.1)) (receive_loop server_side has_handler fuel r.1 s.1)
      ]
    ]
  ]

  -- OnDataReceived. Each round but the last reads a header, so that there are fewer than the bytes to read.
  unfoldable pub on_data_received :
      Bool → Bool → IoBuffer → C → Option (List RawMessage × (IoBuffer × C))
  unfolding can_read_size receive_loop
  on_data_received server_side has_handler buf channel =
      receive_loop server_side has_handler (can_read_size buf + 1) buf channel
