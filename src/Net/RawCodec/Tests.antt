-- ===== src/Net/RawCodec/Tests.antt =====
-- Runs of the raw codec on two messages, one of them a heartbeat: net_io/codec/raw.
use ltio.Common.{
  ℕ, ◌≡◌, refl, true, List, [], ◌∷◌, ◌++◌, none, some, length, take, drop, arith, replicate,
}
use ltio.Net.Buffer.{IoBuffer, empty_buffer, as_string}
use ltio.Net.RawCodec.{RawHeader, RawMessage, header_bytes, encode_to, decode, on_data_received}
use ltio.Net.RawCodec.Decode.{IsFrame, frame, decode_overflow}
use ltio.Net.RawCodec.Stream.{delivered, answered, Received}
use ltio.Net.RawCodec.Pieces.{receive, encode_all, on_data_received-Received, pieces_roundtrip}
use ltio.Common.Int.{ℤ, pos}

abbrev zeros : List ℕ
zeros = replicate 6 0

abbrev keep_all : List ℕ → List ℕ → ℤ × List ℕ
keep_all bytes sent = (pos (length bytes), sent ++ bytes)

abbrev hello : RawMessage
hello = record {
  header = record { code = 1; method = 12; content_size = 2; sequence_id = 300 };
  content = 104 ∷ 105 ∷ [];
}

abbrev beat : RawMessage
beat = record {
  header = record { code = 0; method = 255; content_size = 0; sequence_id = 301 };
  content = [];
}

hello-IsFrame : IsFrame hello
hello-IsFrame = record {
  fits = record {
    code_fits = omega arith;
    method_fits = omega arith;
    frame_fits = omega arith;
    id_fits = omega arith;
  };
  sized = refl;
}

beat-IsFrame : IsFrame beat
beat-IsFrame = record {
  fits = record {
    code_fits = omega arith;
    method_fits = omega arith;
    frame_fits = omega arith;
    id_fits = omega arith;
  };
  sized = refl;
}

abbrev holding : List ℕ → IoBuffer
holding bytes = record { read_index = 0; write_index = length bytes; data_bytes = bytes }

-- The bytes of a whole message, and of one that lacks its last byte.
abbrev hello_bytes : List ℕ
hello_bytes =
    1 ∷ 12 ∷ 0 ∷ 0 ∷ 0 ∷ 0 ∷ 0 ∷ 0 ∷ 2 ∷ 0 ∷ 0 ∷ 0 ∷ 0 ∷ 0 ∷ 0 ∷ 0 ∷ 44 ∷ 1 ∷ 0 ∷ 0 ∷ 0 ∷ 0 ∷ 0 ∷ 0
    ∷ 104 ∷ 105 ∷ []

hello-frame : frame zeros hello ≡ hello_bytes
unfolding header_bytes
hello-frame = refl

-- A header that names a content of 2^64 - 1 bytes.
abbrev huge : RawHeader
huge = record { code = 0; method = 1; content_size = 18446744073709551615; sequence_id = 7 }

decode_overflow_example : decode (holding (header_bytes zeros huge)) ≡ none
unfolding header_bytes as_string
decode_overflow_example =
    decode_overflow zeros huge [] (holding (header_bytes zeros huge)) refl (omega arith)
      (omega arith) (omega arith) (record { ordered = omega arith; inside = omega arith })
      (omega arith) refl

abbrev pieces : List (List ℕ)
pieces =
    take 10 hello_bytes
    ∷ (drop 10 hello_bytes ++ (0 ∷ 255 ∷ []))
    ∷ (replicate 14 0 ++ (45 ∷ 1 ∷ replicate 6 0))
    ∷ []

pieces_roundtrip_example :
    (buf : IoBuffer) × (receive zeros keep_all true pieces empty_buffer []
      ≡ some (delivered true (hello ∷ beat ∷ []), (buf, answered zeros true (hello ∷ beat ∷ []))))
    × (as_string buf ≡ [])
unfolding encode_all encode_to header_bytes as_string
pieces_roundtrip_example =
    pieces_roundtrip zeros keep_all true (hello ∷ beat ∷ []) pieces empty_buffer refl
      (λ bytes sent. refl) (hello-IsFrame, (beat-IsFrame, tt))
      (record { ordered = omega arith; inside = omega arith }) refl refl

on_data_received-Received_example :
    Received zeros true
      (hello ∷ beat ∷ [])
      (0 ∷ 255 ∷ (replicate 14 0 ++ (45 ∷ 1 ∷ replicate 6 0)))
      []
      (on_data_received zeros keep_all true true (holding hello_bytes) [])
unfolding header_bytes as_string
on_data_received-Received_example =
    on_data_received-Received zeros keep_all true (hello ∷ beat ∷ []) (holding hello_bytes)
      (0 ∷ 255 ∷ (replicate 14 0 ++ (45 ∷ 1 ∷ replicate 6 0))) [] refl (λ bytes sent. refl)
      (hello-IsFrame, (beat-IsFrame, tt)) (record { ordered = omega arith; inside = omega arith })
      refl
