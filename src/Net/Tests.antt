-- ===== src/Net/Tests.antt =====
-- Runs of buffers and of the line codec on a few bytes: net_io/io_buffer.cc and net_io/codec/line.
use ltio.Common.{ℕ, ◌≡◌, refl, true, List, [], ◌∷◌, ◌++◌, none, some, length, arith}
use ltio.Common.Int.{ℤ, pos}
use ltio.Net.Buffer.{IoBuffer, empty_buffer, write_raw_data, as_string, search_crlf}
use ltio.Net.Buffer.Contents.{IsValid}
use ltio.Net.Line.{crlf, on_data_received, send_message}
use ltio.Net.Line.Roundtrip.{on_data_received_line, line_roundtrip}

-- "ab", a line end, and "c", read from position 1 of 6.
abbrev two_lines : IoBuffer
two_lines = record { read_index = 1; write_index = 6; data_bytes = 0 ∷ 97 ∷ 98 ∷ 13 ∷ 10 ∷ 99 ∷ [] }

two_lines-IsValid : IsValid two_lines
two_lines-IsValid = record { ordered = omega arith; inside = omega arith }

empty_buffer-IsValid : IsValid empty_buffer
empty_buffer-IsValid = record { ordered = omega arith; inside = omega arith }

ab-clean : search_crlf (97 ∷ 98 ∷ []) ≡ none
unfolding search_crlf
ab-clean = refl

two_lines-as_string : as_string two_lines ≡ (97 ∷ 98 ∷ []) ++ (crlf ++ (99 ∷ []))
unfolding as_string
two_lines-as_string = refl

empty_buffer-as_string : as_string empty_buffer ≡ []
unfolding as_string
empty_buffer-as_string = refl

on_data_received_line_example :
    ((on_data_received true two_lines).0 ≡ some (97 ∷ 98 ∷ []))
    × (as_string (on_data_received true two_lines).1 ≡ 99 ∷ [])
    × IsValid (on_data_received true two_lines).1
on_data_received_line_example =
    on_data_received_line (97 ∷ 98 ∷ []) (99 ∷ []) two_lines two_lines-IsValid ab-clean
      two_lines-as_string

abbrev keep_all : List ℕ → List ℕ → ℤ × List ℕ
keep_all bytes sent = (pos (length bytes), sent ++ bytes)

line_roundtrip_example :
    ((send_message keep_all (97 ∷ 98 ∷ []) []).0 ≡ true)
    × ((b : IoBuffer) × (write_raw_data (send_message keep_all (97 ∷ 98 ∷ []) []).1 empty_buffer
          ≡ some b)
        × ((on_data_received true b).0 ≡ some (97 ∷ 98 ∷ []))
        × (as_string (on_data_received true b).1 ≡ []))
line_roundtrip_example =
    line_roundtrip keep_all (97 ∷ 98 ∷ []) empty_buffer (λ bytes sent. refl) ab-clean
      empty_buffer-IsValid empty_buffer-as_string
