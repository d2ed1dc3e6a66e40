-- ===== src/Net/Buffer.antt =====
-- net_io/io_buffer.{h,cc}: a growing array of bytes with a position to read from and one to write at.
-- A difference of positions is a uint64_t; IsValid, below, keeps each one from wrapping, so that `-`
-- on numbers stands for it. `none` is a CHECK that fails or a copy that leaves the array.
pub mod Contents
use ltio.Common.{
  ℕ, zero, suc, ◌+◌, ◌-◌, min, Bool, true, false, List, [], ◌∷◌, ◌++◌, Option, none, some, leb, ltb,
  ◌==◌, ◌&&◌, if◌then◌else◌, length, take, drop, replicate,
}
use mathlib.Core.Option as Option
use ltio.Common.Slices.{slice, overwrite}

pub record IoBuffer : Type 0 where
  pub read_index : ℕ
  pub write_index : ℕ
  pub data_bytes : List ℕ

abbrev pub default_initial_size : ℕ
default_initial_size = 512

-- The constructor.
abbrev pub empty_buffer : IoBuffer
empty_buffer = record {
  read_index = 0;
  write_index = 0;
  data_bytes = replicate default_initial_size 0;
}

-- The move constructor: the new buffer, and the one that was moved from.
unfoldable pub move_buffer : IoBuffer → IoBuffer × IoBuffer
move_buffer b = (b, record { read_index = 0; write_index = 0; data_bytes = [] })

unfoldable pub can_read_size : IoBuffer → ℕ
can_read_size b = b.write_index - b.read_index

unfoldable pub can_write_size : IoBuffer → ℕ
can_write_size b = length b.data_bytes - b.write_index

unfoldable pub is_empty : IoBuffer → Bool
unfolding can_read_size
is_empty b = can_read_size b == 0

-- std::copy of what can be read to the front.
unfoldable pub move_front : IoBuffer → IoBuffer
unfolding can_read_size
move_front b = record {
  read_index = 0;
  write_index = can_read_size b;
  data_bytes = overwrite 0 (slice b.read_index b.write_index b.data_bytes) b.data_bytes;
}

-- std::vector::resize.
unfoldable pub resize : ℕ → List ℕ → List ℕ
resize n xs = if leb n (length xs) then take n xs else xs ++ replicate (n - length xs) 0

unfoldable pub ensure_writable_size : ℕ → IoBuffer → Option IoBuffer
unfolding can_write_size move_front resize
ensure_writable_size len b =
    if leb len (can_write_size b)
    then some b
    else if leb len (can_write_size b + b.read_index)
    then (let b' = move_front b in if leb len (can_write_size b') then some b' else none)
    else some (record b { data_bytes = resize (b.write_index + len) b.data_bytes })

unfoldable pub produce : ℕ → IoBuffer → IoBuffer
produce len b = record b { write_index = b.write_index + len }

-- memcpy to the position to write at.
unfoldable pub copy_in : List ℕ → IoBuffer → Option IoBuffer
unfolding can_write_size
copy_in bytes b =
    if leb (length bytes) (can_write_size b)
    then some (record b { data_bytes = overwrite b.write_index bytes b.data_bytes })
    else none

-- WriteRawData, and WriteString and Append, which do the same with the bytes of a string and of a
-- plain value.
unfoldable pub write_raw_data : List ℕ → IoBuffer → Option IoBuffer
unfolding ensure_writable_size copy_in produce
write_raw_data bytes b = elim (ensure_writable_size (length bytes) b) [
  | none ↦ none
  | some b' ↦ Option.map (produce (length bytes)) (copy_in bytes b')
]

-- AsString.
unfoldable pub as_string : IoBuffer → List ℕ
as_string b = slice b.read_index b.write_index b.data_bytes

unfoldable pub consume : ℕ → IoBuffer → IoBuffer
unfolding can_read_size
consume len b =
    let read = b.read_index + min len (can_read_size b) in
    if read == b.write_index
    then record b { read_index = 0; write_index = 0 }
    else record b { read_index = read }

-- std::search for "\r\n": the position of the first.
unfoldable pub search_crlf : List ℕ → Option ℕ
search_crlf [] = none
search_crlf (x ∷ []) = none
search_crlf (x ∷ y ∷ s) =
    let rest = search_crlf (y ∷ s) in if x == 13 && (y == 10) then some 0 else Option.map suc rest

-- FindCRLF, as the distance from the position to read from.
unfoldable pub find_crlf : IoBuffer → Option ℕ
unfolding is_empty as_string search_crlf
find_crlf b = if is_empty b then none else search_crlf (as_string b)

-- HasALine: memchr for a line feed.
unfoldable pub has_line_feed : List ℕ → Bool
has_line_feed [] = false
has_line_feed (x ∷ s) = let rest = has_line_feed s in if x == 10 then true else rest

unfoldable pub has_a_line : IoBuffer → Bool
unfolding as_string has_line_feed
has_a_line b = has_line_feed (as_string b)
