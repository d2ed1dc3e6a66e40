-- ===== src/Net/Buffer/Contents.antt =====
-- IOBuffer, io_buffer.cc: what can be read before and after each operation.
use ltio.Common.{
  ℕ, ◌+◌, ◌-◌, min, ◌≤◌, ◌<◌, ◌≡◌, refl, sym, ap, ◌∙◌, true, false, List, ◌++◌, some, leb, ◌==◌,
  length, take, drop, replicate, arith, Bool-cases, inl, inr, length-append, length-replicate,
  ==_iff,
}
use ltio.Common.Slices.{
  slice, overwrite, length-slice, take_append_left, take-append, slice-overwrite, length-overwrite,
  drop-slice, drop_beyond,
}
use ltio.Net.Buffer.{
  IoBuffer, can_read_size, can_write_size, move_front, resize, ensure_writable_size, produce,
  copy_in, write_raw_data, as_string, consume,
}

-- The position to read from is not past the one to write at, which is not past the end.
pub record IsValid (b : IoBuffer) : Type 0 where
  pub ordered : b.read_index ≤ b.write_index
  pub inside : b.write_index ≤ length b.data_bytes

-- A buffer with the same bytes to read, and room for `len` more.
abbrev pub HasRoom : ℕ → IoBuffer → IoBuffer → Type 0
HasRoom len b b' =
    (as_string b' ≡ as_string b) × (len ≤ length b'.data_bytes - b'.write_index) × IsValid b'

move_front-as_string : (b : IoBuffer) → IsValid b → as_string (move_front b) ≡ as_string b
unfolding move_front as_string can_read_size overwrite
move_front-as_string b h =
    let run = slice b.read_index b.write_index b.data_bytes in
    let n = length-slice b.read_index b.write_index b.data_bytes h.inside in
    ap (λ k. take k (run ++ drop (length run) b.data_bytes)) (sym n)
    ∙ take-append run (drop (length run) b.data_bytes)

move_front-length :
    (b : IoBuffer) → IsValid b → length (move_front b).data_bytes ≡ length b.data_bytes
unfolding move_front
move_front-length b h =
    length-overwrite 0 (slice b.read_index b.write_index b.data_bytes) b.data_bytes
      (omega (arith, length-slice b.read_index b.write_index b.data_bytes h.inside, h.inside))

move_front-HasRoom :
    (len : ℕ) (b : IoBuffer)
    → IsValid b
    → len ≤ length b.data_bytes - b.write_index + b.read_index
    → HasRoom len b (move_front b)
unfolding move_front can_read_size
move_front-HasRoom len b h r =
    let n = move_front-length b h in
    (
      move_front-as_string b h,
      omega (arith, n, h.ordered, h.inside),
      record { ordered = omega arith; inside = omega (arith, n, h.inside) },
    )

resize-HasRoom :
    (len : ℕ) (b : IoBuffer)
    → IsValid b
    → length b.data_bytes < b.write_index + len
    → HasRoom len b (record b { data_bytes = resize (b.write_index + len) b.data_bytes })
unfolding resize as_string
resize-HasRoom len b h r =
    let zeros : List ℕ = replicate (b.write_index + len - length b.data_bytes) 0 in
    let n = length-append b.data_bytes zeros in
    let k = length-replicate {A = ℕ} (b.write_index + len - length b.data_bytes) 0 in
    let longer : leb (b.write_index + len) (length b.data_bytes) ≡ false = ground (arith, r) in
    rw longer (
      ap (drop b.read_index) (take_append_left b.write_index b.data_bytes zeros h.inside),
      omega (arith, n, k, r),
      record { ordered = h.ordered; inside = omega (arith, n, h.inside) },
    )

-- EnsureWritableSize, for any number of bytes, passes its CHECK. What can be read stays, and there is
-- room for the bytes.
pub ensure_writable_size_lem :
    (len : ℕ) (b : IoBuffer)
    → IsValid b
    → (b' : IoBuffer) × (ensure_writable_size len b ≡ some b') × HasRoom len b b'
unfolding ensure_writable_size can_write_size
ensure_writable_size_lem len b h =
    elim (Bool-cases (leb len (length b.data_bytes - b.write_index))) [
      | inl fits ↦ (b, rw fits, (refl, ground (arith, fits), h))
      | inr full ↦
          elim (Bool-cases (leb len (length b.data_bytes - b.write_index + b.read_index))) [
            | inl moves ↦
                let (same, room, valid) = move_front-HasRoom len b h (ground (arith, moves)) in
                let enough : leb len (length (move_front b).data_bytes - (move_front b).write_index)
                    ≡ true =
                  ground (arith, room) in
                (move_front b, rw (full, moves, enough), (same, room, valid))
            | inr grows ↦
                (_, rw (full, grows), resize-HasRoom len b h (ground (arith, full, h.inside)))
          ]
    ]

-- WriteRawData and WriteString of any bytes return, and append the bytes to what can be read.
pub write_raw_data-as_string :
    (bytes : List ℕ) (b : IoBuffer)
    → IsValid b
    → (b' : IoBuffer) × (write_raw_data bytes b ≡ some b')
      × (as_string b' ≡ as_string b ++ bytes)
      × IsValid b'
unfolding write_raw_data copy_in can_write_size produce as_string
write_raw_data-as_string bytes b h =
    let (c, e, (same, room, valid)) = ensure_writable_size_lem (length bytes) b h in
    let fits : leb (length bytes) (length c.data_bytes - c.write_index) ≡ true =
      ground (arith, room) in
    let inside : c.write_index + length bytes ≤ length c.data_bytes =
      omega (arith, room, valid.inside) in
    (
      record c {
        write_index = c.write_index + length bytes;
        data_bytes = overwrite c.write_index bytes c.data_bytes;
      },
      rw (e, write_raw_data, copy_in, can_write_size, fits),
      slice-overwrite c.read_index c.write_index bytes c.data_bytes valid.ordered inside
          ∙ ap (λ s. s ++ bytes) same,
      record {
        ordered = omega (arith, valid.ordered);
        inside = omega (arith, length-overwrite c.write_index bytes c.data_bytes inside, inside);
      },
    )

-- Consume drops bytes from the front of what can be read, at most all of them.
pub consume-as_string :
    (len : ℕ) (b : IoBuffer)
    → IsValid b
    → (as_string (consume len b) ≡ drop len (as_string b)) × IsValid (consume len b)
unfolding consume can_read_size as_string
consume-as_string len b h =
    let run = slice b.read_index b.write_index b.data_bytes in
    let n = length-slice b.read_index b.write_index b.data_bytes h.inside in
    let read = b.read_index + min len (b.write_index - b.read_index) in
    elim (Bool-cases (read == b.write_index)) [
      | inl all ↦
          let e = (==_iff read b.write_index).0 all in
          rw (all) (
            sym (drop_beyond len run (omega (arith, e, n))),
            record { ordered = omega arith; inside = omega arith },
          )
      | inr part ↦
          let m : min len (b.write_index - b.read_index) ≡ len = ground (arith, part, h.ordered) in
          rw part (
            ap (λ k. slice (b.read_index + k) b.write_index b.data_bytes) m
                ∙ drop-slice len b.read_index b.write_index b.data_bytes,
            record { ordered = omega (arith, h.ordered); inside = h.inside },
          )
    ]
