-- ===== src/Net/RawCodec/Decode.antt =====
-- RawMessage::Decode and EncodeTo, raw_message.cc: whole frames, parts of one, and sizes that wrap.
use ltio.Common.{
  ℕ, ◌+◌, ◌-◌, ◌%◌, ◌^◌, min, ◌≤◌, ◌<◌, ◌≡◌, refl, sym, ap, ◌∙◌, true, false, List, [], ◌∷◌, ◌++◌,
  none, some, ltb, leb, ◌==◌, length, take, drop, arith, Bool-cases, inl, inr, length-append,
}
use mathlib.Core.List.{append_assoc}
use native.Mathlib.Nat.{mod-eq_of_lt}
use ltio.Common.Slices.{slice, length-slice, slice_start, take_append_left}
use ltio.Net.Buffer.{IoBuffer, can_read_size, as_string, consume}
use ltio.Net.Buffer.Contents.{IsValid, consume-as_string}
use ltio.Net.RawCodec.{
  RawHeader, RawMessage, header_size, frame_size, header_bytes, header_at, append_content,
  read_bytes, decode, decode_predicted, decode_body,
}
use ltio.Net.RawCodec.Header.{
  Fits, header_bytes-length, header_at-header_bytes, take_first, drop_first,
}

-- A message that fits, with the size of its content in its header.
pub record IsFrame (m : RawMessage) : Type 0 where
  pub fits : Fits m.header
  pub sized : m.header.content_size ≡ length m.content

-- The bytes of a message.
abbrev pub frame : List ℕ → RawMessage → List ℕ
frame padding m = header_bytes padding m.header ++ m.content

-- What can be read has as many bytes as CanReadSize says.
pub can_read_size_lem : (buf : IoBuffer) → IsValid buf → can_read_size buf ≡ length (as_string buf)
unfolding can_read_size as_string
can_read_size_lem buf v = sym (length-slice buf.read_index buf.write_index buf.data_bytes v.inside)

-- The first bytes that can be read.
slice_read :
    (n : ℕ) (buf : IoBuffer)
    → IsValid buf
    → n ≤ can_read_size buf
    → slice buf.read_index (buf.read_index + n) buf.data_bytes ≡ take n (as_string buf)
unfolding can_read_size as_string
slice_read n buf v k =
    slice_start buf.read_index buf.write_index n buf.data_bytes (omega (arith, k, v.ordered))
      v.inside

read_bytes_lem :
    (n : ℕ) (buf : IoBuffer)
    → IsValid buf
    → n ≤ can_read_size buf
    → read_bytes n buf ≡ some (take n (as_string buf))
unfolding read_bytes can_read_size
read_bytes_lem n buf v k =
    let fits : leb n (length buf.data_bytes - buf.read_index) ≡ true =
      ground (arith, k, v.ordered, v.inside) in
    rw fits (ap some (slice_read n buf v k))

pub frame-length :
    (padding : List ℕ) (m : RawMessage)
    → length padding ≡ 6
    → length (frame padding m) ≡ 24 + length m.content
frame-length padding m p = omega (
  arith,
  length-append (header_bytes padding m.header) m.content,
  header_bytes-length padding m.header p,
)

pub no_content : (xs : List ℕ) → length xs ≡ 0 → xs ≡ []
no_content [] h = refl
no_content (x ∷ xs) h = absurd (omega arith)

-- A body that can be read becomes the content.
decode_body_lem :
    (m : RawMessage) (rest : List ℕ) (buf : IoBuffer)
    → IsFrame m
    → IsValid buf
    → as_string buf ≡ m.content ++ rest
    → (buf' : IoBuffer) × (decode_body m.header buf ≡ some (some m, buf'))
      × (as_string buf' ≡ rest)
      × IsValid buf'
unfolding decode_body append_content
decode_body_lem m rest buf f v e = elim (Bool-cases (ltb 0 m.header.content_size)) [
  | inl some_bytes ↦
      let enough : m.header.content_size ≤ can_read_size buf =
        omega
          (arith, can_read_size_lem buf v, ap length e, length-append m.content rest, f.sized) in
      let (after, valid) = consume-as_string m.header.content_size buf v in
      (
        consume m.header.content_size buf,
        rw (
          some_bytes,
          decode_body,
          read_bytes_lem m.header.content_size buf v enough,
          e,
          take_first m.header.content_size m.content rest (sym f.sized),
          append_content,
          sym f.sized,
        ),
        after
            ∙ ap (drop m.header.content_size) e
            ∙ drop_first m.header.content_size m.content rest (sym f.sized),
        valid,
      )
  | inr no_bytes ↦
      let empty : m.content ≡ [] = no_content m.content (ground (arith, no_bytes, f.sized)) in
      (
        buf,
        rw no_bytes (ap (λ c. some (some (record m { content = c }), buf)) (sym empty)),
        e ∙ ap (λ c. c ++ rest) empty,
        v,
      )
]

-- The test of the frame's size, which does not wrap.
predicted_whole :
    (h : RawHeader) (buf : IoBuffer)
    → Fits h
    → h.content_size + 24 ≤ can_read_size buf
    → decode_predicted h buf ≡ decode_body h (consume header_size buf)
unfolding decode_predicted frame_size
predicted_whole h buf f k =
    let whole : ltb (can_read_size buf) ((h.content_size + header_size) % 2 ^ 64) ≡ false =
      let e = mod-eq_of_lt f.frame_fits in ground (arith, k, e) in
    rw whole

predicted_part :
    (h : RawHeader) (buf : IoBuffer)
    → Fits h
    → can_read_size buf < h.content_size + 24
    → decode_predicted h buf ≡ some (none, buf)
unfolding decode_predicted frame_size
predicted_part h buf f k =
    let waits : ltb (can_read_size buf) ((h.content_size + header_size) % 2 ^ 64) ≡ true =
      let e = mod-eq_of_lt f.frame_fits in ground (arith, k, e) in
    rw waits

-- Decode on a valid buffer that starts with a whole frame gives exactly its message, header and content,
-- and leaves what follows the frame.
pub decode-frame :
    (padding : List ℕ) (m : RawMessage) (rest : List ℕ) (buf : IoBuffer)
    → length padding ≡ 6
    → IsFrame m
    → IsValid buf
    → as_string buf ≡ frame padding m ++ rest
    → (buf' : IoBuffer) × (decode buf ≡ some (some m, buf'))
      × (as_string buf' ≡ rest)
      × IsValid buf'
unfolding decode
decode-frame padding m rest buf p f v e =
    let header = header_bytes padding m.header in
    let n = header_bytes-length padding m.header p in
    let e' : as_string buf ≡ header ++ (m.content ++ rest) =
      e ∙ append_assoc header m.content rest in
    let size : can_read_size buf ≡ 24 + (length m.content + length rest) = omega (
      arith,
      can_read_size_lem buf v,
      ap length e',
      length-append m.content rest,
      length-append header (m.content ++ rest),
      n,
    ) in
    let enough : ltb (can_read_size buf) header_size ≡ false = ground (arith, size) in
    let read : header_at (slice buf.read_index (buf.read_index + header_size) buf.data_bytes)
        ≡ m.header =
      ap header_at (slice_read header_size buf v (omega (arith, size)) ∙ ap (take header_size) e')
      ∙ header_at-header_bytes padding (m.content ++ rest) m.header p
          (omega (arith, f.fits.frame_fits)) f.fits.id_fits in
    let whole : m.header.content_size + 24 ≤ can_read_size buf = omega (arith, size, f.sized) in
    let (after, valid) = consume-as_string header_size buf v in
    let (buf', d, left, valid') =
      decode_body_lem m rest (consume header_size buf) f valid
        (after ∙ ap (drop header_size) e' ∙ drop_first 24 header (m.content ++ rest) n) in
    (
      buf',
      rw enough
          (ap (λ h. decode_predicted h buf) read ∙ predicted_whole m.header buf f.fits whole ∙ d),
      left,
      valid',
    )

-- Decode on a valid buffer that holds only a part of a frame, its header not whole or its content not
-- whole, gives no message and leaves the buffer as it was.
pub decode_partial :
    (padding : List ℕ) (m : RawMessage) (part : List ℕ) (buf : IoBuffer)
    → length padding ≡ 6
    → IsFrame m
    → IsValid buf
    → as_string buf ++ part ≡ frame padding m
    → length (as_string buf) < length (frame padding m)
    → decode buf ≡ some (none, buf)
unfolding decode
decode_partial padding m part buf p f v e short =
    let size = can_read_size_lem buf v in
    elim (Bool-cases (ltb (can_read_size buf) header_size)) [
      | inl no_header ↦ rw no_header
      | inr enough ↦
          let first = slice_read header_size buf v (ground (arith, enough)) in
          let same : take header_size (as_string buf) ≡ take header_size (frame padding m) =
            sym (take_append_left header_size (as_string buf) part (ground (arith, enough, size)))
            ∙ ap (take header_size) e in
          let read : header_at (slice buf.read_index (buf.read_index + header_size) buf.data_bytes)
              ≡ m.header =
            ap header_at (first ∙ same)
            ∙ header_at-header_bytes padding m.content m.header p (omega (arith, f.fits.frame_fits))
                f.fits.id_fits in
          let waits : can_read_size buf < m.header.content_size + 24 =
            omega (arith, short, size, f.sized, frame-length padding m p) in
          rw enough
            (ap (λ h. decode_predicted h buf) read ∙ predicted_part m.header buf f.fits waits)
    ]

-- Less than a header gives no message.
pub decode_short :
    (buf : IoBuffer) → IsValid buf → length (as_string buf) < 24 → decode buf ≡ some (none, buf)
unfolding decode
decode_short buf v k =
    let short : ltb (can_read_size buf) header_size ≡ true =
      ground (arith, k, can_read_size_lem buf v) in
    rw short

consume_keeps : (len : ℕ) (buf : IoBuffer) → (consume len buf).data_bytes ≡ buf.data_bytes
unfolding consume
consume_keeps len buf =
    elim (Bool-cases (buf.read_index + min len (can_read_size buf) == buf.write_index)) [
      | inl all ↦ rw all
      | inr part ↦ rw part
    ]

-- A content that is longer than the array is not copied.
decode_body-too_long :
    (h : RawHeader) (buf : IoBuffer)
    → length buf.data_bytes < h.content_size
    → decode_body h buf ≡ none
unfolding decode_body read_bytes
decode_body-too_long h buf k =
    let some_bytes : ltb 0 h.content_size ≡ true = ground (arith, k) in
    let outside : leb h.content_size (length buf.data_bytes - buf.read_index) ≡ false =
      ground (arith, k) in
    rw (some_bytes, outside)

-- A whole header whose size is so near to 2^64 that the frame's size wraps passes Decode's test of the
-- frame's size, and the copy of the content fails: an array in memory is not that long.
pub decode_overflow :
    (padding : List ℕ) (h : RawHeader) (rest : List ℕ) (buf : IoBuffer)
    → length padding ≡ 6
    → h.sequence_id < 2 ^ 64
    → h.content_size < 2 ^ 64
    → 2 ^ 64 ≤ h.content_size + header_size
    → IsValid buf
    → length buf.data_bytes < 2 ^ 63
    → as_string buf ≡ header_bytes padding h ++ rest
    → decode buf ≡ none
unfolding decode decode_predicted frame_size
decode_overflow padding h rest buf p id size wraps v small e =
    let n = header_bytes-length padding h p in
    let read_size : can_read_size buf ≡ 24 + length rest = omega (
      arith,
      can_read_size_lem buf v,
      ap length e,
      length-append (header_bytes padding h) rest,
      n,
    ) in
    let enough : ltb (can_read_size buf) header_size ≡ false = ground (arith, read_size) in
    let read : header_at (slice buf.read_index (buf.read_index + header_size) buf.data_bytes) ≡ h =
      ap header_at
        (slice_read header_size buf v (omega (arith, read_size)) ∙ ap (take header_size) e)
      ∙ header_at-header_bytes padding rest h p size id in
    let passes : ltb (can_read_size buf) ((h.content_size + header_size) % 2 ^ 64) ≡ false =
      ground (arith, read_size, wraps, size) in
    let longer : length (consume header_size buf).data_bytes < h.content_size =
      omega (arith, small, wraps, ap length (consume_keeps header_size buf)) in
    rw enough (
      ap (λ h. decode_predicted h buf) read
      ∙ rw passes (decode_body-too_long h (consume header_size buf) longer))
