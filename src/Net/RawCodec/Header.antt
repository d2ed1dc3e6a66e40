-- ===== src/Net/RawCodec/Header.antt =====
-- LtRawHeader, raw_message.{h,cc}: its bytes, and the header that they hold.
use ltio.Common.{
  ℕ, zero, suc, ◌+◌, ◌/◌, ◌^◌, ◌<◌, ◌≡◌, refl, sym, ap, ◌∙◌, List, [], ◌∷◌, ◌++◌, length, take,
  drop, arith, length-append,
}
use native.Mathlib.Nat.{pow-suc}
use ltio.Common.Slices.{take-append, drop-drop}
use ltio.Net.RawCodec.{RawHeader, header_size, le_bytes, of_le_bytes, header_bytes, header_at}

-- Each field fits its type, and the frame's size fits a uint64_t.
pub record Fits (h : RawHeader) : Type 0 where
  pub code_fits : h.code < 2 ^ 8
  pub method_fits : h.method < 2 ^ 8
  pub frame_fits : h.content_size + header_size < 2 ^ 64
  pub id_fits : h.sequence_id < 2 ^ 64

pub le_bytes-length : (w n : ℕ) → length (le_bytes w n) ≡ w
unfolding le_bytes
le_bytes-length zero n = refl
le_bytes-length (suc w) n = ap suc (le_bytes-length w (n / 256))

of_le_bytes-le_bytes : (w n : ℕ) → n < 256 ^ w → of_le_bytes (le_bytes w n) ≡ n
unfolding le_bytes of_le_bytes
of_le_bytes-le_bytes zero n h = omega arith
of_le_bytes-le_bytes (suc w) n h =
    omega (arith, of_le_bytes-le_bytes w (n / 256) (omega (arith, h, pow-suc 256 w)))

drop-append {ℓ} : {A : Type ℓ} (xs ys : List A) → drop (length xs) (xs ++ ys) ≡ ys
drop-append [] ys = refl
drop-append (x ∷ xs) ys = drop-append xs ys

-- Dropping or taking a known number of elements.
pub drop_first {ℓ} : {A : Type ℓ} (n : ℕ) (xs ys : List A) → length xs ≡ n → drop n (xs ++ ys) ≡ ys
drop_first n xs ys e = ap (λ k. drop k (xs ++ ys)) (sym e) ∙ drop-append xs ys

pub take_first {ℓ} : {A : Type ℓ} (n : ℕ) (xs ys : List A) → length xs ≡ n → take n (xs ++ ys) ≡ xs
take_first n xs ys e = ap (λ k. take k (xs ++ ys)) (sym e) ∙ take-append xs ys

pub header_bytes-length :
    (padding : List ℕ) (h : RawHeader) → length padding ≡ 6 → length (header_bytes padding h) ≡ 24
unfolding header_bytes
header_bytes-length padding h p =
    let size = le_bytes 8 h.content_size in
    let id = le_bytes 8 h.sequence_id in
    omega (
      arith,
      p,
      length-append padding (size ++ id),
      length-append size id,
      le_bytes-length 8 h.content_size,
      le_bytes-length 8 h.sequence_id,
    )

content_size_at :
    (padding : List ℕ) (h : RawHeader)
    → length padding ≡ 6
    → take 8 (drop 8 (header_bytes padding h)) ≡ le_bytes 8 h.content_size
unfolding header_bytes
content_size_at padding h p =
    let size = le_bytes 8 h.content_size in
    let id = le_bytes 8 h.sequence_id in
    ap (take 8) (drop_first 6 padding (size ++ id) p)
    ∙ take_first 8 size id (le_bytes-length 8 h.content_size)

take_all {ℓ} : {A : Type ℓ} (n : ℕ) (xs : List A) → length xs ≡ n → take n xs ≡ xs
take_all {A = A} n xs e = ap (λ k. take k xs) (sym e) ∙ whole xs
  where
    whole : (xs : List A) → take (length xs) xs ≡ xs
    whole [] = refl
    whole (x ∷ xs) = ap (λ t. x ∷ t) (whole xs)

sequence_id_at :
    (padding : List ℕ) (h : RawHeader)
    → length padding ≡ 6
    → take 8 (drop 16 (header_bytes padding h)) ≡ le_bytes 8 h.sequence_id
unfolding header_bytes
sequence_id_at padding h p =
    let size = le_bytes 8 h.content_size in
    let id = le_bytes 8 h.sequence_id in
    ap (take 8) (
      sym (drop-drop 8 8 (header_bytes padding h))
      ∙ ap (drop 8) (drop_first 6 padding (size ++ id) p)
      ∙ drop_first 8 size id (le_bytes-length 8 h.content_size))
    ∙ take_all 8 id (le_bytes-length 8 h.sequence_id)

-- A header whose numbers fit a uint64_t is read back from its bytes, whatever the padding holds and whatever
-- follows.
pub header_at-header_bytes :
    (padding rest : List ℕ) (h : RawHeader)
    → length padding ≡ 6
    → h.content_size < 2 ^ 64
    → h.sequence_id < 2 ^ 64
    → header_at (take header_size (header_bytes padding h ++ rest)) ≡ h
unfolding header_at header_bytes
header_at-header_bytes padding rest h p size id = rw (
  take_first 24 (header_bytes padding h) rest (header_bytes-length padding h p),
  header_at,
  content_size_at padding h p,
  sequence_id_at padding h p,
  of_le_bytes-le_bytes 8 h.content_size (omega (arith, size)),
  of_le_bytes-le_bytes 8 h.sequence_id (omega (arith, id)),
)
