-- ===== src/BooleanIndexer/Cursor/Skip.antt =====
-- EntriesCursor::Skip and SkipTo, scanner_cursor.cc, against LinearSkip and LinearSkipTo.
use ltio.Common.{
  ℕ, zero, suc, ◌-◌, ◌≤◌, ◌<◌, ◌≡◌, refl, sym, Bool, true, false, ltb, leb, List, [], ◌∷◌, Option,
  none, some, length, get_or, arith, ltb→lt, ltb_false→le, le→ltb_false, Bool-cases, subst, inl,
  inr,
}
use ltio.BooleanIndexer.Ids.{null_entry}
use ltio.BooleanIndexer.Cursor.{
  EntriesCursor, get_cur_entry_id, linear_seek, linear_skip_to, linear_skip, skip_loop, seek, skip,
  skip_to,
}
use ltio.BooleanIndexer.Cursor.Seek.{
  at, IsSorted, Seeks, Seeks-unique, Returns, linear_loop-Seeks, skip_loop_whole,
}

-- A cursor on a sorted list of 64-bit entries, at a position of the list or at its end.
pub record IsPlaced (c : EntriesCursor) : Type 0 where
  pub sorted : IsSorted c.id_list
  pub inside : c.index ≤ length c.id_list
  pub words : (i : ℕ) → at c.id_list i ≤ null_entry

pub get_or_beyond : (ids : List ℕ) (i d : ℕ) → length ids ≤ i → get_or ids i d ≡ d
get_or_beyond [] i d h = refl
get_or_beyond (x ∷ ids) zero d h = absurd (omega arith)
get_or_beyond (x ∷ ids) (suc i) d h = get_or_beyond ids i d (omega arith)

pub get_cur_entry_id-at : (c : EntriesCursor) → get_cur_entry_id c ≡ at c.id_list c.index
unfolding get_cur_entry_id
get_cur_entry_id-at c = ground (arith, get_or_beyond c.id_list c.index null_entry)

returned : (o : Option ℕ) (P : ℕ → Type 0) → Returns o P → (r : ℕ) × (o ≡ some r) × P r
returned none P h = absurd h
returned (some r) P h = (r, refl, h)

module _ (passed : ℕ → Bool) (mono : (a b : ℕ) → a ≤ b → passed b ≡ true → passed a ≡ true) where
  seek-linear_seek : (c : EntriesCursor) → IsPlaced c → seek passed c ≡ some (linear_seek passed c)
  unfolding seek linear_seek
  seek-linear_seek c p =
      let (r, e, s) =
        returned (skip_loop passed (suc (length c.id_list)) c.id_list c.index (length c.id_list))
          (Seeks passed c.id_list c.index)
          (skip_loop_whole passed c.id_list p.sorted mono c.index p.inside) in
      let same = Seeks-unique passed c.id_list c.index r _ s (
        linear_loop-Seeks passed c.id_list (length c.id_list - c.index) c.index p.inside
          (omega arith)) in
      rw (e, same)

-- Where a seek by `passed` leaves a cursor.
pub record Sought (passed : ℕ → Bool) (c c' : EntriesCursor) : Type 0 where
  pub same_list : c'.id_list ≡ c.id_list
  pub seeks : Seeks passed c.id_list c.index c'.index

abbrev pub below : ℕ → ℕ → Bool
below id e = ltb e id

abbrev pub up_to : ℕ → ℕ → Bool
up_to id e = leb e id

below_mono : (id a b : ℕ) → a ≤ b → below id b ≡ true → below id a ≡ true
below_mono id a b h e = ground arith

up_to_mono : (id a b : ℕ) → a ≤ b → up_to id b ≡ true → up_to id a ≡ true
up_to_mono id a b h e = ground arith

-- On a sorted list SkipTo returns, reads only inside the list, and ends where LinearSkipTo does.
pub skip_to-linear_skip_to :
    (id : ℕ) (c : EntriesCursor) → IsPlaced c → skip_to id c ≡ some (linear_skip_to id c)
unfolding skip_to linear_skip_to
skip_to-linear_skip_to id c p = seek-linear_seek (below id) (below_mono id) c p

-- The same of Skip and LinearSkip.
pub skip-linear_skip :
    (id : ℕ) (c : EntriesCursor) → IsPlaced c → skip id c ≡ some (linear_skip id c)
unfolding skip linear_skip
skip-linear_skip id c p = seek-linear_seek (up_to id) (up_to_mono id) c p

pub linear_skip_to-Sought :
    (id : ℕ) (c : EntriesCursor) → IsPlaced c → Sought (below id) c (linear_skip_to id c)
unfolding linear_skip_to
linear_skip_to-Sought id c p = record {
  same_list = refl;
  seeks = linear_loop-Seeks (below id) c.id_list _ c.index p.inside (omega arith);
}

pub linear_skip-Sought :
    (id : ℕ) (c : EntriesCursor) → IsPlaced c → Sought (up_to id) c (linear_skip id c)
unfolding linear_skip
linear_skip-Sought id c p = record {
  same_list = refl;
  seeks = linear_loop-Seeks (up_to id) c.id_list _ c.index p.inside (omega arith);
}

-- A seek leaves the cursor placed, forward of where it was.
pub Sought-IsPlaced :
    (passed : ℕ → Bool) (c c' : EntriesCursor) → IsPlaced c → Sought passed c c' → IsPlaced c'
Sought-IsPlaced passed c c' p s = record {
  sorted = subst IsSorted (sym s.same_list) p.sorted;
  inside = subst (λ ids. c'.index ≤ length ids) (sym s.same_list) s.seeks.upto;
  words = subst (λ ids. (i : ℕ) → at ids i ≤ null_entry) (sym s.same_list) p.words;
}

-- The entry under the cursor after a seek has not passed, unless the list is at its end.
pub Sought-cur :
    (passed : ℕ → Bool) (c c' : EntriesCursor)
    → passed null_entry ≡ false
    → Sought passed c c'
    → passed (get_cur_entry_id c') ≡ false
Sought-cur passed c c' e s = elim (Bool-cases (ltb c'.index (length c.id_list))) [
  | inl lt ↦
      rw (get_cur_entry_id-at c', s.same_list)
        (s.seeks.stop (ltb→lt c'.index (length c.id_list) lt))
  | inr ge ↦
      rw
        (
          get_cur_entry_id-at c',
          s.same_list,
          get_or_beyond c.id_list c'.index null_entry (ltb_false→le c'.index (length c.id_list) ge),
        )
        e
]

-- On a sorted list SkipTo returns a placed cursor on the same list. All entries that it goes over are
-- below `id`, and the entry that it stops at is not (at the end that is NULLENTRY).
pub skip_to_first :
    (id : ℕ) (c : EntriesCursor)
    → IsPlaced c
    → id ≤ null_entry
    → (c' : EntriesCursor) × (skip_to id c ≡ some c')
      × (c'.id_list ≡ c.id_list)
      × (c.index ≤ c'.index)
      × ((i : ℕ) → c.index ≤ i → i < c'.index → at c.id_list i < id)
      × (id ≤ get_cur_entry_id c')
      × IsPlaced c'
skip_to_first id c p h =
    let s = linear_skip_to-Sought id c p in
    (
      linear_skip_to id c,
      skip_to-linear_skip_to id c p,
      s.same_list,
      s.seeks.from,
      λ i q r. ltb→lt (at c.id_list i) id (s.seeks.before i q r),
      ltb_false→le (get_cur_entry_id (linear_skip_to id c)) id
          (Sought-cur (below id) c (linear_skip_to id c) (le→ltb_false null_entry id h) s),
      Sought-IsPlaced (below id) c (linear_skip_to id c) p s,
    )
