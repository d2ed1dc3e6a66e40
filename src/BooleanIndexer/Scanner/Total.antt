-- ===== src/BooleanIndexer/Scanner/Total.antt =====
-- The rounds of Retrieve, index_scanner.cc, and the entries that are left.
use ltio.Common.{
  ℕ, zero, suc, ◌+◌, ◌-◌, ◌%◌, ◌≤◌, ◌<◌, ◌≡◌, refl, subst, true, List, [], ◌∷◌, ◌++◌, some, length,
  get_elem?, get_or, arith, Bool-cases, lt→ltb, le→ltb_false, ◌==◌, inl, inr, if◌then◌else◌,
  All-get_elem?, some_inj, ==_iff, get_elem?-eq-get_or,
}
use ltio.Common.Int.{ℤ}
use ltio.Common.Sorting.{AllAbove}
use ltio.BooleanIndexer.Ids.{word64, null_entry, get_conjunction_id, get_doc_id, is_include}
use ltio.BooleanIndexer.Field.{FieldCursor}
use ltio.BooleanIndexer.Scanner.{advance, advance_by, scan, needed, live_cursors}
use ltio.BooleanIndexer.Scanner.Rounds.{
  total_left, AllReady, key, IsLive, Round, Moved, Moved-AllReady, Moved-total_left, Moved-length,
  Moved-trans, stay, skip_from-Moved, skip_first-lt,
}

-- The result after a round that starts at `eid`.
abbrev pub reported : ℕ → List ℤ → List ℤ
reported eid result = if is_include eid then result ++ get_doc_id eid ∷ [] else result

module _ (k end_eid : ℕ) (c : FieldCursor) (cs : List FieldCursor) (result : List ℤ)
    (ready : AllReady (c ∷ cs)) (enough : k ≤ length cs) (order : c.current_id ≤ end_eid)
    (live : end_eid < null_entry) where
  abbrev next_eid : ℕ
  next_eid = (end_eid + 1) % word64

  next_eid-suc : next_eid ≡ end_eid + 1
  next_eid-suc = omega arith

  matched : (get_conjunction_id c.current_id == get_conjunction_id c.current_id) ≡ true
  matched = (==_iff (get_conjunction_id c.current_id) (get_conjunction_id c.current_id)).1 refl

  pub advance_lem :
      (cs' : List FieldCursor) × (advance (suc k) c.current_id end_eid (c ∷ cs) result
        ≡ some (cs', reported c.current_id result))
      × Moved (c ∷ cs) cs'
      × (total_left cs' < total_left (c ∷ cs))
  unfolding advance
  advance_lem = elim (Bool-cases (is_include c.current_id)) [
    | inl inc ↦
        let (cs', e, m, lt) =
          skip_first-lt k next_eid c cs ready enough (omega (arith, next_eid-suc))
            (omega (arith, next_eid-suc)) in
        (cs', rw (matched, inc, advance_by, e), m, lt)
    | inr exc ↦
        let (ds, e, m) = skip_from-Moved k (get_conjunction_id c.current_id) next_eid cs ready.1 in
        let (cs', f, n, lt) =
          skip_first-lt k next_eid c ds (ready.0, Moved-AllReady m) (omega (arith, Moved-length m))
            (omega (arith, next_eid-suc)) (omega (arith, next_eid-suc)) in
        (
          cs',
          rw (matched, exc, advance_by, e, f),
          Moved-trans (stay ready.0 m) n,
          omega (arith, lt, Moved-total_left m),
        )
  ]

Ascends-get_elem? :
    (n : ℕ) (cs : List FieldCursor) (i : ℕ) (d : FieldCursor)
    → AllAbove key n cs
    → get_elem? cs i ≡ some d
    → n ≤ d.current_id
Ascends-get_elem? n [] i d h e = cc
Ascends-get_elem? n (c ∷ cs) zero d h e =
    subst (λ (x : FieldCursor). n ≤ x.current_id) (some_inj e) h.0
Ascends-get_elem? n (c ∷ cs) (suc i) d h e = Ascends-get_elem? n cs i d h.1 e

needed-pos : (conj_id : ℕ) → 0 < needed conj_id
unfolding needed
needed-pos conj_id = ground arith

-- The step of the scan, from what its first cursor, its k-th and its moves are.
module _ (fuel : ℕ) (cs : List FieldCursor) (c : FieldCursor) (live : List FieldCursor)
    (result : List ℤ) (split : live_cursors cs ≡ c ∷ live) where
  abbrev wanted : ℕ
  wanted = needed (get_conjunction_id c.current_id)

  pub scan_short : length live + 1 < wanted → scan (suc fuel) cs result ≡ some result
  unfolding scan
  scan_short h = rw (split, scan, lt→ltb (suc (length live)) wanted (omega arith))

  pub scan_step :
      wanted ≤ length live + 1
      → (d : FieldCursor) (cs' : List FieldCursor) (result' : List ℤ)
      → get_elem? (c ∷ live) (wanted - 1) ≡ some d
      → advance wanted c.current_id d.current_id (c ∷ live) result ≡ some (cs', result')
      → scan (suc fuel) cs result ≡ scan fuel cs' result'
  unfolding scan
  scan_step h d cs' result' e f =
      rw (split, scan, le→ltb_false (suc (length live)) wanted (omega arith), e, f)

-- Without a cursor left the scan ends.
pub scan_done :
    (fuel : ℕ) (cs : List FieldCursor) (result : List ℤ)
    → live_cursors cs ≡ []
    → scan (suc fuel) cs result ≡ some result
unfolding scan
scan_done fuel cs result e = rw (e, scan)

-- One full round where enough cursors are live.
pub scan-Round :
    (fuel : ℕ) (cs : List FieldCursor) (c : FieldCursor) (live : List FieldCursor) (result : List ℤ)
    → live_cursors cs ≡ c ∷ live
    → Round cs (c ∷ live)
    → needed (get_conjunction_id c.current_id) ≤ length live + 1
    → (cs' : List FieldCursor) × (scan (suc fuel) cs result
        ≡ scan fuel cs' (reported c.current_id result))
      × Moved (c ∷ live) cs'
      × (total_left cs' < total_left cs)
scan-Round fuel cs c live result split r h =
    let k = needed (get_conjunction_id c.current_id) - 1 in
    let pos = needed-pos (get_conjunction_id c.current_id) in
    let d = get_or (c ∷ live) k c in
    let e : get_elem? (c ∷ live) k ≡ some d = get_elem?-eq-get_or (c ∷ live) k c (omega arith) in
    let same : suc k ≡ needed (get_conjunction_id c.current_id) = omega arith in
    let (cs', f, m, lt) =
      advance_lem k d.current_id c live result r.ready (omega arith)
        (Ascends-get_elem? c.current_id (c ∷ live) k d (omega arith, r.ascends.0) e)
        (All-get_elem? IsLive (c ∷ live) k d r.alive e) in
    (
      cs',
      scan_step fuel cs c live result split h d cs' (reported c.current_id result) e (
          subst
            (λ n.
              advance n c.current_id d.current_id (c ∷ live) result
              ≡ some (cs', reported c.current_id result))
            same f),
      m,
      omega (arith, lt, r.fewer),
    )
