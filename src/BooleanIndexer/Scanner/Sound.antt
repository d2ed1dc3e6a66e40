-- ===== src/BooleanIndexer/Scanner/Sound.antt =====
-- The loop of Retrieve, index_scanner.cc: its result.
use ltio.Common.{
  ℕ, zero, suc, ◌+◌, ◌<◌, ◌≡◌, refl, sym, ap, ◌∙◌, true, List, [], ◌∷◌, ◌++◌, Option, some, length,
  arith, All, Bool-cases, ltb, ltb→lt, ltb_false→le, inl, inr, if◌then◌else◌, All-append,
}
use mathlib.Core.List.{append-nil, append_assoc}
use ltio.Common.Int.{ℤ}
use ltio.BooleanIndexer.Ids.{get_conjunction_id, get_doc_id, is_include}
use ltio.BooleanIndexer.Field.{FieldCursor}
use ltio.BooleanIndexer.Scanner.{scan, needed, live_cursors}
use ltio.BooleanIndexer.Scanner.Steps.{HoldsEntries, standing-holds}
use ltio.BooleanIndexer.Scanner.Rounds.{
  total_left, AllReady, Round, live_cursors-Round, live_cursors-All, Moved-AllReady,
  Moved-HoldsEntries,
}
use ltio.BooleanIndexer.Scanner.Total.{reported, scan_short, scan_done, scan-Round}

-- The document of an including entry that has the property.
abbrev pub Reported : (ℕ → Type 0) → ℤ → Type 0
Reported P d = (e : ℕ) × P e × (is_include e ≡ true) × (d ≡ get_doc_id e)

abbrev fresh : ℕ → List ℤ
fresh eid = if is_include eid then get_doc_id eid ∷ [] else []

reported-append : (eid : ℕ) (result : List ℤ) → reported eid result ≡ result ++ fresh eid
reported-append eid result = elim (Bool-cases (is_include eid)) [
  | inl i ↦ rw i
  | inr x ↦ rw x (sym (append-nil result))
]

fresh-Reported : (P : ℕ → Type 0) (eid : ℕ) → P eid → All (Reported P) (fresh eid)
fresh-Reported P eid p = elim (Bool-cases (is_include eid)) [
  | inl i ↦ rw i ((eid, p, i, refl), tt)
  | inr x ↦ rw x tt
]

-- A scan returns, and adds reported documents alone.
abbrev Returns : (ℕ → Type 0) → Option (List ℤ) → List ℤ → Type 0
Returns P scanned result = (new : List ℤ) × (scanned ≡ some (result ++ new)) × All (Reported P) new

Returns_prepend :
    (P : ℕ → Type 0) (s t : Option (List ℤ)) (result : List ℤ) (eid : ℕ)
    → P eid
    → s ≡ t
    → Returns P t (reported eid result)
    → Returns P s result
Returns_prepend P s t result eid p e (new, f, h) = (
  fresh eid ++ new,
  e
      ∙ f
      ∙ ap (λ r. some (r ++ new)) (reported-append eid result)
      ∙ ap some (append_assoc result (fresh eid) new),
  All-append (Reported P) (fresh eid) new (fresh-Reported P eid p) h,
)

-- One round, given the rest of the scan.
scan_from :
    (P : ℕ → Type 0) (fuel : ℕ) (cs live : List FieldCursor) (result : List ℤ)
    → live_cursors cs ≡ live
    → Round cs live
    → All (HoldsEntries P) live
    → ((cs' : List FieldCursor) (result' : List ℤ)
        → AllReady cs'
        → All (HoldsEntries P) cs'
        → total_left cs' < total_left cs
        → Returns P (scan fuel cs' result') result')
    → Returns P (scan (suc fuel) cs result) result
scan_from P fuel cs [] result e r h again =
    ([], scan_done fuel cs result e ∙ ap some (sym (append-nil result)), tt)
scan_from P fuel cs (c ∷ live) result e r h again =
    elim (Bool-cases (ltb (length live + 1) (needed (get_conjunction_id c.current_id)))) [
      | inl short ↦ (
        [],
        scan_short fuel cs c live result e (ltb→lt (length live + 1) _ short)
            ∙ ap some (sym (append-nil result)),
        tt,
      )
      | inr enough ↦
          let (cs', f, m, lt) =
            scan-Round fuel cs c live result e r (ltb_false→le (length live + 1) _ enough) in
          Returns_prepend P (scan (suc fuel) cs result)
            (scan fuel cs' (reported c.current_id result)) result c.current_id
            (standing-holds P c r.ready.0 r.alive.0 h.0) f
            (again cs' (reported c.current_id result) (Moved-AllReady m) (Moved-HoldsEntries P m h)
              lt)
    ]

-- The scan of ready cursors returns once the fuel is above the number of entries that are left, and
-- adds to the result only documents of including entries of the cursors' lists: whatever holds of
-- all entries of the lists holds of the entries that are reported.
pub scan_returns :
    (P : ℕ → Type 0) (fuel : ℕ) (cs : List FieldCursor) (result : List ℤ)
    → AllReady cs
    → All (HoldsEntries P) cs
    → total_left cs < fuel
    → (new : List ℤ) × (scan fuel cs result ≡ some (result ++ new)) × All (Reported P) new
scan_returns P zero cs result r h f = absurd (omega arith)
scan_returns P (suc fuel) cs result r h f =
    scan_from P fuel cs (live_cursors cs) result refl (live_cursors-Round cs r)
      (live_cursors-All (HoldsEntries P) cs h)
      (λ cs' result' r' h' lt. scan_returns P fuel cs' result' r' h' (omega arith))
