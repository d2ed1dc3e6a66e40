-- ===== src/Common/OrdMap.antt =====
-- std::map and std::set with std::string keys, as lists in the order of the keys.
use ltio.Common.Text.{Str, str_eq, str_lt, str_eq_iff}
use ltio.Common.Tests.{if◌then◌else◌, Option-cases}
use mathlib.Core.Logic.{inl, inr}
use mathlib.Core.Path.{◌≡◌}
use mathlib.Core.Bool.{false}
use mathlib.Core.List.{List, [], ◌∷◌}
use mathlib.Core.Option.{Option, none, some}
use native.Mathlib.Omega.{arith}

module _ {ℓ} {V : Type ℓ} where
  unfoldable pub find : Str → List (Str × V) → Option V
  find k [] = none
  find k ((j, v) ∷ m) = if str_eq j k then some v else find k m

  -- A new key goes before the first greater one.
  unfoldable pub insert_new : Str → V → List (Str × V) → List (Str × V)
  insert_new k v [] = (k, v) ∷ []
  insert_new k v ((j, w) ∷ m) =
      let rest = insert_new k v m in if str_lt k j then (k, v) ∷ (j, w) ∷ m else (j, w) ∷ rest

  -- std::map::insert: a key that is there keeps its value.
  unfoldable pub insert : Str → V → List (Str × V) → List (Str × V)
  unfolding insert_new
  insert k v m = elim (find k m) [ some _ ↦ m | none ↦ insert_new k v m ]

  find-insert_new_self :
      (k : Str) (v : V) (m : List (Str × V)) → find k m ≡ none → find k (insert_new k v m) ≡ some v
  unfolding find insert_new
  find-insert_new_self k v [] h = ground (arith, str_eq_iff k k)
  find-insert_new_self k v ((j, w) ∷ m) h =
      ground (arith, str_eq_iff k k, find-insert_new_self k v m)

  find-insert_new_ne :
      (k i : Str) (v : V) (m : List (Str × V))
      → str_eq k i ≡ false
      → find i (insert_new k v m) ≡ find i m
  unfolding find insert_new
  find-insert_new_ne k i v [] h = ground arith
  find-insert_new_ne k i v ((j, w) ∷ m) h = ground (arith, find-insert_new_ne k i v m h)

  pub find-insert_self :
      (k : Str) (v : V) (m : List (Str × V)) → find k m ≡ none → find k (insert k v m) ≡ some v
  unfolding insert
  find-insert_self k v m h = rw (h, insert) (find-insert_new_self k v m h)

  pub insert_present :
      (k : Str) (v w : V) (m : List (Str × V)) → find k m ≡ some w → insert k v m ≡ m
  unfolding insert
  insert_present k v w m h = rw (h, insert)

  pub insert_absent :
      (k : Str) (v : V) (m : List (Str × V)) → find k m ≡ none → insert k v m ≡ insert_new k v m
  unfolding insert
  insert_absent k v m h = rw (h, insert)

  pub find-insert_ne :
      (k i : Str) (v : V) (m : List (Str × V))
      → str_eq k i ≡ false
      → find i (insert k v m) ≡ find i m
  unfolding insert
  find-insert_ne k i v m h = elim (Option-cases (find k m)) [
    | inl e ↦ rw (e, insert) (find-insert_new_ne k i v m h)
    | inr (w, e) ↦ rw (e, insert)
  ]

-- std::set::insert.
unfoldable pub set_insert : Str → List Str → List Str
set_insert v [] = v ∷ []
set_insert v (w ∷ s) =
    let rest = set_insert v s in
    if str_eq w v then w ∷ s else if str_lt v w then v ∷ w ∷ s else w ∷ rest

-- A set from an initializer list.
unfoldable pub set_of : List Str → List Str → List Str
set_of [] s = s
set_of (v ∷ vs) s = set_of vs (set_insert v s)

module _ {ℓ} {V : Type ℓ} where
  -- Writing through a reference to the value of a key; a key that is not there is not added.
  unfoldable pub assign : Str → V → List (Str × V) → List (Str × V)
  assign k v [] = []
  assign k v ((j, w) ∷ m) =
      let rest = assign k v m in if str_eq j k then (j, v) ∷ m else (j, w) ∷ rest

  pub find-assign :
      (k i : Str) (v w : V) (m : List (Str × V))
      → find k m ≡ some w
      → find i (assign k v m) ≡ (if str_eq k i then some v else find i m)
  unfolding find assign
  find-assign k i v w [] h = cc
  find-assign k i v w ((j, x) ∷ m) h =
      ground (arith, str_eq_iff j k, str_eq_iff j i, str_eq_iff k i, find-assign k i v w m)

  -- Writing through operator[], which adds a key that is not there.
  unfoldable pub put : Str → V → List (Str × V) → List (Str × V)
  unfolding find insert_new assign
  put k v m = elim (find k m) [ none ↦ insert_new k v m | some w ↦ assign k v m ]
