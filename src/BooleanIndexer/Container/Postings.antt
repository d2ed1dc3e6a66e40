-- ===== src/BooleanIndexer/Container/Postings.antt =====
-- CommonContainer::IndexingToken, common_container.cc: the posting lists before and after.
use ltio.Common.{
  ℕ, ◌≡◌, refl, sym, ap, ◌∙◌, subst, true, false, not, ◌||◌, List, [], ◌∷◌, ◌++◌, none, some, arith,
  Bool-cases, ◌==◌, inl, inr, if◌then◌else◌, ◌↔◌,
}
use mathlib.Core.List.{append-nil, append_assoc}
use ltio.Common.Text.{Str, str_eq, str_eq_iff}
use ltio.BooleanIndexer.Parser.{Token}
use ltio.BooleanIndexer.Container.{
  Attr, attr_eq, PostingList, FieldMeta, CommonContainer, find_entries, push_entry, push_entries,
  indexing_token,
}

pub attr_eq_iff : (a b : Attr) → (attr_eq a b ≡ true) ↔ (a ≡ b)
unfolding attr_eq
attr_eq_iff a b = ground (arith, str_eq_iff a.field b.field)

-- The entries under a key; none where the key is not there.
abbrev pub postings : Attr → PostingList → List ℕ
postings a m = elim (find_entries a m) [ none ↦ [] | some es ↦ es ]

postings-push_entry :
    (a b : Attr) (eid : ℕ) (m : PostingList)
    → postings a (push_entry b eid m) ≡ postings a m ++ (if attr_eq b a then eid ∷ [] else [])
unfolding find_entries push_entry
postings-push_entry a b eid [] = ground arith
postings-push_entry a b eid ((c, es) ∷ m) = ground (
  arith,
  attr_eq_iff c b,
  attr_eq_iff c a,
  attr_eq_iff b a,
  append-nil es,
  append-nil (postings a m),
  postings-push_entry a b eid m,
)

abbrev pub attr : Str → ℕ → Attr
attr name v = record { field = name; value = v }

attr_eq_same : (name : Str) (v w : ℕ) → attr_eq (attr name w) (attr name v) ≡ (w == v)
unfolding attr_eq
attr_eq_same name v w = rw ((str_eq_iff name name).1 refl)

attr_eq_other :
    (name other : Str) (v w : ℕ)
    → str_eq name other ≡ false
    → attr_eq (attr name w) (attr other v) ≡ false
unfolding attr_eq
attr_eq_other name other v w e = rw e

-- The entry, once for each time that the value occurs among those of a token.
abbrev pub repeats : ℕ → ℕ → List ℕ → List ℕ
repeats eid v [] = []
repeats eid v (w ∷ ws) = (if w == v then eid ∷ [] else []) ++ repeats eid v ws

postings-push_entries :
    (name : Str) (v eid : ℕ) (vs : List ℕ) (m : PostingList)
    → postings (attr name v) (push_entries name eid vs m)
      ≡ postings (attr name v) m ++ repeats eid v vs
unfolding push_entries
postings-push_entries name v eid [] m = sym (append-nil (postings (attr name v) m))
postings-push_entries name v eid (w ∷ vs) m =
    postings-push_entries name v eid vs (push_entry (attr name w) eid m)
    ∙ ap (λ es. es ++ repeats eid v vs)
        (postings-push_entry (attr name v) (attr name w) eid m
          ∙ ap (λ b. postings (attr name v) m ++ (if b then eid ∷ [] else []))
              (attr_eq_same name v w))
    ∙ append_assoc (postings (attr name v) m) (if w == v then eid ∷ [] else []) (repeats eid v vs)

postings-push_entries_ne :
    (name other : Str) (v eid : ℕ) (vs : List ℕ) (m : PostingList)
    → str_eq name other ≡ false
    → postings (attr other v) (push_entries name eid vs m) ≡ postings (attr other v) m
unfolding push_entries
postings-push_entries_ne name other v eid [] m e = refl
postings-push_entries_ne name other v eid (w ∷ vs) m e =
    postings-push_entries_ne name other v eid vs (push_entry (attr name w) eid m) e
    ∙ postings-push_entry (attr other v) (attr name w) eid m
    ∙ ap (λ b. postings (attr other v) m ++ (if b then eid ∷ [] else []))
        (attr_eq_other name other v w e)
    ∙ append-nil (postings (attr other v) m)

-- IndexingToken takes a token exactly where it has not failed. It then appends the entry to the
-- posting list of each value of the field, as often as the value occurs in the token, and leaves all
-- other lists alone; a failed token changes nothing.
pub indexing_token-postings :
    (meta : FieldMeta) (eid : ℕ) (token : Token) (c : CommonContainer) (a : Attr)
    → ((indexing_token meta eid token c).0 ≡ not token.fail)
      × (postings a (indexing_token meta eid token c).1.values ≡ (
          if token.fail || not (str_eq meta.name a.field)
          then postings a c.values
          else postings a c.values ++ repeats eid a.value token.values))
unfolding indexing_token
indexing_token-postings meta eid token c a = elim (Bool-cases token.fail) [
  | inl bad ↦ rw bad (refl, refl)
  | inr good ↦ elim (Bool-cases (str_eq meta.name a.field)) [
    | inl same ↦
        rw (good, same)
          (
            refl,
            subst
                (λ n.
                  postings a (push_entries n eid token.values c.values)
                  ≡ postings a c.values ++ repeats eid a.value token.values)
                (sym ((str_eq_iff meta.name a.field).0 same))
                (postings-push_entries a.field a.value eid token.values c.values),
          )
    | inr other ↦
        rw (good, other)
          (refl, postings-push_entries_ne meta.name a.field a.value eid token.values c.values other)
  ]
]
