-- ===== src/BooleanIndexer/Scanner/Faults.antt =====
-- Retrieve and init_cursors, index_scanner.cc: a field without a meta.
use ltio.Common.{ℕ, ◌≡◌, List, [], ◌∷◌, ◌++◌, none, inl, inr, Option-cases}
use ltio.Common.Text.{Str}
use ltio.BooleanIndexer.Document.{AttrValues}
use ltio.BooleanIndexer.Builder.{BooleanIndexer, get_meta}
use ltio.BooleanIndexer.Field.{FieldCursor}
use ltio.BooleanIndexer.Scanner.{init_cursor, init_cursors, retrieve}

module _ (hasher : Str → ℕ) (ix : BooleanIndexer) where
  init_cursors_unknown :
      (before after : List AttrValues) (q : AttrValues) (fcs : List FieldCursor)
      → get_meta q.name ix ≡ none
      → init_cursors hasher ix (before ++ q ∷ after) fcs ≡ none
  unfolding init_cursors
  init_cursors_unknown [] after q fcs e = rw (e, init_cursors)
  init_cursors_unknown (p ∷ before) after q fcs e =
      elim (Option-cases (init_cursor hasher ix p fcs)) [
        | inl f ↦ rw (f, init_cursors)
        | inr (fcs', f) ↦ rw (f, init_cursors) (init_cursors_unknown before after q fcs' e)
      ]

-- A query that names a field for which the index has no meta reads through a null pointer, wherever
-- the field stands in the query and whatever the fuel: `meta->parser` is read before `meta` is tested.
pub retrieve_unknown_field :
    (hasher : Str → ℕ) (fuel : ℕ) (ix : BooleanIndexer) (before after : List AttrValues)
    (q : AttrValues)
    → get_meta q.name ix ≡ none
    → retrieve hasher fuel ix (before ++ q ∷ after) ≡ none
unfolding retrieve
retrieve_unknown_field hasher fuel ix before after q e =
    rw (init_cursors_unknown hasher ix before after q [] e, retrieve)
