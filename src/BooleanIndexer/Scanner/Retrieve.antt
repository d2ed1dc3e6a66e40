-- ===== src/BooleanIndexer/Scanner/Retrieve.antt =====
-- IndexScanner::Retrieve, index_scanner.cc, on sorted lists and known fields.
use ltio.Common.{ℕ, ◌<◌, ◌≡◌, List, [], ◌∷◌, some, All, Bool-cases, Option-cases, inl, inr}
use ltio.Common.Text.{Str}
use ltio.Common.Int.{ℤ}
use ltio.BooleanIndexer.Field.{FieldCursor, empty_field_cursor}
use ltio.BooleanIndexer.Field.Start.{IsIndexed}
use ltio.BooleanIndexer.Document.{AttrValues}
use ltio.BooleanIndexer.Parser.{ExprParser, parse_query_assign}
use ltio.BooleanIndexer.Container.{FieldMeta, CommonContainer, retrieve_entries}
use ltio.BooleanIndexer.Container.Compile.{
  AllLists, find_entries-AllLists, Found, retrieve_values-Found,
}
use ltio.BooleanIndexer.Builder.{BooleanIndexer, get_meta, get_container}
use ltio.BooleanIndexer.Scanner.{add_lists, init_cursor, init_cursors, retrieve}
use ltio.BooleanIndexer.Scanner.Steps.{HoldsEntries}
use ltio.BooleanIndexer.Scanner.Rounds.{AllReady, total_left}
use ltio.BooleanIndexer.Scanner.Start.{
  HoldsList, Serves, Good, add_lists-cursors, push_cursor-Good, push_wildcard-Good,
}
use ltio.BooleanIndexer.Scanner.Sound.{Reported, scan_returns}

-- The index knows the field of an assignment, the lists of its container are sorted, and `P` holds of
-- the entries under every value that the assignment parses to.
pub record Answers (hasher : Str → ℕ) (ix : BooleanIndexer) (P : ℕ → Type 0) (q : AttrValues)
    : Type 0 where
  pub meta : FieldMeta
  pub known : get_meta q.name ix ≡ some meta
  pub container : CommonContainer
  pub contained : get_container q.name ix ≡ some container
  pub indexed : AllLists IsIndexed container.values
  pub holds :
      (p : ExprParser)
      → meta.parser ≡ some p
      → (es : List ℕ)
      → Found meta.name (parse_query_assign hasher p q.values).values container.values es
      → HoldsList P es

module _ (hasher : Str → ℕ) (ix : BooleanIndexer) (P : ℕ → Type 0) where
  Found-Serves :
      (q : AttrValues) (a : Answers hasher ix P q) (p : ExprParser)
      → a.meta.parser ≡ some p
      → (ls : List (List ℕ))
      → All (Found a.meta.name (parse_query_assign hasher p q.values).values a.container.values) ls
      → All (Serves P) ls
  Found-Serves q a p e [] h = tt
  Found-Serves q a p e (es ∷ ls) h =
      let (k, v, f, g) = h.0 in
      (
        (
          find_entries-AllLists IsIndexed (record { field = a.meta.name; value = v })
              a.container.values es a.indexed g,
          a.holds p e es h.0,
        ),
        Found-Serves q a p e ls h.1,
      )

  init_cursor-Good :
      (q : AttrValues) (fcs : List FieldCursor)
      → Answers hasher ix P q
      → All (Good P) fcs
      → (fcs' : List FieldCursor) × (init_cursor hasher ix q fcs ≡ some fcs') × All (Good P) fcs'
  unfolding init_cursor retrieve_entries
  init_cursor-Good q fcs a g = elim (Option-cases a.meta.parser) [
    | inl n ↦ (fcs, rw (a.known, n, init_cursor), g)
    | inr (p, e) ↦ elim (Bool-cases (parse_query_assign hasher p q.values).fail) [
      | inl bad ↦ (fcs, rw (a.known, e, init_cursor, a.contained, bad), g)
      | inr good ↦
          let ls = retrieve_entries a.meta (parse_query_assign hasher p q.values) a.container in
          let (fcs', f, h) =
            push_cursor-Good P (add_lists ls empty_field_cursor) ls fcs
              (add_lists-cursors ls empty_field_cursor)
              (Found-Serves q a p e ls (retrieve_values-Found a.meta.name _ a.container.values))
              g in
          (fcs', rw (a.known, e, init_cursor, a.contained, good, f), h)
    ]
  ]

  init_cursors-Good :
      (qs : List AttrValues) (fcs : List FieldCursor)
      → All (Answers hasher ix P) qs
      → Serves P ix.wildcard_list
      → All (Good P) fcs
      → (fcs' : List FieldCursor) × (init_cursors hasher ix qs fcs ≡ some fcs') × All (Good P) fcs'
  unfolding init_cursors
  init_cursors-Good [] fcs a w g = push_wildcard-Good P ix fcs w g
  init_cursors-Good (q ∷ qs) fcs a w g =
      let (fcs', e, g') = init_cursor-Good q fcs a.0 g in
      let (fcs'', f, h) = init_cursors-Good qs fcs' a.1 w g' in (fcs'', rw (e, init_cursors) f, h)

  Good-AllReady : (fcs : List FieldCursor) → All (Good P) fcs → AllReady fcs
  Good-AllReady [] g = tt
  Good-AllReady (c ∷ fcs) g = (g.0.0, Good-AllReady fcs g.1)

  Good-HoldsEntries : (fcs : List FieldCursor) → All (Good P) fcs → All (HoldsEntries P) fcs
  Good-HoldsEntries [] g = tt
  Good-HoldsEntries (c ∷ fcs) g = (g.0.1, Good-HoldsEntries fcs g.1)

-- On an index whose lists are sorted, a query for known fields is answered: init_cursors returns
-- cursors, and with more fuel than they have entries Retrieve returns. Every document that it returns
-- belongs to an including entry, of the wildcard list or of a list under a value of the query:
-- whatever holds of all those entries holds of it.
pub retrieve_returns :
    (hasher : Str → ℕ) (ix : BooleanIndexer) (P : ℕ → Type 0) (queries : List AttrValues)
    → All (Answers hasher ix P) queries
    → Serves P ix.wildcard_list
    → (cs : List FieldCursor) × (init_cursors hasher ix queries [] ≡ some cs)
      × ((fuel : ℕ)
          → total_left cs < fuel
          → (docs : List ℤ) × (retrieve hasher fuel ix queries ≡ some docs) × All (Reported P) docs)
unfolding retrieve
retrieve_returns hasher ix P queries a w =
    let (cs, e, g) = init_cursors-Good hasher ix P queries [] a w tt in
    (
      cs,
      e,
      λ fuel h.
          let (docs, f, d) =
            scan_returns P fuel cs [] (Good-AllReady hasher ix P cs g)
              (Good-HoldsEntries hasher ix P cs g) h in
          (docs, rw (e, retrieve) f, d),
    )
