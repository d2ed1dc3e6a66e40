-- ===== src/BooleanIndexer/Scanner/Start.antt =====
-- IndexScanner::init_cursors, index_scanner.cc, on sorted lists.
use ltio.Common.{
  ℕ, ◌<◌, ◌≡◌, refl, sym, ◌∙◌, subst, List, [], ◌∷◌, ◌++◌, map, some, length, arith, All,
  All-append, inl, inr, All-get_elem?, List-cases,
}
use mathlib.Core.List.{append-nil, append_assoc}
use ltio.BooleanIndexer.Cursor.{EntriesCursor, entries_cursor}
use ltio.BooleanIndexer.Cursor.Seek.{at}
use ltio.BooleanIndexer.Cursor.Skip.{IsPlaced}
use ltio.BooleanIndexer.Field.{FieldCursor, empty_field_cursor, add_entries, initialize}
use ltio.BooleanIndexer.Field.Least.{Every, IsReady}
use ltio.BooleanIndexer.Field.Start.{IsIndexed, entries_cursor-IsPlaced, initialize-IsReady}
use ltio.BooleanIndexer.Builder.{BooleanIndexer, gen_wildcard_cursor}
use ltio.BooleanIndexer.Scanner.{add_lists, push_cursor, push_wildcard}
use ltio.BooleanIndexer.Scanner.Steps.{HoldsEntries}

-- A property of the entries of one list.
abbrev pub HoldsList : (ℕ → Type 0) → List ℕ → Type 0
HoldsList P ids = (i : ℕ) → i < length ids → P (at ids i)

-- What the start of a scan needs of the lists that it takes.
abbrev pub Serves : (ℕ → Type 0) → List ℕ → Type 0
Serves P ids = IsIndexed ids × HoldsList P ids

-- The cursors that may stand in the vector of the scan.
abbrev pub Good : (ℕ → Type 0) → FieldCursor → Type 0
Good P fc = IsReady fc × HoldsEntries P fc

abbrev OnList : (List ℕ → Type 0) → EntriesCursor → Type 0
OnList Q c = Q c.id_list

pub add_lists-cursors :
    (ls : List (List ℕ)) (fc : FieldCursor)
    → (add_lists ls fc).cursors ≡ fc.cursors ++ map entries_cursor ls
unfolding add_lists add_entries
add_lists-cursors [] fc = sym (append-nil fc.cursors)
add_lists-cursors (es ∷ ls) fc =
    add_lists-cursors ls (add_entries (some es) fc)
    ∙ append_assoc fc.cursors (entries_cursor es ∷ []) (map entries_cursor ls)

IsPlaced-lists :
    (P : ℕ → Type 0) (ls : List (List ℕ)) → All (Serves P) ls → All IsPlaced (map entries_cursor ls)
IsPlaced-lists P [] h = tt
IsPlaced-lists P (es ∷ ls) h = (entries_cursor-IsPlaced es h.0.0, IsPlaced-lists P ls h.1)

held_lists :
    (P : ℕ → Type 0) (ls : List (List ℕ))
    → All (Serves P) ls
    → All (HoldsList P) (map (λ (c : EntriesCursor). c.id_list) (map entries_cursor ls))
unfolding entries_cursor
held_lists P [] h = tt
held_lists P (es ∷ ls) h = (h.0.1, held_lists P ls h.1)

-- A field cursor over lists that serve, once it is initialized.
initialize_lists :
    (P : ℕ → Type 0) (fc : FieldCursor) (ls : List (List ℕ))
    → fc.cursors ≡ map entries_cursor ls
    → All (Serves P) ls
    → 0 < length fc.cursors
    → (fc' : FieldCursor) × (initialize fc ≡ some fc') × Good P fc'
initialize_lists P fc ls e h n =
    let placed : Every IsPlaced fc.cursors =
      subst (Every IsPlaced) (sym e)
        (λ j c f. All-get_elem? IsPlaced (map entries_cursor ls) j c (IsPlaced-lists P ls h) f) in
    let (fc', f, r, g) = initialize-IsReady fc placed n in
    (
      fc',
      f,
      (
        r,
        subst (λ cs. All (HoldsList P) (map (λ (c : EntriesCursor). c.id_list) cs)) (sym (g ∙ e))
            (held_lists P ls h),
      ),
    )

pub push_cursor-Good :
    (P : ℕ → Type 0) (fc : FieldCursor) (ls : List (List ℕ)) (fcs : List FieldCursor)
    → fc.cursors ≡ map entries_cursor ls
    → All (Serves P) ls
    → All (Good P) fcs
    → (fcs' : List FieldCursor) × (push_cursor fc fcs ≡ some fcs') × All (Good P) fcs'
unfolding push_cursor
push_cursor-Good P fc ls fcs e h g = elim (List-cases fc.cursors) [
  | inl n ↦ (fcs, rw (n, push_cursor), g)
  | inr (c, cs, n) ↦
      let (fc', f, k) =
        initialize_lists P fc ls e h (subst (λ xs. 0 < length xs) (sym n) (omega arith)) in
      (fcs ++ fc' ∷ [], rw (n, push_cursor, f), All-append (Good P) fcs (fc' ∷ []) g (k, tt))
]

pub push_wildcard-Good :
    (P : ℕ → Type 0) (ix : BooleanIndexer) (fcs : List FieldCursor)
    → Serves P ix.wildcard_list
    → All (Good P) fcs
    → (fcs' : List FieldCursor) × (push_wildcard ix fcs ≡ some fcs') × All (Good P) fcs'
unfolding push_wildcard gen_wildcard_cursor add_entries
push_wildcard-Good P ix fcs h g = elim (List-cases ix.wildcard_list) [
  | inl n ↦ (fcs, rw (n, push_wildcard), g)
  | inr (e, es, n) ↦
      let (fc', f, k) =
        initialize_lists P (record empty_field_cursor { cursors = entries_cursor (e ∷ es) ∷ [] })
          ((e ∷ es) ∷ []) refl (subst (Serves P) n h, tt) (omega arith) in
      (fcs ++ fc' ∷ [], rw (n, push_wildcard, f), All-append (Good P) fcs (fc' ∷ []) g (k, tt))
]
