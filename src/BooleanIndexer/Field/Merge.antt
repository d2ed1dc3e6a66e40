-- ===== src/BooleanIndexer/Field/Merge.antt =====
-- FieldCursor::Skip and SkipTo, scanner_cursor.cc: the cursors of a field as one list.
use ltio.Common.{
  ℕ, ◌≤◌, ◌<◌, ◌≡◌, sym, ap, ◌∙◌, subst, Bool, false, ltb, List, map, some, length, get_elem?,
  arith, ltb→lt, ltb_false→le, Bool-cases, ◌⊎◌, inl, inr,
}
use mathlib.Core.Bool.{true≢false}
use ltio.BooleanIndexer.Ids.{null_entry}
use ltio.BooleanIndexer.Cursor.{
  EntriesCursor, get_cur_entry_id, linear_skip_to, linear_skip, skip, skip_to,
}
use ltio.BooleanIndexer.Cursor.Seek.{at}
use ltio.BooleanIndexer.Cursor.Skip.{
  IsPlaced, Sought, below, up_to, skip_to-linear_skip_to, skip-linear_skip, linear_skip_to-Sought,
  linear_skip-Sought, Sought-IsPlaced, get_cur_entry_id-at, get_or_beyond,
}
use ltio.BooleanIndexer.Field.Least.{
  Every, get_elem?-map, get_elem?-map-some, IsReady, move_field-IsReady,
}
use ltio.BooleanIndexer.Field.{FieldCursor, field_skip, field_skip_to}

-- Whether an entry is still ahead of a field's cursors.
pub record Ahead (fc : FieldCursor) (e : ℕ) : Type 0 where
  pub list : ℕ
  pub cursor : EntriesCursor
  pub position : ℕ
  pub is_list : get_elem? fc.cursors list ≡ some cursor
  pub not_before : cursor.index ≤ position
  pub not_beyond : position < length cursor.id_list
  pub is_entry : at cursor.id_list position ≡ e

-- The entry that a ready field stands at is the least one ahead, or NULLENTRY where none is.
pub record LeastAhead (fc fc' : FieldCursor) (passed : ℕ → Bool) : Type 0 where
  pub at_most : (e : ℕ) → Ahead fc e → passed e ≡ false → fc'.current_id ≤ e
  pub is_one :
      (fc'.current_id ≡ null_entry) ⊎ (Ahead fc fc'.current_id × (passed fc'.current_id ≡ false))

module _ (passed : ℕ → Bool) (go : EntriesCursor → EntriesCursor) (fc fc' : FieldCursor)
    (seeks : Every (λ c. Sought passed c (go c)) fc.cursors) (placed : Every IsPlaced fc.cursors)
    (all_moved : fc'.cursors ≡ map go fc.cursors) (ready : IsReady fc') where
  at_most_one :
      (j i : ℕ) (c : EntriesCursor)
      → get_elem? fc.cursors j ≡ some c
      → c.index ≤ i
      → i < length c.id_list
      → passed (at c.id_list i) ≡ false
      → fc'.current_id ≤ at c.id_list i
  at_most_one j i c e p q f = elim (Bool-cases (ltb i (go c).index)) [
    | inl lt ↦
        absurd (true≢false (sym ((seeks j c e).seeks.before i p (ltb→lt i (go c).index lt)) ∙ f))
    | inr ge ↦ omega (
      arith,
      ready.least j (go c) (
          subst (λ cs. get_elem? cs j ≡ some (go c)) (sym all_moved)
            (get_elem?-map-some go fc.cursors j c e)),
      get_cur_entry_id-at (go c),
      ap (λ ids. at ids (go c).index) (seeks j c e).same_list,
      (placed j c e).sorted (go c).index i (ltb_false→le i (go c).index ge) q,
    )
  ]

  is_one_of :
      (fc'.current_id ≡ null_entry) ⊎ (Ahead fc fc'.current_id × (passed fc'.current_id ≡ false))
  is_one_of =
      let (j, d, _, g, h) = ready.stands in
      let (c, e, f) =
        get_elem?-map go fc.cursors j d (subst (λ cs. get_elem? cs j ≡ some d) all_moved g) in
      let s = seeks j c e in
      let here : fc'.current_id ≡ at c.id_list (go c).index =
        h
        ∙ ap get_cur_entry_id f
        ∙ get_cur_entry_id-at (go c)
        ∙ ap (λ ids. at ids (go c).index) s.same_list in
      elim (Bool-cases (ltb (go c).index (length c.id_list))) [
        | inr ge ↦ inl (
            here
            ∙ get_or_beyond c.id_list (go c).index null_entry
                (ltb_false→le _ (length c.id_list) ge))
        | inl lt ↦ inr (
          record {
            list = j;
            cursor = c;
            position = (go c).index;
            is_list = e;
            not_before = s.seeks.from;
            not_beyond = ltb→lt (go c).index (length c.id_list) lt;
            is_entry = sym here;
          },
          subst (λ t. passed t ≡ false) (sym here)
              (s.seeks.stop (ltb→lt (go c).index (length c.id_list) lt)),
        )
      ]

  least_ahead : LeastAhead fc fc' passed
  least_ahead = record {
    at_most = λ e a f.
        subst (λ t. fc'.current_id ≤ t) a.is_entry
          (at_most_one a.list a.position a.cursor a.is_list a.not_before a.not_beyond
            (subst (λ t. passed t ≡ false) (sym a.is_entry) f));
    is_one = is_one_of;
  }

Every-Sought :
    (passed : ℕ → Bool) (go : EntriesCursor → EntriesCursor) (cs : List EntriesCursor)
    → Every IsPlaced cs
    → ((c : EntriesCursor) → IsPlaced c → Sought passed c (go c))
    → Every (λ c. IsPlaced (go c)) cs
Every-Sought passed go cs p s j c e = Sought-IsPlaced passed c (go c) (p j c e) (s c (p j c e))

-- On sorted lists the field's SkipTo returns, over the same lists, and stands at the least entry
-- ahead that is not below `id`, or at NULLENTRY where there is none.
pub field_skip_to_least :
    (id : ℕ) (fc : FieldCursor)
    → IsReady fc
    → (fc' : FieldCursor) × (field_skip_to id fc ≡ some fc')
      × (fc'.cursors ≡ map (linear_skip_to id) fc.cursors)
      × IsReady fc'
      × LeastAhead fc fc' (below id)
unfolding field_skip_to
field_skip_to_least id fc r =
    let moves =
      Every-Sought (below id) (linear_skip_to id) fc.cursors r.placed (linear_skip_to-Sought id) in
    let (fc', e, f, r') =
      move_field-IsReady (skip_to id) (linear_skip_to id) fc r
        (λ j c g. skip_to-linear_skip_to id c (r.placed j c g)) moves in
    (
      fc',
      e,
      f,
      r',
      least_ahead (below id) (linear_skip_to id) fc fc'
          (λ j c g. linear_skip_to-Sought id c (r.placed j c g)) r.placed f r',
    )

-- The same of Skip, at the least entry ahead that is above `id`.
pub field_skip_least :
    (id : ℕ) (fc : FieldCursor)
    → IsReady fc
    → (fc' : FieldCursor) × (field_skip id fc ≡ some fc')
      × (fc'.cursors ≡ map (linear_skip id) fc.cursors)
      × IsReady fc'
      × LeastAhead fc fc' (up_to id)
unfolding field_skip
field_skip_least id fc r =
    let moves =
      Every-Sought (up_to id) (linear_skip id) fc.cursors r.placed (linear_skip-Sought id) in
    let (fc', e, f, r') =
      move_field-IsReady (skip id) (linear_skip id) fc r
        (λ j c g. skip-linear_skip id c (r.placed j c g)) moves in
    (
      fc',
      e,
      f,
      r',
      least_ahead (up_to id) (linear_skip id) fc fc'
          (λ j c g. linear_skip-Sought id c (r.placed j c g)) r.placed f r',
    )
