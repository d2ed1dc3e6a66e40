-- ===== src/BooleanIndexer/Scanner/Steps.antt =====
-- FieldCursor::Skip and SkipTo as the scan of index_scanner.cc uses them.
use ltio.Common.{
  ℕ, zero, suc, ◌-◌, ◌≤◌, ◌<◌, ◌≡◌, refl, sym, ap, ◌∙◌, subst, Bool, true, List, [], ◌∷◌, map, some,
  length, get_elem?, arith, All, sum_by, ltb→lt, ltb_false→le, lt→ltb, Bool-cases, some_inj, ltb,
  inl, inr, All-get_elem?,
}
use mathlib.Core.Bool.{true≢false}
use ltio.BooleanIndexer.Ids.{null_entry}
use ltio.BooleanIndexer.Cursor.{EntriesCursor, linear_skip_to, linear_skip}
use ltio.BooleanIndexer.Cursor.Seek.{at}
use ltio.BooleanIndexer.Cursor.Skip.{
  IsPlaced, Sought, below, up_to, linear_skip_to-Sought, linear_skip-Sought, get_cur_entry_id-at,
  get_or_beyond,
}
use ltio.BooleanIndexer.Field.{FieldCursor, field_skip, field_skip_to}
use ltio.BooleanIndexer.Field.Least.{Every, Every-tail, IsReady}
use ltio.BooleanIndexer.Field.Merge.{field_skip_to_least, field_skip_least}

-- The entries that a cursor has not gone over.
abbrev pub left : EntriesCursor → ℕ
left c = length c.id_list - c.index

abbrev pub field_left : FieldCursor → ℕ
field_left fc = sum_by left fc.cursors

abbrev pub lists : FieldCursor → List (List ℕ)
lists fc = map (λ (c : EntriesCursor). c.id_list) fc.cursors

module _ (passed : ℕ → Bool) (go : EntriesCursor → EntriesCursor)
    (sought : (c : EntriesCursor) → IsPlaced c → Sought passed c (go c)) where
  left-go : (c : EntriesCursor) → IsPlaced c → left (go c) ≤ left c
  left-go c p = let s = sought c p in omega (arith, s.seeks.from, ap length s.same_list)

  sum-left-go :
      (cs : List EntriesCursor) → Every IsPlaced cs → sum_by left (map go cs) ≤ sum_by left cs
  sum-left-go [] p = omega arith
  sum-left-go (c ∷ cs) p =
      omega (arith, left-go c (p 0 c refl), sum-left-go cs (Every-tail IsPlaced c cs p))

  -- A cursor that stands at an entry that passes moves on.
  left-go_lt :
      (c : EntriesCursor)
      → IsPlaced c
      → c.index < length c.id_list
      → passed (at c.id_list c.index) ≡ true
      → left (go c) < left c
  left-go_lt c p lt e = elim (Bool-cases (ltb c.index (go c).index)) [
    | inl on ↦
        let s = sought c p in
        omega (arith, ltb→lt c.index (go c).index on, s.seeks.upto, ap length s.same_list)
    | inr stuck ↦
        let s = sought c p in
        let same : (go c).index ≡ c.index =
          omega (arith, s.seeks.from, ltb_false→le c.index (go c).index stuck) in
        absurd (
          true≢false
            (sym e ∙ ap (λ i. passed (at c.id_list i)) (sym same) ∙ s.seeks.stop (omega arith)))
  ]

  sum-left-go_lt :
      (cs : List EntriesCursor) (j : ℕ) (c : EntriesCursor)
      → Every IsPlaced cs
      → get_elem? cs j ≡ some c
      → c.index < length c.id_list
      → passed (at c.id_list c.index) ≡ true
      → sum_by left (map go cs) < sum_by left cs
  sum-left-go_lt [] j c p e lt h = cc
  sum-left-go_lt (x ∷ cs) zero c p e lt h =
      let q = some_inj e in
      let here =
        subst (λ y. left (go y) < left y) (sym q)
          (left-go_lt c (subst IsPlaced q (p 0 x refl)) lt h) in
      omega (arith, here, sum-left-go cs (Every-tail IsPlaced x cs p))
  sum-left-go_lt (x ∷ cs) (suc j) c p e lt h =
      omega
        (arith, left-go x (p 0 x refl), sum-left-go_lt cs j c (Every-tail IsPlaced x cs p) e lt h)

  lists-go :
      (cs : List EntriesCursor)
      → Every IsPlaced cs
      → map (λ (c : EntriesCursor). c.id_list) (map go cs)
        ≡ map (λ (c : EntriesCursor). c.id_list) cs
  lists-go [] p = refl
  lists-go (c ∷ cs) p =
      rw ((sought c (p 0 c refl)).same_list, lists-go cs (Every-tail IsPlaced c cs p))

-- One move of a field cursor.
pub record Stepped (fc fc' : FieldCursor) : Type 0 where
  pub ready : IsReady fc'
  pub fewer : field_left fc' ≤ field_left fc
  pub same_lists : lists fc' ≡ lists fc

-- Where a ready field stands before NULLENTRY, it stands at an entry of a list.
standing :
    (fc : FieldCursor)
    → IsReady fc
    → fc.current_id < null_entry
    → (j : ℕ) × (c : EntriesCursor) × (get_elem? fc.cursors j ≡ some c)
      × (c.index < length c.id_list)
      × (at c.id_list c.index ≡ fc.current_id)
standing fc r h =
    let (j, c, _, g, e) = r.stands in
    let e' : fc.current_id ≡ at c.id_list c.index = e ∙ get_cur_entry_id-at c in
    elim (Bool-cases (ltb c.index (length c.id_list))) [
      | inl lt ↦ (j, c, g, ltb→lt c.index (length c.id_list) lt, sym e')
      | inr ge ↦ absurd (
          omega (
            arith,
            h,
            e',
            get_or_beyond c.id_list c.index null_entry (ltb_false→le c.index (length c.id_list) ge),
          ))
    ]

-- SkipTo returns, and goes over an entry that is below `id`.
pub field_skip_to-Stepped :
    (id : ℕ) (fc : FieldCursor)
    → IsReady fc
    → (fc' : FieldCursor) × (field_skip_to id fc ≡ some fc')
      × Stepped fc fc'
      × (fc.current_id < id → id ≤ null_entry → field_left fc' < field_left fc)
field_skip_to-Stepped id fc r =
    let (fc', e, f, r', _) = field_skip_to_least id fc r in
    let go = linear_skip_to id in
    let sought = linear_skip_to-Sought id in
    (
      fc',
      e,
      record {
        ready = r';
        fewer =
            subst (λ cs. sum_by left cs ≤ field_left fc) (sym f)
              (sum-left-go (below id) go sought fc.cursors r.placed);
        same_lists =
            ap (map (λ (c : EntriesCursor). c.id_list)) f
            ∙ lists-go (below id) go sought fc.cursors r.placed;
      },
      λ lt le.
          let (j, c, g, k, h) = standing fc r (omega arith) in
          subst (λ cs. sum_by left cs < field_left fc) (sym f)
            (sum-left-go_lt (below id) go sought fc.cursors j c r.placed g k
              (lt→ltb (at c.id_list c.index) id (omega arith))),
    )

-- Skip returns.
pub field_skip-Stepped :
    (id : ℕ) (fc : FieldCursor)
    → IsReady fc
    → (fc' : FieldCursor) × (field_skip id fc ≡ some fc') × Stepped fc fc'
field_skip-Stepped id fc r =
    let (fc', e, f, r', _) = field_skip_least id fc r in
    let go = linear_skip id in
    let sought = linear_skip-Sought id in
    (
      fc',
      e,
      record {
        ready = r';
        fewer =
            subst (λ cs. sum_by left cs ≤ field_left fc) (sym f)
              (sum-left-go (up_to id) go sought fc.cursors r.placed);
        same_lists =
            ap (map (λ (c : EntriesCursor). c.id_list)) f
            ∙ lists-go (up_to id) go sought fc.cursors r.placed;
      },
    )

-- The words of a ready field.
pub current_id-le-null_entry : (fc : FieldCursor) → IsReady fc → fc.current_id ≤ null_entry
current_id-le-null_entry fc r =
    let (j, c, _, g, e) = r.stands in
    omega (arith, e, get_cur_entry_id-at c, (r.placed j c g).words c.index)

-- A property of all entries of all lists of a field.
abbrev pub HoldsEntries : (ℕ → Type 0) → FieldCursor → Type 0
HoldsEntries P fc = All (λ ids. (i : ℕ) → i < length ids → P (at ids i)) (lists fc)

pub Stepped-HoldsEntries :
    (P : ℕ → Type 0) (fc fc' : FieldCursor)
    → Stepped fc fc'
    → HoldsEntries P fc
    → HoldsEntries P fc'
Stepped-HoldsEntries P fc fc' s h =
    subst (All (λ ids. (i : ℕ) → i < length ids → P (at ids i))) (sym s.same_lists) h

get_elem?-lists :
    (cs : List EntriesCursor) (j : ℕ) (c : EntriesCursor)
    → get_elem? cs j ≡ some c
    → get_elem? (map (λ (c : EntriesCursor). c.id_list) cs) j ≡ some c.id_list
get_elem?-lists [] j c e = cc
get_elem?-lists (x ∷ cs) zero c e = ap some (ap (λ (d : EntriesCursor). d.id_list) (some_inj e))
get_elem?-lists (x ∷ cs) (suc j) c e = get_elem?-lists cs j c e

-- It holds of the entry at which a field stands.
pub standing-holds :
    (P : ℕ → Type 0) (fc : FieldCursor)
    → IsReady fc
    → fc.current_id < null_entry
    → HoldsEntries P fc
    → P fc.current_id
standing-holds P fc r lt h =
    let (j, c, g, k, e) = standing fc r lt in
    subst P e (
      All-get_elem? (λ ids. (i : ℕ) → i < length ids → P (at ids i)) (lists fc) j c.id_list h
        (get_elem?-lists fc.cursors j c g) c.index k)
