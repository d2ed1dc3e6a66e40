-- ===== src/BooleanIndexer/Field/Least.antt =====
-- The loop of FieldCursor::Skip and SkipTo, scanner_cursor.cc, for any move of its cursors.
use ltio.Common.{
  ℕ, zero, suc, ◌+◌, ◌≤◌, ◌<◌, ◌≡◌, refl, sym, ap, ◌∙◌, subst, ltb, List, [], ◌∷◌, map, Option,
  some, get_elem?, arith, ltb→lt, ltb_false→le, Bool-cases, some_inj, ◌⊎◌, inl, inr, if◌then◌else◌,
}
use mathlib.Core.Option
use ltio.BooleanIndexer.Ids.{null_entry}
use ltio.BooleanIndexer.Cursor.{EntriesCursor, get_cur_entry_id}
use ltio.BooleanIndexer.Cursor.Skip.{IsPlaced, get_cur_entry_id-at}
use ltio.BooleanIndexer.Field.{FieldCursor, pick_least, move_loop, refresh, move_field}

-- What holds of every element.
abbrev pub Every : (EntriesCursor → Type 0) → List EntriesCursor → Type 0
Every P cs = (j : ℕ) (c : EntriesCursor) → get_elem? cs j ≡ some c → P c

pub Every-tail :
    (P : EntriesCursor → Type 0) (c : EntriesCursor) (cs : List EntriesCursor)
    → Every P (c ∷ cs)
    → Every P cs
Every-tail P c cs h j d e = h (suc j) d e

pub Every-cons :
    (P : EntriesCursor → Type 0) (c : EntriesCursor) (cs : List EntriesCursor)
    → P c
    → Every P cs
    → Every P (c ∷ cs)
Every-cons P c cs p h zero d e = subst P (some_inj e) p
Every-cons P c cs p h (suc j) d e = h j d e

-- The least entry under the cursors, and where it stands.
pub record Least (cs : List EntriesCursor) (i : ℕ) (cur : Option ℕ) (least : ℕ) (r : Option ℕ × ℕ)
    : Type 0 where
  pub le_start : r.1 ≤ least
  pub le_all : Every (λ c. r.1 ≤ get_cur_entry_id c) cs
  pub found :
      ((r.0 ≡ cur) × (r.1 ≡ least))
      ⊎ ((j : ℕ) × (c : EntriesCursor) × (r.0 ≡ some (i + j))
          × (get_elem? cs j ≡ some c)
          × (r.1 ≡ get_cur_entry_id c))

Least-skip :
    (c : EntriesCursor) (cs : List EntriesCursor) (i : ℕ) (cur : Option ℕ) (least : ℕ)
    (r : Option ℕ × ℕ)
    → least ≤ get_cur_entry_id c
    → Least cs (i + 1) cur least r
    → Least (c ∷ cs) i cur least r
Least-skip c cs i cur least r h l = record {
  le_start = l.le_start;
  le_all = Every-cons (λ c. r.1 ≤ get_cur_entry_id c) c cs (omega (arith, l.le_start)) l.le_all;
  found = elim l.found [
    | inl f ↦ inl f
    | inr (j, d, e, g, m) ↦ inr (suc j, d, e ∙ ap some (omega arith), g, m)
  ];
}

Least-take :
    (c : EntriesCursor) (cs : List EntriesCursor) (i : ℕ) (cur : Option ℕ) (least : ℕ)
    (r : Option ℕ × ℕ)
    → get_cur_entry_id c < least
    → Least cs (i + 1) (some i) (get_cur_entry_id c) r
    → Least (c ∷ cs) i cur least r
Least-take c cs i cur least r h l = record {
  le_start = omega (arith, l.le_start);
  le_all = Every-cons (λ c. r.1 ≤ get_cur_entry_id c) c cs l.le_start l.le_all;
  found = elim l.found [
    | inl f ↦ inr (0, c, f.0 ∙ ap some (omega arith), refl, f.1)
    | inr (j, d, e, g, m) ↦ inr (suc j, d, e ∙ ap some (omega arith), g, m)
  ];
}

pub pick_least-Least :
    (cs : List EntriesCursor) (i : ℕ) (cur : Option ℕ) (least : ℕ)
    → Least cs i cur least (pick_least cs i cur least)
unfolding pick_least
pick_least-Least [] i cur least = record {
  le_start = omega arith;
  le_all = λ j c e. cc;
  found = inl (refl, refl);
}
pick_least-Least (c ∷ cs) i cur least = elim (Bool-cases (ltb (get_cur_entry_id c) least)) [
  | inl lt ↦ rw lt (
      Least-take c cs i cur least _ (ltb→lt (get_cur_entry_id c) least lt)
        (pick_least-Least cs (i + 1) (some i) (get_cur_entry_id c)))
  | inr ge ↦ rw ge (
      Least-skip c cs i cur least _ (ltb_false→le (get_cur_entry_id c) least ge)
        (pick_least-Least cs (i + 1) cur least))
]

-- A moved cursor, where the move always returns.
module _ (move : EntriesCursor → Option EntriesCursor) (go : EntriesCursor → EntriesCursor) where
  move_loop-pick_least :
      (cs : List EntriesCursor) (i : ℕ) (cur : Option ℕ) (min_id : ℕ)
      → Every (λ c. move c ≡ some (go c)) cs
      → move_loop move cs i cur min_id ≡ some (map go cs, (pick_least (map go cs) i cur min_id).0)
  unfolding move_loop pick_least
  move_loop-pick_least [] i cur min_id h = refl
  move_loop-pick_least (c ∷ cs) i cur min_id h = rw (
    h 0 c refl,
    move_loop,
    move_loop-pick_least cs (i + 1) (if ltb (get_cur_entry_id (go c)) min_id then some i else cur)
        (if ltb (get_cur_entry_id (go c)) min_id then get_cur_entry_id (go c) else min_id)
        (Every-tail (λ c. move c ≡ some (go c)) c cs h),
  )

pub get_elem?-map :
    (go : EntriesCursor → EntriesCursor) (cs : List EntriesCursor) (j : ℕ) (d : EntriesCursor)
    → get_elem? (map go cs) j ≡ some d
    → (c : EntriesCursor) × (get_elem? cs j ≡ some c) × (d ≡ go c)
get_elem?-map go [] j d e = cc
get_elem?-map go (c ∷ cs) zero d e = (c, refl, sym (some_inj e))
get_elem?-map go (c ∷ cs) (suc j) d e = get_elem?-map go cs j d e

pub get_elem?-map-some :
    (go : EntriesCursor → EntriesCursor) (cs : List EntriesCursor) (j : ℕ) (c : EntriesCursor)
    → get_elem? cs j ≡ some c
    → get_elem? (map go cs) j ≡ some (go c)
get_elem?-map-some go [] j c e = cc
get_elem?-map-some go (x ∷ cs) zero c e = ap (λ o. Option.map go o) e
get_elem?-map-some go (x ∷ cs) (suc j) c e = get_elem?-map-some go cs j c e

-- A field cursor in use: its lists are sorted, and it stands at the cursor with the least entry.
pub record IsReady (fc : FieldCursor) : Type 0 where
  pub placed : Every IsPlaced fc.cursors
  pub least : Every (λ c. fc.current_id ≤ get_cur_entry_id c) fc.cursors
  pub stands :
      (j : ℕ) × (c : EntriesCursor) × (fc.current ≡ some j)
      × (get_elem? fc.cursors j ≡ some c)
      × (fc.current_id ≡ get_cur_entry_id c)

-- Where a move of the whole field leaves it.
module _ (move : EntriesCursor → Option EntriesCursor) (go : EntriesCursor → EntriesCursor)
    (fc : FieldCursor) (ready : IsReady fc) (moves : Every (λ c. move c ≡ some (go c)) fc.cursors)
    (placed : Every (λ c. IsPlaced (go c)) fc.cursors) where
  IsPlaced-moved : Every IsPlaced (map go fc.cursors)
  IsPlaced-moved j d e =
      let (c, f, g) = get_elem?-map go fc.cursors j d e in subst IsPlaced (sym g) (placed j c f)

  -- The entry that the least pass finds is the least under the moved cursors.
  Least-moved :
      (r : Option ℕ × ℕ)
      → Least (map go fc.cursors) 0 fc.current null_entry r
      → (j : ℕ) × (d : EntriesCursor) × (r.0 ≡ some j)
        × (get_elem? (map go fc.cursors) j ≡ some d)
        × Every (λ c. get_cur_entry_id d ≤ get_cur_entry_id c) (map go fc.cursors)
  Least-moved r l = elim l.found [
    | inr (j, d, e, g, m) ↦
        (j, d, e ∙ ap some (omega arith), g, λ k c f. omega (arith, m, l.le_all k c f))
    | inl (e, m) ↦
        let (j, c, f, g, h) = ready.stands in
        let d = go c in
        (
          j,
          d,
          e ∙ f,
          get_elem?-map-some go fc.cursors j c g,
          λ k x q.
              omega (arith, m, l.le_all k x q, cur-le j d (get_elem?-map-some go fc.cursors j c g)),
        )
  ]
    where
      cur-le :
          (j : ℕ) (d : EntriesCursor)
          → get_elem? (map go fc.cursors) j ≡ some d
          → get_cur_entry_id d ≤ null_entry
      cur-le j d e = rw (get_cur_entry_id-at d) ((IsPlaced-moved j d e).words d.index)

  pub move_field-IsReady :
      (fc' : FieldCursor) × (move_field move fc ≡ some fc')
      × (fc'.cursors ≡ map go fc.cursors)
      × IsReady fc'
  unfolding move_field refresh
  move_field-IsReady =
      let (j, d, e, g, m) =
        Least-moved _ (pick_least-Least (map go fc.cursors) 0 fc.current null_entry) in
      (
        record { current_id = get_cur_entry_id d; current = some j; cursors = map go fc.cursors },
        rw (
          move_loop-pick_least move go fc.cursors 0 fc.current null_entry moves,
          move_field,
          e,
          refresh,
          g,
        ),
        refl,
        record { placed = IsPlaced-moved; least = m; stands = (j, d, refl, g, refl) },
      )
