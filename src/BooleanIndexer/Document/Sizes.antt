-- ===== src/BooleanIndexer/Document/Sizes.antt =====
-- Conjunction::AddExpression and Document::AddConjunction, document.cc: sizes and positions.
use ltio.Common.{
  ℕ, zero, suc, ◌+◌, ◌%◌, ◌≡◌, ◌≢◌, refl, sym, ap, ◌∙◌, subst, true, false, List, [], ◌∷◌, some,
  length, if◌then◌else◌, arith, Option-cases, inl, inr, some_inj, length-append, get_elem?,
  get_elem?-append_left, get_elem?-append_last,
}
use native.Mathlib.Nat.{add-zero, zero-add}
use ltio.Common.Int.{ℤ}
use ltio.Common.Text.{Str}
use ltio.Common.OrdMap.{find, insert_new, insert_absent, insert_present}
use ltio.BooleanIndexer.Ids.{gen_conj_id, get_document_id, get_index_in_doc, get_conjunction_size}
use ltio.BooleanIndexer.Ids.Packing.{FitsDoc, conj_id_roundtrip}
use ltio.BooleanIndexer.Document.{
  BooleanExpr, Conjunction, Document, empty_conjunction, empty_document, add_expression,
  add_expressions, add_conjunction, add_conjunctions, set_conjunction_id,
}

-- How many of the expressions include.
abbrev pub includes : List (Str × BooleanExpr) → ℕ
includes [] = 0
includes ((k, e) ∷ m) = (if e.exclude then 0 else 1) + includes m

abbrev pub WellSized : Conjunction → Type 0
WellSized c = c.size ≡ includes c.assigns

includes-insert_new :
    (k : Str) (e : BooleanExpr) (m : List (Str × BooleanExpr))
    → includes (insert_new k e m) ≡ includes m + (if e.exclude then 0 else 1)
unfolding insert_new
includes-insert_new k e [] = omega arith
includes-insert_new k e ((j, w) ∷ m) = ground (arith, includes-insert_new k e m)

add_expression-WellSized :
    (e : BooleanExpr) (c c' : Conjunction)
    → WellSized c
    → add_expression false e c ≡ some c'
    → WellSized c'
unfolding add_expression
add_expression-WellSized e c c' w h = elim (Option-cases (find e.name c.assigns)) [
  | inl new ↦
      ground (arith, insert_absent e.name e c.assigns, includes-insert_new e.name e c.assigns)
  | inr (x, old) ↦ ground arith
]

add_expressions-from :
    (es : List BooleanExpr) (c c' : Conjunction)
    → WellSized c
    → add_expressions false es c ≡ some c'
    → WellSized c'
unfolding add_expressions
add_expressions-from [] c c' w h = rw (← some_inj h) w
add_expressions-from (e ∷ es) c c' w h = elim (Option-cases (add_expression false e c)) [
  | inl n ↦ ground arith
  | inr (d, f) ↦
      add_expressions-from es d c' (add_expression-WellSized e c d w f)
        (rw (f, add_expressions) at h)
]

-- With the assertion compiled in, a conjunction that is built from expressions counts exactly its
-- inclusions.
pub add_expressions-WellSized :
    (es : List BooleanExpr) (c : Conjunction)
    → add_expressions false es empty_conjunction ≡ some c
    → c.size ≡ includes c.assigns
add_expressions-WellSized es c h = add_expressions-from es empty_conjunction c refl h

-- With NDEBUG a second inclusion of a name is counted though the map does not take it, so that no
-- well-sized conjunction stays so.
pub add_expression_duplicate :
    (e w : BooleanExpr) (c c' : Conjunction)
    → WellSized c
    → find e.name c.assigns ≡ some w
    → e.exclude ≡ false
    → add_expression true e c ≡ some c'
    → (c'.assigns ≡ c.assigns) × (c'.size ≡ suc c.size) × (c'.size ≢ includes c'.assigns)
unfolding add_expression
add_expression_duplicate e w c c' s f x h =
    let r = some_inj (rw (f, add_expression) at h) in
    let a : c'.assigns ≡ c.assigns =
      ap (λ (d : Conjunction). d.assigns) (sym r) ∙ insert_present e.name e w c.assigns f in
    let n : c'.size ≡ suc c.size =
      ap (λ (d : Conjunction). d.size) (sym r)
      ∙ ap (λ b. c.size + (if b then 0 else 1)) x
      ∙ omega arith in
    (a, n, λ p. omega (arith, p ∙ ap includes a))

-- What AddConjunction makes of a conjunction that it gives position `i`.
pub record Numbered (doc_id : ℤ) (i : ℕ) (c c' : Conjunction) : Type 0 where
  pub same_assigns : c'.assigns ≡ c.assigns
  pub same_size : c'.size ≡ c.size
  pub document : get_document_id c'.con_id ≡ doc_id
  pub index : get_index_in_doc c'.con_id ≡ i % 256
  pub byte_size : get_conjunction_size c'.con_id ≡ c.size % 256

numbered :
    (doc_id : ℤ)
    → FitsDoc doc_id
    → (i : ℕ) (c : Conjunction)
    → Numbered doc_id i c (set_conjunction_id (gen_conj_id doc_id (i % 256) (c.size % 256)) c)
unfolding set_conjunction_id
numbered doc_id h i c =
    let ids = conj_id_roundtrip doc_id (i % 256) (c.size % 256) h (omega arith) (omega arith) in
    record {
      same_assigns = refl;
      same_size = refl;
      document = ids.0;
      index = ids.1;
      byte_size = ids.2;
    }

-- The conjunctions that are there stay in front.
add_conjunctions-keeps :
    (cs : List Conjunction) (doc : Document) (i : ℕ) (c : Conjunction)
    → get_elem? doc.conjunctions i ≡ some c
    → get_elem? (add_conjunctions cs doc).conjunctions i ≡ some c
unfolding add_conjunctions
add_conjunctions-keeps [] doc i c e = e
add_conjunctions-keeps (d ∷ cs) doc i c e =
    add_conjunctions-keeps cs (add_conjunction d doc) i c
      (get_elem?-append_left doc.conjunctions _ i c e)

add_conjunctions-from :
    (cs : List Conjunction) (doc : Document) (i : ℕ) (c : Conjunction)
    → FitsDoc doc.doc_id
    → get_elem? cs i ≡ some c
    → (c' : Conjunction) × (get_elem?
          (add_conjunctions cs doc).conjunctions
          (length doc.conjunctions + i)
        ≡ some c')
      × Numbered doc.doc_id (length doc.conjunctions + i) c c'
unfolding add_conjunctions
add_conjunctions-from [] doc i c h e = cc
add_conjunctions-from (d ∷ cs) doc zero c h e =
    rw (add-zero, ← some_inj e)
      (
        set_conjunction_id _ d,
        add_conjunctions-keeps cs (add_conjunction d doc) (length doc.conjunctions) _
            (get_elem?-append_last doc.conjunctions _),
        numbered doc.doc_id h (length doc.conjunctions) d,
      )
add_conjunctions-from (d ∷ cs) doc (suc i) c h e =
    subst
      (λ n.
        (c' : Conjunction) × (get_elem? (add_conjunctions cs (add_conjunction d doc)).conjunctions n
          ≡ some c')
        × Numbered doc.doc_id n c c')
      (omega (arith, length-append doc.conjunctions (last ∷ [])))
      (add_conjunctions-from cs (add_conjunction d doc) i c h e)
  where
    last : Conjunction
    last =
        set_conjunction_id (gen_conj_id doc.doc_id (length doc.conjunctions % 256) (d.size % 256)) d

-- A document numbers its conjunctions in the order in which they are added: the identifier of the
-- conjunction at position `i` gives back the document, the position and the size, the last two
-- modulo 256, and nothing else of the conjunction changes.
pub add_conjunctions-Numbered :
    (cs : List Conjunction) (doc_id : ℤ) (i : ℕ) (c : Conjunction)
    → FitsDoc doc_id
    → get_elem? cs i ≡ some c
    → (c' : Conjunction) × (get_elem? (add_conjunctions cs (empty_document doc_id)).conjunctions i
        ≡ some c')
      × Numbered doc_id i c c'
add_conjunctions-Numbered cs doc_id i c h e =
    rw zero-add at (add_conjunctions-from cs (empty_document doc_id) i c h e)
