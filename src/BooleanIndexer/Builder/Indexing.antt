-- ===== src/BooleanIndexer/Builder/Indexing.antt =====
-- BeIndexerBuilder::AddDocument, be_indexer_builder.cc: a builder in use.
use ltio.Common.{
  ℕ, ◌≡◌, refl, ap, ◌∙◌, subst, false, List, [], ◌∷◌, Option, none, some, arith, ◌⊎◌, All,
  All-append, Bool-cases, Option-cases, some_inj, inl, inr, ◌==◌,
}
use ltio.Common.Text.{Str, str_eq}
use ltio.Common.OrdMap.{find, assign, find-assign, insert_absent, insert_new}
use ltio.BooleanIndexer.Ids.{gen_entry_id}
use ltio.BooleanIndexer.Ids.Entries.{gen_entry_id-lt-null_entry}
use ltio.BooleanIndexer.Document.{BooleanExpr, Conjunction, Document}
use ltio.BooleanIndexer.Parser.{Token, ExprParser, parse_indexing}
use ltio.BooleanIndexer.Container.{
  Attr, attr_eq, PostingList, FieldMeta, CommonContainer, empty_container, push_entry, push_entries,
  indexing_token,
}
use ltio.BooleanIndexer.Container.Compile.{AllLists, IsWord}
use ltio.BooleanIndexer.Builder.{
  BooleanIndexer, BeIndexerBuilder, Flow, next, returned, builder_of, default_field_key,
  add_wildcard_entry, get_meta, set_meta, container_key, get_container, get_field_meta, index_token,
  index_expr, index_exprs, index_conjunction, index_conjunctions, add_document, empty_builder,
}

abbrev pub HasParser : FieldMeta → Type 0
HasParser m = (p : ExprParser) × (m.parser ≡ some p)

-- A property of every value of a map.
abbrev pub AllValues : {V : Type 0} → (V → Type 0) → List (Str × V) → Type 0
AllValues {V} P = All (λ (e : Str × V). P e.1)

abbrev pub AllWords : CommonContainer → Type 0
AllWords c = AllLists (All IsWord) c.values

-- A builder in use.
pub record IsBuilding (b : BeIndexerBuilder) : Type 0 where
  pub default_container :
      (c : CommonContainer) × (find default_field_key b.indexer.containers ≡ some c)
  pub parsers : AllValues HasParser b.indexer.field_meta
  pub words : AllValues AllWords b.indexer.containers
  pub wildcards : All IsWord b.indexer.wildcard_list

module _ {V : Type 0} (P : V → Type 0) where
  pub find-AllValues :
      (k : Str) (v : V) (m : List (Str × V)) → AllValues P m → find k m ≡ some v → P v
  unfolding find
  find-AllValues k v [] h e = cc
  find-AllValues k v ((j, w) ∷ m) h e = elim (Bool-cases (str_eq j k)) [
    | inl y ↦ subst P (some_inj (rw y at e)) h.0
    | inr n ↦ find-AllValues k v m h.1 (rw n at e)
  ]

  assign-AllValues :
      (k : Str) (v : V) (m : List (Str × V)) → P v → AllValues P m → AllValues P (assign k v m)
  unfolding assign
  assign-AllValues k v [] p h = tt
  assign-AllValues k v ((j, w) ∷ m) p h = elim (Bool-cases (str_eq j k)) [
    | inl y ↦ rw y (p, h.1)
    | inr n ↦ rw n (h.0, assign-AllValues k v m p h.1)
  ]

  insert_new-AllValues :
      (k : Str) (v : V) (m : List (Str × V)) → P v → AllValues P m → AllValues P (insert_new k v m)
  unfolding insert_new
  insert_new-AllValues k v [] p h = (p, tt)
  insert_new-AllValues k v ((j, w) ∷ m) p h = ground (arith, insert_new-AllValues k v m p h.1)

push_entry-AllWords :
    (a : Attr) (eid : ℕ) (m : PostingList)
    → IsWord eid
    → AllLists (All IsWord) m
    → AllLists (All IsWord) (push_entry a eid m)
unfolding push_entry
push_entry-AllWords a eid [] w h = ((w, tt), tt)
push_entry-AllWords a eid ((b, es) ∷ m) w h = elim (Bool-cases (attr_eq b a)) [
  | inl y ↦ rw y (All-append IsWord es (eid ∷ []) h.0 (w, tt), h.1)
  | inr n ↦ rw n (h.0, push_entry-AllWords a eid m w h.1)
]

push_entries-AllWords :
    (name : Str) (eid : ℕ) (vs : List ℕ) (m : PostingList)
    → IsWord eid
    → AllLists (All IsWord) m
    → AllLists (All IsWord) (push_entries name eid vs m)
unfolding push_entries
push_entries-AllWords name eid [] m w h = h
push_entries-AllWords name eid (v ∷ vs) m w h =
    push_entries-AllWords name eid vs (push_entry (record { field = name; value = v }) eid m) w
      (push_entry-AllWords (record { field = name; value = v }) eid m w h)

indexing_token-AllWords :
    (meta : FieldMeta) (eid : ℕ) (token : Token) (c : CommonContainer)
    → IsWord eid
    → AllWords c
    → AllWords (indexing_token meta eid token c).1
unfolding indexing_token
indexing_token-AllWords meta eid token c w h =
    ground (arith, push_entries-AllWords meta.name eid token.values c.values w h)

-- The container of a field is there.
pub get_container-found :
    (field : Str) (ix : BooleanIndexer)
    → (d : CommonContainer) × (find default_field_key ix.containers ≡ some d)
    → (c : CommonContainer) × (get_container field ix ≡ some c)
unfolding get_container container_key
get_container-found field ix (d, h) = elim (Option-cases (find field ix.containers)) [
  | inl n ↦ (d, rw (n, container_key) h)
  | inr (c, e) ↦ (c, rw (e, container_key) e)
]

set_meta_absent :
    (field : Str) (m : FieldMeta) (ix : BooleanIndexer)
    → find field ix.field_meta ≡ none
    → (set_meta field m ix).1 ≡ record ix { field_meta = insert_new field m ix.field_meta }
unfolding set_meta
set_meta_absent field m ix n =
    rw (n, set_meta)
      (ap (λ (fm : List (Str × FieldMeta)). record ix { field_meta = fm })
        (insert_absent field m ix.field_meta n))

get_field_meta-IsBuilding :
    (field : Str) (b : BeIndexerBuilder)
    → IsBuilding b
    → HasParser (get_field_meta field b).0 × IsBuilding (get_field_meta field b).1
unfolding get_field_meta get_meta
get_field_meta-IsBuilding field b h = elim (Option-cases (find field b.indexer.field_meta)) [
  | inl n ↦
      let meta : FieldMeta = record { name = field; parser = some b.default_parser } in
      rw (n, get_field_meta, get_meta, set_meta_absent field meta b.indexer n)
        (
          (b.default_parser, refl),
          record {
            default_container = h.default_container;
            parsers =
                insert_new-AllValues HasParser field meta b.indexer.field_meta
                  (b.default_parser, refl) h.parsers;
            words = h.words;
            wildcards = h.wildcards;
          },
        )
  | inr (m, e) ↦
      rw (e, get_field_meta, get_meta)
        (find-AllValues HasParser field m b.indexer.field_meta h.parsers e, h)
]

-- A loop of AddDocument went on, or left the function, with a builder in use.
abbrev pub Goes : Option Flow → Type 0
Goes r = (f : Flow) × (r ≡ some f) × IsBuilding (builder_of f)

Goes-cases :
    (r : Option Flow)
    → Goes r
    → ((b : BeIndexerBuilder) × (r ≡ some (next b)) × IsBuilding b)
      ⊎ ((b : BeIndexerBuilder) × (r ≡ some (returned b)) × IsBuilding b)
Goes-cases r (next b, e, h) = inl (b, e, h)
Goes-cases r (returned b, e, h) = inr (b, e, h)

put_container : Str → CommonContainer → BeIndexerBuilder → BeIndexerBuilder
put_container k c b = record b {
  indexer = record b.indexer { containers = assign k c b.indexer.containers };
}

put_container-IsBuilding :
    (k : Str) (c w : CommonContainer) (b : BeIndexerBuilder)
    → find k b.indexer.containers ≡ some w
    → AllWords c
    → IsBuilding b
    → IsBuilding (put_container k c b)
unfolding put_container
put_container-IsBuilding k c w b e a h = record {
  default_container =
      let f = find-assign k default_field_key c w b.indexer.containers e in
      elim (Bool-cases (str_eq k default_field_key)) [
        | inl y ↦ (c, rw y at f)
        | inr n ↦ (h.default_container.0, rw n at f ∙ h.default_container.1)
      ];
  parsers = h.parsers;
  words = assign-AllValues AllWords k c b.indexer.containers a h.words;
  wildcards = h.wildcards;
}

index_token-Goes :
    (field : Str) (meta : FieldMeta) (eid : ℕ) (token : Token) (b : BeIndexerBuilder)
    → IsWord eid
    → IsBuilding b
    → Goes (index_token field meta eid token b)
unfolding index_token get_container put_container
index_token-Goes field meta eid token b w h =
    let (c, e) = get_container-found field b.indexer h.default_container in
    elim (Bool-cases token.fail) [
      | inl y ↦ rw (e, index_token, y) (returned b, refl, h)
      | inr n ↦
          let good : Token = record token { fail = false } in
          rw (e, index_token, n)
            (
              next _,
              refl,
              put_container-IsBuilding (container_key field b.indexer)
                  (indexing_token meta eid good c).1 c b e
                  (indexing_token-AllWords meta eid good c w (
                    find-AllValues AllWords (container_key field b.indexer) c b.indexer.containers
                      h.words e))
                  h,
            )
    ]

module _ (hasher : Str → ℕ) where
  index_expr-Goes :
      (conj_id : ℕ) (field : Str) (expr : BooleanExpr) (b : BeIndexerBuilder)
      → IsBuilding b
      → Goes (index_expr hasher conj_id (field, expr) b)
  unfolding index_expr
  index_expr-Goes conj_id field expr b h =
      let ((p, e), h') = get_field_meta-IsBuilding field b h in
      let word = gen_entry_id-lt-null_entry conj_id expr.exclude in
      rw (e, index_expr)
        (index_token-Goes field _ _ (parse_indexing hasher p expr.values) _ (omega (arith, word))
          h')

  index_exprs-Goes :
      (conj_id : ℕ) (es : List (Str × BooleanExpr)) (b : BeIndexerBuilder)
      → IsBuilding b
      → Goes (index_exprs hasher conj_id es b)
  unfolding index_exprs
  index_exprs-Goes conj_id [] b h = (next b, refl, h)
  index_exprs-Goes conj_id ((field, expr) ∷ es) b h =
      elim (Goes-cases (index_expr hasher conj_id (field, expr) b)
        (index_expr-Goes conj_id field expr b h)) [
          | inr (b', e, h') ↦ rw (e, index_exprs) (returned b', refl, h')
          | inl (b', e, h') ↦ rw (e, index_exprs) (index_exprs-Goes conj_id es b' h')
        ]

  index_conjunction-Goes :
      (conj : Conjunction) (b : BeIndexerBuilder)
      → IsBuilding b
      → Goes (index_conjunction hasher conj b)
  unfolding index_conjunction add_wildcard_entry
  index_conjunction-Goes conj b h = elim (Bool-cases (conj.size == 0)) [
    | inl y ↦ rw y (
        index_exprs-Goes conj.con_id conj.assigns _ (record {
          default_container = h.default_container;
          parsers = h.parsers;
          words = h.words;
          wildcards =
              All-append IsWord b.indexer.wildcard_list (gen_entry_id conj.con_id false ∷ [])
                h.wildcards (omega (arith, gen_entry_id-lt-null_entry conj.con_id false), tt);
        }))
    | inr n ↦ rw n (index_exprs-Goes conj.con_id conj.assigns b h)
  ]

  index_conjunctions-Goes :
      (cs : List Conjunction) (b : BeIndexerBuilder)
      → IsBuilding b
      → Goes (index_conjunctions hasher cs b)
  unfolding index_conjunctions
  index_conjunctions-Goes [] b h = (next b, refl, h)
  index_conjunctions-Goes (c ∷ cs) b h =
      elim (Goes-cases (index_conjunction hasher c b) (index_conjunction-Goes c b h)) [
        | inr (b', e, h') ↦ rw (e, index_conjunctions) (returned b', refl, h')
        | inl (b', e, h') ↦ rw (e, index_conjunctions) (index_conjunctions-Goes cs b' h')
      ]

  -- On a builder in use AddDocument, whatever the document, reads through no null pointer, and it
  -- leaves a builder in use.
  pub add_document-IsBuilding :
      (doc : Document) (b : BeIndexerBuilder)
      → IsBuilding b
      → (b' : BeIndexerBuilder) × (add_document hasher doc b ≡ some b') × IsBuilding b'
  unfolding add_document
  add_document-IsBuilding doc b h =
      let (f, e, h') = index_conjunctions-Goes doc.conjunctions b h in (builder_of f, rw e, h')

pub empty_builder-IsBuilding : IsBuilding empty_builder
unfolding find str_eq
empty_builder-IsBuilding = record {
  default_container = (empty_container, refl);
  parsers = tt;
  words = (tt, tt);
  wildcards = tt;
}
