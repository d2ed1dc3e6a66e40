-- ===== src/BooleanIndexer/Builder/Complete.antt =====
-- BeIndexerBuilder::BuildIndexer, be_indexer_builder.cc, and Retrieve on the index that it makes.
use ltio.Common.{
  ℕ, ◌<◌, ◌≡◌, refl, sym, ap, ◌∙◌, true, List, [], ◌∷◌, ◌++◌, map, some, length, get_elem?, arith,
  ◌⊎◌, All, All-of_get_elem?, All-get_elem?, inl, inr,
}
use mathlib.Core.List.{append-nil, append_assoc}
use ltio.Common.Text.{Str}
use ltio.Common.Int.{ℤ}
use ltio.Common.OrdMap.{find}
use ltio.BooleanIndexer.Field.{FieldCursor}
use ltio.BooleanIndexer.Field.Start.{IsIndexed}
use ltio.BooleanIndexer.Document.{AttrValues}
use ltio.BooleanIndexer.Container.{FieldMeta, CommonContainer, compile_entries}
use ltio.BooleanIndexer.Container.Compile.{
  AllLists, sorted, sorted-IsIndexed, compile_entries-IsIndexed,
}
use ltio.BooleanIndexer.Builder.{
  BooleanIndexer, BeIndexerBuilder, default_field_key, get_meta, container_key, get_container,
  compile_containers, complete_index, build_indexer,
}
use ltio.BooleanIndexer.Builder.Indexing.{
  HasParser, AllValues, AllWords, IsBuilding, find-AllValues, get_container-found,
}
use ltio.BooleanIndexer.Parser.{ExprParser, parse_query_assign}
use ltio.BooleanIndexer.Cursor.Seek.{at}
use ltio.BooleanIndexer.Container.Compile.{Found}
use ltio.BooleanIndexer.Scanner.Sound.{Reported}
use ltio.BooleanIndexer.Scanner.{init_cursors, retrieve}
use ltio.BooleanIndexer.Scanner.Rounds.{total_left}
use ltio.BooleanIndexer.Scanner.Retrieve.{Answers, retrieve_returns}

abbrev pub AllIndexed : CommonContainer → Type 0
AllIndexed c = AllLists IsIndexed c.values

-- An index that is complete.
pub record IsComplete (ix : BooleanIndexer) : Type 0 where
  pub default_container : (c : CommonContainer) × (find default_field_key ix.containers ≡ some c)
  pub parsers : AllValues HasParser ix.field_meta
  pub lists : AllValues AllIndexed ix.containers
  pub wildcards : IsIndexed ix.wildcard_list

compile_value : Str × CommonContainer → Str × CommonContainer
compile_value (k, c) = (k, (compile_entries c).1)

compile_containers-map :
    (cs done : List (Str × CommonContainer))
    → compile_containers cs done ≡ (true, done ++ map compile_value cs)
unfolding compile_containers compile_value compile_entries
compile_containers-map [] done =
    ap (λ (l : List (Str × CommonContainer)). (true, l)) (sym (append-nil done))
compile_containers-map ((k, c) ∷ cs) done =
    let c' = (compile_entries c).1 in
    compile_containers-map cs (done ++ (k, c') ∷ [])
    ∙ ap (λ (l : List (Str × CommonContainer)). (true, l))
        (append_assoc done ((k, c') ∷ []) (map compile_value cs))

find-compile_value :
    (k : Str) (c : CommonContainer) (cs : List (Str × CommonContainer))
    → find k cs ≡ some c
    → find k (map compile_value cs) ≡ some (compile_entries c).1
unfolding find compile_value
find-compile_value k c [] e = cc
find-compile_value k c ((j, d) ∷ cs) e = ground (arith, find-compile_value k c cs)

compile_value-AllIndexed :
    (cs : List (Str × CommonContainer))
    → AllValues AllWords cs
    → AllValues AllIndexed (map compile_value cs)
unfolding compile_value
compile_value-AllIndexed [] h = tt
compile_value-AllIndexed ((k, c) ∷ cs) h =
    (compile_entries-IsIndexed c h.0, compile_value-AllIndexed cs h.1)

-- BuildIndexer succeeds on a builder in use, and every posting list of the index is sorted.
pub build_indexer-IsComplete :
    (b : BeIndexerBuilder)
    → IsBuilding b
    → (ix : BooleanIndexer) × (build_indexer b ≡ some ix) × IsComplete ix
unfolding build_indexer complete_index
build_indexer-IsComplete b h =
    let e = compile_containers-map b.indexer.containers [] in
    let (c, f) = h.default_container in
    (
      record {
        wildcard_list = sorted b.indexer.wildcard_list;
        field_meta = b.indexer.field_meta;
        containers = map compile_value b.indexer.containers;
      },
      rw (e, build_indexer, complete_index),
      record {
        default_container = (_, find-compile_value default_field_key c b.indexer.containers f);
        parsers = h.parsers;
        lists = compile_value-AllIndexed b.indexer.containers h.words;
        wildcards = sorted-IsIndexed b.indexer.wildcard_list h.wildcards;
      },
    )

abbrev pub Listed : List ℕ → ℕ → Type 0
Listed ids e = (i : ℕ) × (i < length ids) × (at ids i ≡ e)

module _ (hasher : Str → ℕ) (ix : BooleanIndexer) where
  -- An entry of a list under a value that an assignment parses to.
  pub record Matches (q : AttrValues) (e : ℕ) : Type 0 where
    pub meta : FieldMeta
    pub known : get_meta q.name ix ≡ some meta
    pub parser : ExprParser
    pub parsed : meta.parser ≡ some parser
    pub container : CommonContainer
    pub contained : get_container q.name ix ≡ some container
    pub list : List ℕ
    pub found :
        Found meta.name (parse_query_assign hasher parser q.values).values container.values list
    pub listed : Listed list e

  -- An entry that a query reaches.
  abbrev pub Reached : List AttrValues → ℕ → Type 0
  Reached queries e =
      Listed ix.wildcard_list e
      ⊎ ((k : ℕ) × (q : AttrValues) × (get_elem? queries k ≡ some q) × Matches q e)

  abbrev pub Known : AttrValues → Type 0
  Known q = (meta : FieldMeta) × (get_meta q.name ix ≡ some meta)

  complete-Answers :
      IsComplete ix
      → (queries : List AttrValues) (k : ℕ) (q : AttrValues) → get_elem? queries k ≡ some q
      → Known q
      → Answers hasher ix (Reached queries) q
  unfolding get_container
  complete-Answers h queries k q e (meta, f) =
      let (c, g) = get_container-found q.name ix h.default_container in
      record {
        meta = meta;
        known = f;
        container = c;
        contained = g;
        indexed = find-AllValues AllIndexed (container_key q.name ix) c ix.containers h.lists g;
        holds = λ p j es l i m. inr (
          k,
          q,
          e,
          record {
            meta = meta;
            known = f;
            parser = p;
            parsed = j;
            container = c;
            contained = g;
            list = es;
            found = l;
            listed = (i, m, refl);
          },
        );
      }

-- A query for known fields of a complete index is answered. With more fuel than there are entries
-- under its cursors Retrieve returns, and every document that it returns is that of an including
-- entry, of the wildcard list or of a list under a value that one of the assignments parses to.
pub complete_retrieves :
    (hasher : Str → ℕ) (ix : BooleanIndexer) (queries : List AttrValues)
    → IsComplete ix
    → All (Known hasher ix) queries
    → (cs : List FieldCursor) × (init_cursors hasher ix queries [] ≡ some cs)
      × ((fuel : ℕ)
          → total_left cs < fuel
          → (docs : List ℤ) × (retrieve hasher fuel ix queries ≡ some docs)
            × All (Reported (Reached hasher ix queries)) docs)
complete_retrieves hasher ix queries h known =
    retrieve_returns hasher ix (Reached hasher ix queries) queries
      (All-of_get_elem? (Answers hasher ix (Reached hasher ix queries)) queries (λ k q e.
        complete-Answers hasher ix h queries k q e
          (All-get_elem? (Known hasher ix) queries k q known e)))
      (h.wildcards, λ i m. inl (i, m, refl))
