-- ===== src/BooleanIndexer/Cursor/Seek.antt =====
-- The loop of Skip and SkipTo, scanner_cursor.cc, for any test that a sorted list passes on a
-- prefix.
use ltio.Common.{
  ℕ, zero, suc, ◌+◌, ◌-◌, ◌/◌, ◌≤◌, ◌<◌, ◌≡◌, Bool, true, false, ltb, List, Option, none, some,
  length, get_or, get_elem?-eq-get_or, arith, ◌⊎◌, inl, inr, Bool-cases, ltb→lt, ltb_false→le,
}
use ltio.BooleanIndexer.Ids.{null_entry}
use ltio.BooleanIndexer.Cursor.{linear_loop, skip_loop, settled, linear_skip_distance}

abbrev pub at : List ℕ → ℕ → ℕ
at ids i = get_or ids i null_entry

abbrev pub IsSorted : List ℕ → Type 0
IsSorted ids = (i j : ℕ) → i ≤ j → j < length ids → at ids i ≤ at ids j

-- `r` is the first position from `index` on that does not pass the test, or the end.
pub record Seeks (passed : ℕ → Bool) (ids : List ℕ) (index r : ℕ) : Type 0 where
  pub from : index ≤ r
  pub upto : r ≤ length ids
  pub before : (i : ℕ) → index ≤ i → i < r → passed (at ids i) ≡ true
  pub stop : r < length ids → passed (at ids r) ≡ false

-- There is only one such position.
pub Seeks-unique :
    (passed : ℕ → Bool) (ids : List ℕ) (index r s : ℕ)
    → Seeks passed ids index r
    → Seeks passed ids index s
    → r ≡ s
Seeks-unique passed ids index r s p q = ground (arith, p.before s, q.before r)

abbrev pub Returns : Option ℕ → (ℕ → Type 0) → Type 0
Returns none P = ⊥
Returns (some r) P = P r

module _ (passed : ℕ → Bool) (ids : List ℕ) where
  Seeks-here :
      (index : ℕ)
      → index ≤ length ids
      → (index < length ids → passed (at ids index) ≡ false)
      → Seeks passed ids index index
  Seeks-here index h e = record {
    from = omega arith;
    upto = h;
    before = λ i p q. absurd (omega arith);
    stop = e;
  }

  -- What has passed may be put in front.
  Seeks-extend :
      (index from r : ℕ)
      → index ≤ from
      → ((i : ℕ) → index ≤ i → i < from → passed (at ids i) ≡ true)
      → Seeks passed ids from r
      → Seeks passed ids index r
  Seeks-extend index from r h b s = record {
    from = omega (arith, s.from);
    upto = s.upto;
    before = λ i p q. elim (Bool-cases (ltb i from)) [
      | inl lt ↦ b i p (ltb→lt i from lt)
      | inr ge ↦ s.before i (ltb_false→le i from ge) q
    ];
    stop = s.stop;
  }

  pub linear_loop-Seeks :
      (n index : ℕ)
      → index ≤ length ids
      → length ids - index ≤ n
      → Seeks passed ids index (linear_loop passed n ids index)
  unfolding linear_loop
  linear_loop-Seeks zero index h k = Seeks-here index h (λ lt. absurd (omega arith))
  linear_loop-Seeks (suc n) index h k = elim (Bool-cases (ltb index (length ids))) [
    | inr end ↦
        rw end
          (Seeks-here index h (λ lt. absurd (omega (arith, ltb_false→le index (length ids) end))))
    | inl lt ↦
        let inside = ltb→lt index (length ids) lt in
        elim (Bool-cases (passed (at ids index))) [
          | inr stays ↦ rw (lt, stays) (Seeks-here index h (λ _. stays))
          | inl goes ↦
              rw (lt, goes)
                (Seeks-extend index (index + 1) _ (omega arith)
                  (λ i p q. let e : i ≡ index = omega arith in rw e goes)
                  (linear_loop-Seeks n (index + 1) (omega arith) (omega arith)))
        ]
  ]

  module _ (sorted : IsSorted ids) (mono : (a b : ℕ) → a ≤ b → passed b ≡ true → passed a ≡ true)
      (start : ℕ) where
    record Inv (index right : ℕ) : Type 0 where
      from : start ≤ index
      upto : right ≤ length ids
      before : (i : ℕ) → start ≤ i → i < index → passed (at ids i) ≡ true
      live : (index < right) ⊎ (index ≡ length ids)

    Inv→Seeks :
        (index right r : ℕ) → Inv index right → Seeks passed ids index r → Seeks passed ids start r
    Inv→Seeks index right r inv = Seeks-extend start index r inv.from inv.before

    -- The break, or one more round.
    settle :
        (index right : ℕ) (rest : Option ℕ)
        → index < right
        → Inv index right
        → Returns rest (Seeks passed ids start)
        → Returns
            (elim (settled passed ids index) [ true ↦ some index | false ↦ rest ])
            (Seeks passed ids start)
    settle index right rest lt inv again = elim (Bool-cases (settled passed ids index)) [
      | inr more ↦ rw more again
      | inl stops ↦ rw stops (
          Inv→Seeks index right index inv
            (Seeks-here index (omega (arith, inv.upto)) (λ _. ground arith)))
    ]

    -- The upper half, where the middle entry passes.
    upper-Inv :
        (index right mid : ℕ)
        → Inv index right
        → index ≤ mid
        → mid + 1 < right
        → passed (at ids mid) ≡ true
        → Inv (mid + 1) right
    upper-Inv index right mid inv p q e = record {
      from = omega (arith, inv.from);
      upto = inv.upto;
      before = λ i h k.
          mono (at ids i) (at ids mid) (sorted i mid (omega arith) (omega (arith, inv.upto))) e;
      live = inl q;
    }

    -- One probe of the middle, from the two calls that may follow.
    probe :
        (index right mid : ℕ) (rest : ℕ → ℕ → Option ℕ)
        → Inv index right
        → index < mid
        → mid + 1 < right
        → (Inv (mid + 1) right → Returns (rest (mid + 1) right) (Seeks passed ids start))
        → (Inv index mid → Returns (rest index mid) (Seeks passed ids start))
        → Returns
            (elim (passed (at ids mid)) [
              | true ↦ elim (settled passed ids (mid + 1)) [
                | true ↦ some (mid + 1)
                | false ↦ rest (mid + 1) right
              ]
              | false ↦ elim (settled passed ids index) [
                | true ↦ some index
                | false ↦ rest index mid
              ]
            ])
            (Seeks passed ids start)
    probe index right mid rest inv p q up down = elim (Bool-cases (passed (at ids mid))) [
      | inl e ↦
          let inv' = upper-Inv index right mid inv (omega arith) q e in
          rw e (settle (mid + 1) right (rest (mid + 1) right) q inv' (up inv'))
      | inr e ↦
          let inv' : Inv index mid = record {
            from = inv.from;
            upto = omega (arith, inv.upto);
            before = inv.before;
            live = inl p;
          } in
          rw e (settle index mid (rest index mid) p inv' (down inv'))
    ]

    skip_loop-Seeks :
        (fuel index right : ℕ)
        → right - index < fuel
        → Inv index right
        → Returns (skip_loop passed fuel ids index right) (Seeks passed ids start)
    unfolding skip_loop
    skip_loop-Seeks zero index right f inv = absurd (omega arith)
    skip_loop-Seeks (suc fuel) index right f inv = elim (Bool-cases (ltb index right)) [
      | inr done ↦
          let e : index ≡ length ids = omega (arith, inv.live, ltb_false→le index right done) in
          rw (done, skip_loop)
            (Inv→Seeks index right index inv
              (Seeks-here index (omega arith) (λ h. absurd (omega arith))))
      | inl more ↦
          let lt = ltb→lt index right more in
          elim (Bool-cases (ltb (right - index) linear_skip_distance)) [
            | inl near ↦
                rw (more, near, skip_loop)
                  (Inv→Seeks index right _ inv
                    (linear_loop-Seeks _ index (omega (arith, inv.upto)) (omega arith)))
            | inr far ↦
                let wide = ltb_false→le (right - index) linear_skip_distance far in
                let mid = (index + right) / 2 in
                rw
                  (
                    more,
                    far,
                    get_elem?-eq-get_or ids mid null_entry (omega (arith, inv.upto)),
                    skip_loop,
                  )
                  (probe index right mid (skip_loop passed fuel ids) inv (omega arith) (omega arith)
                    (skip_loop-Seeks fuel (mid + 1) right (omega arith))
                    (skip_loop-Seeks fuel index mid (omega arith)))
          ]
    ]

  -- From any position the loop ends at the first entry that does not pass.
  pub skip_loop_whole :
      IsSorted ids
      → ((a b : ℕ) → a ≤ b → passed b ≡ true → passed a ≡ true)
      → (index : ℕ) → index ≤ length ids
      → Returns
          (skip_loop passed (suc (length ids)) ids index (length ids))
          (Seeks passed ids index)
  skip_loop_whole sorted mono index h =
      skip_loop-Seeks sorted mono index (suc (length ids)) index (length ids) (omega arith)
        (record {
          from = omega arith;
          upto = omega arith;
          before = λ i p q. absurd (omega arith);
          live = grind arith;
        })
