-- ===== src/Net/Client/Ready.antt =====
-- get_ready_channel, net_io/clients/client.cc: a ready channel is found.
use ltio.Common.{
  ℕ, zero, suc, ◌+◌, ◌-◌, ◌%◌, ◌^◌, ◌≤◌, ◌<◌, ◌≡◌, sym, ap, ◌∙◌, subst, some_inj, Bool, true, false,
  Option, some, length, get_elem?, arith, min, Bool-cases, inl, inr, get_elem?-lt, get_elem?-some,
  leb, leb→le, leb_false→lt, ◌==◌,
}
use native.Mathlib.Nat.{mod-lt, mod-add-mod, add-mod_right, mod-eq_of_lt}
use ltio.Net.Client.{Client, pick_loop, get_ready_channel}

module _ (ready : ℕ → Bool) where
  -- A channel in use that is ready.
  pub record Picks (c : Client) (picked : Option ℕ) : Type 0 where
    pub channel : ℕ
    pub place : ℕ
    pub is_picked : picked ≡ some channel
    pub in_use : get_elem? c.in_use_channels place ≡ some channel
    pub is_ready : ready channel ≡ true

  pick_hit :
      (steps : ℕ) (c : Client) (ch : ℕ)
      → get_elem? c.in_use_channels (c.next_index % length c.in_use_channels) ≡ some ch
      → ready ch ≡ true
      → (pick_loop ready (suc steps) c).0 ≡ some ch
  unfolding pick_loop
  pick_hit steps c ch at hit = simp (pick_loop, at, hit)

  pick_miss :
      (steps : ℕ) (c : Client) (ch : ℕ)
      → get_elem? c.in_use_channels (c.next_index % length c.in_use_channels) ≡ some ch
      → ready ch ≡ false
      → pick_loop ready (suc steps) c
        ≡ pick_loop ready steps (record c { next_index = (c.next_index + 1) % 2 ^ 32 })
  unfolding pick_loop
  pick_miss steps c ch at miss = simp (pick_loop, at, miss)

  -- A round that misses is not the one that hits.
  pick_later :
      (k here ch : ℕ) (c : Client)
      → get_elem? c.in_use_channels (c.next_index % length c.in_use_channels) ≡ some here
      → ready here ≡ false
      → get_elem? c.in_use_channels ((c.next_index + k) % length c.in_use_channels) ≡ some ch
      → ready ch ≡ true
      → 0 < k
  pick_later zero here ch c e miss at hit =
      let same : c.next_index + 0 ≡ c.next_index = omega arith in
      let at' : get_elem? c.in_use_channels (c.next_index % length c.in_use_channels) ≡ some ch =
        subst (λ n. get_elem? c.in_use_channels (n % length c.in_use_channels) ≡ some ch) same at in
      let f : here ≡ ch = some_inj (sym e ∙ at') in
      let g : false ≡ true = sym miss ∙ (ap ready f ∙ hit) in cc
  pick_later (suc k) here ch c e miss at hit = omega arith

  pick_loop-Picks :
      (steps k ch : ℕ) (c : Client)
      → k < steps
      → get_elem? c.in_use_channels ((c.next_index + k) % length c.in_use_channels) ≡ some ch
      → ready ch ≡ true
      → c.next_index + k < 2 ^ 32
      → 0 < length c.in_use_channels
      → Picks c (pick_loop ready steps c).0
  pick_loop-Picks zero k ch c h at hit low some_use = absurd (omega (arith, h))
  pick_loop-Picks (suc steps) k ch c h at hit low some_use =
      let size = length c.in_use_channels in
      let idx = c.next_index % size in
      let (here, e) = get_elem?-lt c.in_use_channels idx (mod-lt c.next_index some_use) in
      elim (Bool-cases (ready here)) [
        | inl good ↦ record {
          channel = here;
          place = idx;
          is_picked = pick_hit steps c here e good;
          in_use = e;
          is_ready = good;
        }
        | inr miss ↦
            let positive = pick_later k here ch c e miss at hit in
            let next = (c.next_index + 1) % 2 ^ 32 in
            let shift : c.next_index + k ≡ next + (k - 1) = omega (arith, low, positive) in
            let picks =
              pick_loop-Picks steps (k - 1) ch (record c { next_index = next })
                (omega (arith, h, positive))
                (subst (λ n. get_elem? c.in_use_channels (n % length c.in_use_channels) ≡ some ch)
                  shift at)
                hit (omega (arith, low, shift)) some_use in
            record {
              channel = picks.channel;
              place = picks.place;
              is_picked =
                  ap (λ (r : Option ℕ × Client). r.0) (pick_miss steps c here e miss)
                  ∙ picks.is_picked;
              in_use = picks.in_use;
              is_ready = picks.is_ready;
            }
      ]

-- From a place in a ring, each place is reached in less than a turn.
ring_steps : (n i size : ℕ) → i < size → (k : ℕ) × (k < size) × ((n + k) % size ≡ i)
ring_steps n i size h =
    let r = n % size in
    let low : r < size = mod-lt n (omega (arith, h)) in
    elim (Bool-cases (leb r i)) [
      | inl ahead ↦
          let le = leb→le r i ahead in
          let sum : r + (i - r) ≡ i = omega (arith, le) in
          (
            i - r,
            omega (arith, h),
            sym (mod-add-mod n size (i - r)) ∙ ap (λ t. t % size) sum ∙ mod-eq_of_lt h,
          )
      | inr behind ↦
          let lt = leb_false→lt r i behind in
          let sum : r + (i + size - r) ≡ i + size = omega (arith, low) in
          (
            i + size - r,
            omega (arith, lt, low),
            sym (mod-add-mod n size (i + size - r))
                ∙ ap (λ t. t % size) sum
                ∙ add-mod_right i size
                ∙ mod-eq_of_lt h,
          )
    ]

-- get_ready_channel picks a channel in use that is ready, where one is, there are at most 11 channels
-- in use, and the counter does not wrap meanwhile.
pub get_ready_channel-Picks :
    (ready : ℕ → Bool) (c : Client) (i ch : ℕ)
    → get_elem? c.in_use_channels i ≡ some ch
    → ready ch ≡ true
    → length c.in_use_channels ≤ 11
    → c.next_index + 11 ≤ 2 ^ 32
    → Picks ready c (get_ready_channel ready c).0
unfolding get_ready_channel
get_ready_channel-Picks ready c i ch at hit few low =
    let size = length c.in_use_channels in
    let inside : i < size = (get_elem?-some c.in_use_channels i ch at).0 in
    let (k, h, e) = ring_steps c.next_index i size inside in
    let filled : (size == 0) ≡ false = ground arith in
    rw (get_ready_channel, filled)
      (pick_loop-Picks ready (min 10 size + 1) k ch c (omega (arith, h, few))
        (ap (get_elem? c.in_use_channels) e ∙ at) hit (omega (arith, h, few, low))
        (omega (arith, inside)))
