-- ===== src/Net/Client/Steps.antt =====
-- The steps of a Client that leave its channels as they are, net_io/clients/client.cc.
use ltio.Common.{
  ℕ, zero, suc, ◌+◌, ◌%◌, ◌^◌, ◌≡◌, refl, ap, ◌∙◌, min, Bool, ◌||◌, List, [], ◌∷◌, ◌++◌, map,
  length, get_elem?, replicate, ltb, leb, ◌==◌, Bool-cases, Option-cases, inl, inr,
}
use ltio.Net.Client.{
  Task, dial, stop_connector, start_channel, shut_channel, all_broken, Client, on_connect_failed,
  launch_next_if_need, pick_loop, get_ready_channel,
}

-- The channels that were shut.
abbrev pub shuts : List Task → List ℕ
shuts [] = []
shuts (shut_channel ch ∷ tasks) = ch ∷ shuts tasks
shuts (dial n ∷ tasks) = shuts tasks
shuts (stop_connector ∷ tasks) = shuts tasks
shuts (start_channel ch ∷ tasks) = shuts tasks
shuts (all_broken ∷ tasks) = shuts tasks

pub shuts-append : (xs ys : List Task) → shuts (xs ++ ys) ≡ shuts xs ++ shuts ys
shuts-append [] ys = refl
shuts-append (shut_channel ch ∷ xs) ys = ap (λ chs. ch ∷ chs) (shuts-append xs ys)
shuts-append (dial n ∷ xs) ys = shuts-append xs ys
shuts-append (stop_connector ∷ xs) ys = shuts-append xs ys
shuts-append (start_channel ch ∷ xs) ys = shuts-append xs ys
shuts-append (all_broken ∷ xs) ys = shuts-append xs ys

append_nil : (xs : List ℕ) → xs ++ [] ≡ xs
append_nil [] = refl
append_nil (x ∷ xs) = ap (λ ys. x ∷ ys) (append_nil xs)

pub shuts_more : (xs ys : List Task) → shuts ys ≡ [] → shuts (xs ++ ys) ≡ shuts xs
shuts_more xs ys h = shuts-append xs ys ∙ (ap (λ chs. shuts xs ++ chs) h ∙ append_nil (shuts xs))

pub shuts-map : (chs : List ℕ) → shuts (map shut_channel chs) ≡ chs
shuts-map [] = refl
shuts-map (ch ∷ chs) = ap (λ xs. ch ∷ xs) (shuts-map chs)

pub shuts-replicate : (n k : ℕ) → shuts (replicate n (dial k)) ≡ []
shuts-replicate zero k = refl
shuts-replicate (suc n) k = shuts-replicate n k

-- A step that leaves the channels, whether the client stops, and what was shut.
pub record Same (c c' : Client) : Type 0 where
  pub in_use : c'.in_use_channels ≡ c.in_use_channels
  pub channels : c'.channels ≡ c.channels
  pub stopping : c'.stopping ≡ c.stopping
  pub shut : shuts c'.posted ≡ shuts c.posted

same : (c : Client) → Same c c
same c = record { in_use = refl; channels = refl; stopping = refl; shut = refl }

pub launch_next_if_need-Same : (n : ℕ) (c : Client) → Same c (launch_next_if_need n c)
unfolding launch_next_if_need
launch_next_if_need-Same n c =
    elim (Bool-cases (c.stopping || leb c.required_count (c.channels_count + n))) [
      | inl full ↦ rw (launch_next_if_need, full) (same c)
      | inr room ↦
          rw (launch_next_if_need, room)
            (record {
              in_use = refl;
              channels = refl;
              stopping = refl;
              shut = shuts_more c.posted (dial 0 ∷ []) refl;
            })
    ]

pub on_connect_failed-Same : (n : ℕ) (c : Client) → Same c (on_connect_failed n c)
unfolding on_connect_failed
on_connect_failed-Same n c =
    elim (Bool-cases (c.stopping || leb c.required_count c.channels_count)) [
      | inl full ↦ rw (on_connect_failed, full) (same c)
      | inr room ↦ elim (Bool-cases (ltb 10 n)) [
        | inl many ↦
            rw (on_connect_failed, room, many)
              (record { in_use = refl; channels = refl; stopping = refl; shut = refl })
        | inr few ↦
            rw (on_connect_failed, room, few)
              (record {
                in_use = refl;
                channels = refl;
                stopping = refl;
                shut = shuts_more c.posted (dial _ ∷ []) refl;
              })
      ]
    ]

pick_loop-Same : (ready : ℕ → Bool) (steps : ℕ) (c : Client) → Same c (pick_loop ready steps c).1
unfolding pick_loop
pick_loop-Same ready zero c = same c
pick_loop-Same ready (suc steps) c =
    let c' : Client = record c { next_index = (c.next_index + 1) % 2 ^ 32 } in
    elim (Option-cases (get_elem? c.in_use_channels (c.next_index % length c.in_use_channels))) [
      | inl out ↦
          rw (pick_loop, out)
            (record { in_use = refl; channels = refl; stopping = refl; shut = refl })
      | inr (ch, at) ↦ elim (Bool-cases (ready ch)) [
        | inl found ↦
            rw (pick_loop, at, found)
              (record { in_use = refl; channels = refl; stopping = refl; shut = refl })
        | inr missed ↦
            let s = pick_loop-Same ready steps c' in
            rw (pick_loop, at, missed)
              (record {
                in_use = s.in_use;
                channels = s.channels;
                stopping = s.stopping;
                shut = s.shut;
              })
      ]
    ]

pub get_ready_channel-Same : (ready : ℕ → Bool) (c : Client) → Same c (get_ready_channel ready c).1
unfolding get_ready_channel
get_ready_channel-Same ready c = elim (Bool-cases (length c.in_use_channels == 0)) [
  | inl empty ↦ rw (get_ready_channel, empty) (same c)
  | inr some_use ↦
      rw (get_ready_channel, some_use)
        (pick_loop-Same ready (min 10 (length c.in_use_channels) + 1) c)
]
