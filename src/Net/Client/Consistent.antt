-- ===== src/Net/Client/Consistent.antt =====
-- Runs of a Client, net_io/clients/client.cc: which channels Finalize shuts.
use ltio.Common.{
  ℕ, ◌≡◌, refl, ap, ◌∙◌, min, Bool, true, false, ◌&&◌, not, List, [], ◌∷◌, ◌++◌, map, length, ◌==◌,
  Bool-cases, inl, inr,
}
use ltio.Net.Client.{
  stop_connector, start_channel, shut_channel, all_broken, Client, new_client, set_delegate, post,
  initialize, finalize, on_connect_failed, launch_next_if_need, store_channels, on_connected,
  remove, on_client_channel_closed, get_ready_channel,
}
use ltio.Net.Client.Steps.{
  shuts, shuts-append, shuts_more, shuts-map, shuts-replicate, Same, launch_next_if_need-Same,
  on_connect_failed-Same, get_ready_channel-Same,
}

-- What can come to a client, with the connections in process or the channels that are ready then.
pub data Event : Type 0 where
  connected : ℕ → ℕ → Event
  closed : ℕ → ℕ → Event
  failed : ℕ → Event
  ask : (ℕ → Bool) → Event
  delegate : Bool → Event

abbrev pub step : Event → Client → Client
step (connected ch n) c = on_connected ch n c
step (closed ch n) c = on_client_channel_closed ch n c
step (failed n) c = on_connect_failed n c
step (ask ready) c = (get_ready_channel ready c).1
step (delegate given) c = set_delegate given c

abbrev pub run : List Event → Client → Client
run [] c = c
run (e ∷ es) c = run es (step e c)

-- The channels that were connected and not closed since.
abbrev pub live : List Event → List ℕ → List ℕ
live [] chs = chs
live (connected ch n ∷ es) chs = live es (chs ++ ch ∷ [])
live (closed ch n ∷ es) chs = live es (remove ch chs)
live (failed n ∷ es) chs = live es chs
live (ask ready ∷ es) chs = live es chs
live (delegate given ∷ es) chs = live es chs

-- A client with these channels, which does or does not stop and has shut these.
record Holds (chs : List ℕ) (stopping : Bool) (shut : List ℕ) (c : Client) : Type 0 where
  in_use : c.in_use_channels ≡ chs
  channels : c.channels ≡ chs
  stops : c.stopping ≡ stopping
  shut_now : shuts c.posted ≡ shut

Same-Holds :
    (chs : List ℕ) (stopping : Bool) (shut : List ℕ) (c c' : Client)
    → Holds chs stopping shut c
    → Same c c'
    → Holds chs stopping shut c'
Same-Holds chs stopping shut c c' h s = record {
  in_use = s.in_use ∙ h.in_use;
  channels = s.channels ∙ h.channels;
  stops = s.stopping ∙ h.stops;
  shut_now = s.shut ∙ h.shut_now;
}

on_connected-Holds :
    (ch n : ℕ) (chs : List ℕ) (stopping : Bool) (shut : List ℕ) (c : Client)
    → Holds chs stopping shut c
    → Holds (chs ++ ch ∷ []) stopping shut (on_connected ch n c)
unfolding on_connected
on_connected-Holds ch n chs stopping shut c h =
    let c' =
      store_channels (c.channels ++ ch ∷ [])
        (post (start_channel ch ∷ []) (record c { next_reconnect_interval = 0 })) in
    let grown = ap (λ xs. xs ++ ch ∷ []) h.channels in
    Same-Holds (chs ++ ch ∷ []) stopping shut c' (launch_next_if_need n c')
      (record {
        in_use = grown;
        channels = grown;
        stops = h.stops;
        shut_now = shuts_more c.posted (start_channel ch ∷ []) refl ∙ h.shut_now;
      })
      (launch_next_if_need-Same n c')

on_client_channel_closed-Holds :
    (ch n : ℕ) (chs : List ℕ) (stopping : Bool) (shut : List ℕ) (c : Client)
    → Holds chs stopping shut c
    → Holds (remove ch chs) stopping shut (on_client_channel_closed ch n c)
unfolding on_client_channel_closed
on_client_channel_closed-Holds ch n chs stopping shut c h =
    let c1 = store_channels (remove ch c.channels) c in
    let c2 = launch_next_if_need n c1 in
    let fewer = ap (remove ch) h.channels in
    let held : Holds (remove ch chs) stopping shut c2 =
      Same-Holds (remove ch chs) stopping shut c1 c2
        (record { in_use = fewer; channels = fewer; stops = h.stops; shut_now = h.shut_now })
        (launch_next_if_need-Same n c1) in
    elim (Bool-cases (not c2.stopping && (length c2.channels == 0) && c2.has_delegate)) [
      | inl broken ↦
          rw (on_client_channel_closed, broken)
            (record {
              in_use = held.in_use;
              channels = held.channels;
              stops = held.stops;
              shut_now = shuts_more c2.posted (all_broken ∷ []) refl ∙ held.shut_now;
            })
      | inr whole ↦ rw (on_client_channel_closed, whole) held
    ]

run-Holds :
    (es : List Event) (chs : List ℕ) (stopping : Bool) (shut : List ℕ) (c : Client)
    → Holds chs stopping shut c
    → Holds (live es chs) stopping shut (run es c)
run-Holds [] chs stopping shut c h = h
run-Holds (connected ch n ∷ es) chs stopping shut c h =
    run-Holds es (chs ++ ch ∷ []) stopping shut (on_connected ch n c)
      (on_connected-Holds ch n chs stopping shut c h)
run-Holds (closed ch n ∷ es) chs stopping shut c h =
    run-Holds es (remove ch chs) stopping shut (on_client_channel_closed ch n c)
      (on_client_channel_closed-Holds ch n chs stopping shut c h)
run-Holds (failed n ∷ es) chs stopping shut c h =
    run-Holds es chs stopping shut (on_connect_failed n c)
      (Same-Holds chs stopping shut c (on_connect_failed n c) h (on_connect_failed-Same n c))
run-Holds (ask ready ∷ es) chs stopping shut c h =
    run-Holds es chs stopping shut (get_ready_channel ready c).1 (
      Same-Holds chs stopping shut c (get_ready_channel ready c).1 h
        (get_ready_channel-Same ready c))
run-Holds (delegate given ∷ es) chs stopping shut c h =
    run-Holds es chs stopping shut (set_delegate given c)
      (record { in_use = h.in_use; channels = h.channels; stops = h.stops; shut_now = h.shut_now })

initialize-Holds :
    (interval connections : ℕ) → Holds [] false [] (initialize connections (new_client interval))
unfolding initialize
initialize-Holds interval connections = record {
  in_use = refl;
  channels = refl;
  stops = refl;
  shut_now = shuts-replicate (min 10 connections) 0;
}

finalize-Holds :
    (chs : List ℕ) (c : Client) → Holds chs false [] c → Holds chs true chs (finalize c)
unfolding finalize
finalize-Holds chs c h =
    rw (finalize, h.stops)
      (record {
        in_use = h.in_use;
        channels = h.channels;
        stops = refl;
        shut_now =
            shuts-append c.posted (stop_connector ∷ map shut_channel c.in_use_channels)
            ∙ (ap (λ xs. xs ++ shuts (map shut_channel c.in_use_channels)) h.shut_now
                ∙ (shuts-map c.in_use_channels ∙ h.in_use));
      })

finalize_again : (chs shut : List ℕ) (c : Client) → Holds chs true shut c → finalize c ≡ c
unfolding finalize
finalize_again chs shut c h = simp (finalize, h.stops)

-- A client is initialized, Finalize is called after some events, and again after more. Exactly the
-- channels are shut that were connected and not closed by the first call; the channels that are
-- connected later, and not closed, are in use at the end, and are never shut.
pub finalize-shuts :
    (interval connections : ℕ) (before after : List Event)
    → let stopped = finalize (run before (initialize connections (new_client interval))) in
      (shuts (finalize (run after stopped)).posted ≡ live before [])
      × ((finalize (run after stopped)).in_use_channels ≡ live after (live before []))
finalize-shuts interval connections before after =
    let c = initialize connections (new_client interval) in
    let h = run-Holds before [] false [] c (initialize-Holds interval connections) in
    let stopped = finalize (run before c) in
    let s = finalize-Holds (live before []) (run before c) h in
    let l = run-Holds after (live before []) true (live before []) stopped s in
    rw (finalize_again (live after (live before [])) (live before []) (run after stopped) l)
      (l.shut_now, l.in_use)
