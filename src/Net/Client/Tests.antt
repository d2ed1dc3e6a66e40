-- ===== src/Net/Client/Tests.antt =====
-- Runs of a Client with a few channels: net_io/clients/client.cc.
use ltio.Common.{ℕ, ◌≡◌, refl, Bool, true, false, [], ◌∷◌, some, arith, ◌==◌}
use ltio.Net.Client.{Client, new_client, initialize, finalize, remove, get_ready_channel}
use ltio.Net.Client.Ready.{Picks, get_ready_channel-Picks}
use ltio.Net.Client.Consistent.{connected, closed, run, finalize-shuts}
use ltio.Net.Client.Steps.{shuts}

abbrev pool : Client
pool = record {
  required_count = 3;
  has_delegate = true;
  stopping = false;
  next_index = 7;
  in_use_channels = 10 ∷ 11 ∷ 12 ∷ [];
  channels_count = 3;
  channels = 10 ∷ 11 ∷ 12 ∷ [];
  next_reconnect_interval = 0;
  posted = [];
}

abbrev only_10 : ℕ → Bool
only_10 ch = ch == 10

picks_10 : get_ready_channel only_10 pool ≡ (some 10, record pool { next_index = 10 })
unfolding get_ready_channel
picks_10 = refl

get_ready_channel-Picks_example : Picks only_10 pool (get_ready_channel only_10 pool).0
get_ready_channel-Picks_example =
    get_ready_channel-Picks only_10 pool 0 10 refl refl (omega arith) (omega arith)

-- The channel 3 is connected once the client stops.
finalize-shuts_example :
    (shuts
        (finalize (
          run (connected 3 0 ∷ []) (
            finalize (
              run
                (connected 1 0 ∷ connected 2 0 ∷ closed 1 0 ∷ [])
                (initialize 2 (new_client 0)))))).posted
      ≡ 2 ∷ [])
    × ((finalize (
          run (connected 3 0 ∷ []) (
            finalize (
              run
                (connected 1 0 ∷ connected 2 0 ∷ closed 1 0 ∷ [])
                (initialize 2 (new_client 0)))))).in_use_channels
        ≡ 2 ∷ 3 ∷ [])
unfolding remove
finalize-shuts_example =
    finalize-shuts 0 2 (connected 1 0 ∷ connected 2 0 ∷ closed 1 0 ∷ []) (connected 3 0 ∷ [])
