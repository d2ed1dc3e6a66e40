-- ===== src/Net/Client.antt =====
-- The channels of a Client, net_io/clients/client.cc. A channel is known by a number, and which channels
-- are ready is an argument, as is the number of connections that the Connector has in process. What is
-- posted to a loop, or told the delegate, is kept in order.
pub mod Ready
pub mod Steps
pub mod Consistent
pub mod Tests
use ltio.Common.{
  ℕ, zero, suc, ◌+◌, ◌%◌, ◌^◌, min, Bool, true, false, ◌&&◌, ◌||◌, not, List, [], ◌∷◌, ◌++◌, map,
  Option, none, some, ltb, leb, ◌==◌, if◌then◌else◌, length, get_elem?, replicate,
}

pub data Task : Type 0 where
  dial : ℕ → Task
  stop_connector : Task
  start_channel : ℕ → Task
  shut_channel : ℕ → Task
  all_broken : Task

pub record Client : Type 0 where
  pub required_count : ℕ
  pub has_delegate : Bool
  pub stopping : Bool
  pub next_index : ℕ
  pub in_use_channels : List ℕ
  pub channels_count : ℕ
  pub channels : List ℕ
  pub next_reconnect_interval : ℕ
  pub posted : List Task

-- The constructor leaves next_reconnect_interval_ as it is in memory.
abbrev pub new_client : ℕ → Client
new_client interval = record {
  required_count = 0;
  has_delegate = false;
  stopping = false;
  next_index = 0;
  in_use_channels = [];
  channels_count = 0;
  channels = [];
  next_reconnect_interval = interval;
  posted = [];
}

abbrev pub post : List Task → Client → Client
post tasks c = record c { posted = c.posted ++ tasks }

-- SetDelegate, of a delegate or NULL.
abbrev pub set_delegate : Bool → Client → Client
set_delegate given c = record c { has_delegate = given }

-- Initialize, with the number of connections of the configuration.
unfoldable pub initialize : ℕ → Client → Client
initialize connections c =
    post (replicate (min 10 connections) (dial 0)) (record c { required_count = connections })

unfoldable pub finalize : Client → Client
finalize c =
    if c.stopping
    then c
    else post (stop_connector ∷ map shut_channel c.in_use_channels)
        (record c { stopping = true; channels_count = 0 })

unfoldable pub on_connect_failed : ℕ → Client → Client
on_connect_failed in_process c =
    if c.stopping || leb c.required_count c.channels_count
    then c
    else (let interval = (c.next_reconnect_interval + 10) % 2 ^ 32 in
        let c' : Client = record c { next_reconnect_interval = interval } in
        if ltb 10 in_process then c' else post (dial (min interval 10000) ∷ []) c')

unfoldable pub launch_next_if_need : ℕ → Client → Client
launch_next_if_need in_process c =
    if c.stopping || leb c.required_count (c.channels_count + in_process)
    then c
    else post (dial 0 ∷ []) c

-- The stores of the copy of channels_ and of its size.
abbrev pub store_channels : List ℕ → Client → Client
store_channels chs c = record c {
  channels = chs;
  channels_count = length chs;
  in_use_channels = chs;
}

-- Once the codec and the socket of the channel are made.
unfoldable pub on_connected : ℕ → ℕ → Client → Client
unfolding launch_next_if_need
on_connected ch in_process c = launch_next_if_need in_process (
    store_channels (c.channels ++ ch ∷ [])
      (post (start_channel ch ∷ []) (record c { next_reconnect_interval = 0 })))

-- std::list::remove_if.
unfoldable pub remove : ℕ → List ℕ → List ℕ
remove ch [] = []
remove ch (x ∷ xs) = let rest = remove ch xs in if x == ch then rest else x ∷ rest

-- In the work loop, where OnClientChannelClosed posts itself if it is called elsewhere.
unfoldable pub on_client_channel_closed : ℕ → ℕ → Client → Client
unfolding remove launch_next_if_need
on_client_channel_closed ch in_process c =
    let c' = launch_next_if_need in_process (store_channels (remove ch c.channels) c) in
    if not c'.stopping && (length c'.channels == 0) && c'.has_delegate
    then post (all_broken ∷ []) c'
    else c'

-- The loop of get_ready_channel, which has `steps` rounds.
module _ (ready : ℕ → Bool) where
  unfoldable pub pick_loop : ℕ → Client → Option ℕ × Client
  pick_loop zero c = (none, c)
  pick_loop (suc steps) c =
      let idx = c.next_index % length c.in_use_channels in
      let c' : Client = record c { next_index = (c.next_index + 1) % 2 ^ 32 } in
      elim (get_elem? c.in_use_channels idx) [
        | none ↦ (none, c')
        | some ch ↦ elim (ready ch) [ true ↦ (some ch, c') | false ↦ pick_loop steps c' ]
      ]

  unfoldable pub get_ready_channel : Client → Option ℕ × Client
  unfolding pick_loop
  get_ready_channel c =
      if length c.in_use_channels == 0
      then (none, c)
      else pick_loop (min 10 (length c.in_use_channels) + 1) c
