-- ===== src/Net/ClientChannel/Queued.antt =====
-- QueuedChannel, net_io/clients/queued_channel.{h,cc}: one request on its way, the others wait in order. A
-- node of std::list has a number, each new one the next, and a reference to the front is the number of
-- its node: pop_front destroys the node, and a read through a reference to a node that is not in the list
-- is `none`. The codec is a parameter: its state, and SendRequest, with whether it succeeded and the id
-- that it sets.
use ltio.Common.{
  ℕ, ◌+◌, Bool, true, false, List, [], ◌∷◌, ◌++◌, Option, none, some, ◌==◌, if◌then◌else◌,
}
use ltio.Net.ClientChannel.{
  Request, Response, ClientChannel, closing, disconnected, success, time_out, conn_broken, closed,
  new_channel, same_object, handle_response, fail_request, tell, remove_timer,
}

pub record QueuedChannel : Type 0 where
  pub base : ClientChannel
  pub ing_request : Option Request
  pub waiting_list : List (ℕ × Request)
  pub fresh : ℕ

abbrev pub new_queued_channel : QueuedChannel
new_queued_channel = record { base = new_channel; ing_request = none; waiting_list = []; fresh = 0 }

-- The loops over all that wait.
unfoldable pub fail_waiting : List (ℕ × Request) → ClientChannel → ClientChannel
unfolding fail_request
fail_waiting [] c = c
fail_waiting (p ∷ ps) c = fail_waiting ps (fail_request conn_broken p.1 c)

unfoldable pub fail_ing : Option Request → ClientChannel → ClientChannel
unfolding fail_request
fail_ing none c = c
fail_ing (some r) c = fail_request conn_broken r c

unfoldable pub before_close_channel : QueuedChannel → QueuedChannel
unfolding fail_ing fail_waiting
before_close_channel ch = record ch {
  base = fail_waiting ch.waiting_list (fail_ing ch.ing_request ch.base);
  ing_request = none;
  waiting_list = [];
}

unfoldable pub on_codec_closed : QueuedChannel → QueuedChannel
unfolding before_close_channel tell remove_timer
on_codec_closed ch =
    let ch' = before_close_channel ch in record ch' { base = remove_timer (tell closed ch'.base) }

-- OnRequestTimeout, with the request if some pointer still holds it. The codec's CloseService is told
-- not to call back.
unfoldable pub on_request_timeout : Option Request → QueuedChannel → QueuedChannel
unfolding same_object fail_request on_codec_closed
on_request_timeout none ch = ch
on_request_timeout (some request) ch = elim ch.ing_request [
  | none ↦ ch
  | some ing ↦
      if request.object == ing.object
      then on_codec_closed
          (record ch { base = fail_request time_out request ch.base; ing_request = none })
      else ch
]

-- ClientChannel::CloseClientChannel.
unfoldable pub close_client_channel : QueuedChannel → QueuedChannel
unfolding before_close_channel on_codec_closed remove_timer
close_client_channel ch =
    let c1 = before_close_channel (record ch { base = record ch.base { state = closing } }) in
    let c2 = on_codec_closed (record c1 { base = record c1.base { has_delegate = false } }) in
    record c2 { base = record (remove_timer c2.base) { state = disconnected } }

-- A read through a reference to a node.
unfoldable pub read_node : ℕ → List (ℕ × Request) → Option Request
read_node i [] = none
read_node i (p ∷ ps) = let rest = read_node i ps in if p.0 == i then some p.1 else rest

module _ {C : Type 0} (codec_send : Request → C → Bool × (ℕ × C)) where
  -- The loop of TrySendNext. `next` refers to the node that pop_front takes out, and is read after it.
  unfoldable pub send_loop : List (ℕ × Request) → QueuedChannel → C → Option (QueuedChannel × C)
  unfolding read_node fail_request
  send_loop [] ch codec = some (record ch { waiting_list = [] }, codec)
  send_loop (front ∷ rest) ch codec =
      let (sent, (id, codec')) = codec_send front.1 codec in
      elim (read_node front.0 rest) [
        | none ↦ none
        | some next ↦ elim sent [
          | true ↦ some (record ch { ing_request = some next; waiting_list = rest }, codec')
          | false ↦
              send_loop rest (record ch { base = fail_request conn_broken next ch.base }) codec'
        ]
      ]

  unfoldable pub try_send_next : QueuedChannel → C → Option (QueuedChannel × C)
  unfolding send_loop
  try_send_next ch codec = elim ch.ing_request [
    | none ↦ send_loop ch.waiting_list ch codec
    | some ing ↦ some (ch, codec)
  ]

  unfoldable pub send_request : Request → QueuedChannel → C → Option (QueuedChannel × C)
  unfolding try_send_next
  send_request request ch codec =
      try_send_next
        (record ch {
          waiting_list = ch.waiting_list ++ (ch.fresh, request) ∷ [];
          fresh = ch.fresh + 1;
        })
        codec

  unfoldable pub on_codec_message : Response → QueuedChannel → C → Option (QueuedChannel × C)
  unfolding handle_response try_send_next
  on_codec_message res ch codec = elim ch.ing_request [
    | none ↦ some (ch, codec)
    | some ing ↦
        try_send_next
          (record ch { base = (handle_response ing (some res) ch.base).1; ing_request = none })
          codec
  ]

  -- OnHearbeatTimerInvoke, with the object that NewHeartbeat makes.
  unfoldable pub on_heartbeat_timer : ℕ → QueuedChannel → C → Option (QueuedChannel × C)
  unfolding send_request
  on_heartbeat_timer object ch codec = elim ch.base.heartbeat_message [
    | some pending ↦ some (ch, codec)
    | none ↦
        send_request (record { object = object; async_id = 0; fail_code = success })
          (record ch { base = record ch.base { heartbeat_message = some object } }) codec
  ]
