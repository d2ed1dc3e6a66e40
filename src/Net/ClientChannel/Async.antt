-- ===== src/Net/ClientChannel/Async.antt =====
-- AsyncChannel, net_io/clients/async_channel.{h,cc}: requests in progress, found by their id. An
-- std::unordered_map is an association list; its order is one of those that a loop may take. The
-- entries of one object are a shared pointer to it: what changes the object changes each of them.
use ltio.Common.{ℕ, Bool, false, List, [], ◌∷◌, Option, none, some, ◌==◌, if◌then◌else◌}
use ltio.Net.ClientChannel.{
  Request, Response, ClientChannel, closing, disconnected, success, time_out, conn_broken, closed,
  handle_response, set_fail_code, fail_request, tell, remove_timer, new_channel,
}

pub record AsyncChannel : Type 0 where
  pub base : ClientChannel
  pub in_progress : List (ℕ × Request)

abbrev pub new_async_channel : AsyncChannel
new_async_channel = record { base = new_channel; in_progress = [] }

unfoldable pub find : ℕ → List (ℕ × Request) → Option Request
find id [] = none
find id (p ∷ ps) = let rest = find id ps in if p.0 == id then some p.1 else rest

-- erase by key.
unfoldable pub erase : ℕ → List (ℕ × Request) → List (ℕ × Request)
erase id [] = []
erase id (p ∷ ps) = let rest = erase id ps in if p.0 == id then ps else p ∷ rest

-- insert, which does not replace.
unfoldable pub insert : ℕ → Request → List (ℕ × Request) → List (ℕ × Request)
unfolding find
insert id r ps = elim (find id ps) [ none ↦ (id, r) ∷ ps | some held ↦ ps ]

-- A change of an object, seen through every pointer to it.
unfoldable pub update_object : Request → List (ℕ × Request) → List (ℕ × Request)
update_object r [] = []
update_object r (p ∷ ps) =
    let rest = update_object r ps in if p.1.object == r.object then (p.0, r) ∷ rest else p ∷ rest

-- SendRequest, with what the codec answers and the id that it sets.
unfoldable pub send_request : Bool → ℕ → Request → AsyncChannel → AsyncChannel
unfolding insert update_object set_fail_code fail_request
send_request sent id request ch =
    let r = record request { async_id = id } in
    if sent
    then record ch { in_progress = insert id r (update_object r ch.in_progress) }
    else record {
      base = fail_request conn_broken r ch.base;
      in_progress = update_object (set_fail_code conn_broken r) ch.in_progress;
    }

-- OnRequestTimeout, with the request if some pointer still holds it.
unfoldable pub on_request_timeout : Option Request → AsyncChannel → AsyncChannel
unfolding find erase update_object set_fail_code fail_request
on_request_timeout none ch = ch
on_request_timeout (some request) ch = elim (find request.async_id ch.in_progress) [
  | none ↦ ch
  | some held ↦ record {
    base = fail_request time_out request ch.base;
    in_progress =
        update_object (set_fail_code time_out request) (erase request.async_id ch.in_progress);
  }
]

-- The loops over all requests in progress.
unfoldable pub fail_all : List (ℕ × Request) → ClientChannel → ClientChannel
unfolding fail_request
fail_all [] c = c
fail_all (p ∷ ps) c = fail_all ps (fail_request conn_broken p.1 c)

unfoldable pub before_close_channel : AsyncChannel → AsyncChannel
unfolding fail_all
before_close_channel ch = record { base = fail_all ch.in_progress ch.base; in_progress = [] }

-- OnCodecMessage; `none` is the CHECK of the id.
unfoldable pub on_codec_message : Response → AsyncChannel → Option AsyncChannel
unfolding find erase handle_response
on_codec_message res ch = elim (find res.response_id ch.in_progress) [
  | none ↦ some ch
  | some request ↦
      if request.async_id == res.response_id
      then some (record {
        base = (handle_response request (some res) ch.base).1;
        in_progress = erase res.response_id ch.in_progress;
      })
      else none
]

unfoldable pub on_codec_closed : AsyncChannel → AsyncChannel
unfolding fail_all tell remove_timer
on_codec_closed ch = record {
  base = remove_timer (tell closed (fail_all ch.in_progress ch.base));
  in_progress = [];
}

-- ClientChannel::CloseClientChannel. The codec's CloseService is told not to call back.
unfoldable pub close_client_channel : AsyncChannel → AsyncChannel
unfolding before_close_channel on_codec_closed remove_timer
close_client_channel ch =
    let c1 = before_close_channel (record ch { base = record ch.base { state = closing } }) in
    let c2 = on_codec_closed (record c1 { base = record c1.base { has_delegate = false } }) in
    record c2 { base = record (remove_timer c2.base) { state = disconnected } }

-- OnHearbeatTimerInvoke, with the object that NewHeartbeat makes.
unfoldable pub on_heartbeat_timer : ℕ → Bool → ℕ → AsyncChannel → AsyncChannel
unfolding send_request
on_heartbeat_timer object sent id ch = elim ch.base.heartbeat_message [
  | some pending ↦ ch
  | none ↦
      send_request sent id (record { object = object; async_id = 0; fail_code = success })
        (record ch { base = record ch.base { heartbeat_message = some object } })
]
