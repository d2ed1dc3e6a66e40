-- ===== src/Net/ClientChannel/Late.antt =====
-- AsyncChannel, async_channel.cc and client_channel.cc: a channel after CloseClientChannel.
use ltio.Common.{
  ℕ, ◌≡◌, refl, ◌∙◌, some_inj, subst, Bool, true, false, List, [], ◌∷◌, Option, none, some, ◌==◌,
  Bool-cases, Option-cases, inl, inr,
}
use ltio.Net.ClientChannel.{
  FailCode, Request, Response, Event, ClientChannel, success, conn_broken, time_out, closing,
  closed, same_object, handle_response, fail_request, set_fail_code, tell, remove_timer,
  on_codec_ready,
}
use ltio.Net.ClientChannel.Async.{
  AsyncChannel, find, send_request, on_request_timeout, fail_all, before_close_channel,
  on_codec_message, on_codec_closed, close_client_channel, on_heartbeat_timer,
}

-- What may still happen, with nothing asked of ids.
pub data Late (first : AsyncChannel) : AsyncChannel → Type 0 where
  here : Late first first
  send :
      {ch : AsyncChannel} (sent : Bool) (id : ℕ) (r : Request)
      → Late first ch
      → Late first (send_request sent id r ch)
  heartbeat :
      {ch : AsyncChannel} (object id : ℕ) (sent : Bool)
      → Late first ch
      → Late first (on_heartbeat_timer object sent id ch)
  timeout :
      {ch : AsyncChannel} (r : Option Request)
      → Late first ch
      → Late first (on_request_timeout r ch)
  message :
      {ch ch' : AsyncChannel} (res : Response)
      → on_codec_message res ch ≡ some ch'
      → Late first ch
      → Late first ch'
  codec_closed : {ch : AsyncChannel} → Late first ch → Late first (on_codec_closed ch)
  codec_ready :
      {ch : AsyncChannel} (keep : Bool) (ms : ℕ)
      → Late first ch
      → Late first (record ch { base = on_codec_ready keep ms ch.base })
  close_again : {ch : AsyncChannel} → Late first ch → Late first (close_client_channel ch)

-- Nobody is told anything.
record Silent (c c' : ClientChannel) : Type 0 where
  unheard : c'.has_delegate ≡ false
  same : c'.events ≡ c.events

Silent-trans :
    {c1 c2 c3 : ClientChannel}
    → Silent c1 c2
    → (c2.has_delegate ≡ false → Silent c2 c3)
    → Silent c1 c3
Silent-trans h next = record {
  unheard = (next h.unheard).unheard;
  same = (next h.unheard).same ∙ h.same;
}

handle_response-Silent :
    (r : Request) (res : Option Response) (c : ClientChannel)
    → c.has_delegate ≡ false
    → Silent c (handle_response r res c).1
unfolding handle_response
handle_response-Silent r res c h = elim (Bool-cases (same_object c.heartbeat_message r.object)) [
  | inl beat ↦ rw beat (record { unheard = h; same = refl })
  | inr ordinary ↦ rw (ordinary, h) (record { unheard = refl; same = refl })
]

fail_request-Silent :
    (code : FailCode) (r : Request) (c : ClientChannel)
    → c.has_delegate ≡ false
    → Silent c (fail_request code r c)
unfolding fail_request
fail_request-Silent code r c h = handle_response-Silent (set_fail_code code r) none c h

fail_all-Silent :
    (ps : List (ℕ × Request)) (c : ClientChannel)
    → c.has_delegate ≡ false
    → Silent c (fail_all ps c)
unfolding fail_all
fail_all-Silent [] c h = (record { unheard = h; same = refl })
fail_all-Silent (p ∷ ps) c h =
    Silent-trans (fail_request-Silent conn_broken p.1 c h)
      (fail_all-Silent ps (fail_request conn_broken p.1 c))

tell-Silent : (e : Event) (c : ClientChannel) → c.has_delegate ≡ false → Silent c (tell e c)
unfolding tell
tell-Silent e c h = rw h (record { unheard = refl; same = refl })

send_request-Silent :
    (sent : Bool) (id : ℕ) (r : Request) (ch : AsyncChannel)
    → ch.base.has_delegate ≡ false
    → Silent ch.base (send_request sent id r ch).base
unfolding send_request
send_request-Silent true id r ch h = (record { unheard = h; same = refl })
send_request-Silent false id r ch h =
    fail_request-Silent conn_broken (record r { async_id = id }) ch.base h

on_request_timeout-Silent :
    (r : Option Request) (ch : AsyncChannel)
    → ch.base.has_delegate ≡ false
    → Silent ch.base (on_request_timeout r ch).base
unfolding on_request_timeout
on_request_timeout-Silent none ch h = (record { unheard = h; same = refl })
on_request_timeout-Silent (some r) ch h = elim (Option-cases (find r.async_id ch.in_progress)) [
  | inl gone ↦ rw (on_request_timeout, gone) (record { unheard = h; same = refl })
  | inr (held, e) ↦ rw (on_request_timeout, e) (fail_request-Silent time_out r ch.base h)
]

on_heartbeat_timer-Silent :
    (object id : ℕ) (sent : Bool) (ch : AsyncChannel)
    → ch.base.has_delegate ≡ false
    → Silent ch.base (on_heartbeat_timer object sent id ch).base
unfolding on_heartbeat_timer
on_heartbeat_timer-Silent object id sent ch h = elim (Option-cases ch.base.heartbeat_message) [
  | inl idle ↦
      let s =
        send_request-Silent sent id (record { object = object; async_id = 0; fail_code = success })
          (record ch { base = record ch.base { heartbeat_message = some object } }) h in
      rw (on_heartbeat_timer, idle) (record { unheard = s.unheard; same = s.same })
  | inr (p, pending) ↦ rw (on_heartbeat_timer, pending) (record { unheard = h; same = refl })
]

on_codec_message-Silent :
    (res : Response) (ch ch' : AsyncChannel)
    → ch.base.has_delegate ≡ false
    → on_codec_message res ch ≡ some ch'
    → Silent ch.base ch'.base
unfolding on_codec_message
on_codec_message-Silent res ch ch' h e = elim (Option-cases (find res.response_id ch.in_progress)) [
  | inl unknown ↦
      let same : some ch ≡ some ch' = rw (on_codec_message, unknown) at e in
      subst (λ c. Silent ch.base c.base) (some_inj same) (record { unheard = h; same = refl })
  | inr (r, f) ↦ elim (Bool-cases (r.async_id == res.response_id)) [
    | inl checked ↦
        let after = rw (on_codec_message, f, checked) at e in
        subst (λ c. Silent ch.base c.base) (some_inj after)
          (handle_response-Silent r (some res) ch.base h)
    | inr wrong ↦ let failed = rw (on_codec_message, f, wrong) at e in cc
  ]
]

on_codec_closed-Silent :
    (ch : AsyncChannel) → ch.base.has_delegate ≡ false → Silent ch.base (on_codec_closed ch).base
unfolding on_codec_closed remove_timer
on_codec_closed-Silent ch h =
    let s =
      Silent-trans (fail_all-Silent ch.in_progress ch.base h)
        (tell-Silent closed (fail_all ch.in_progress ch.base)) in
    record { unheard = s.unheard; same = s.same }

on_codec_ready-Silent :
    (keep : Bool) (ms : ℕ) (c : ClientChannel)
    → c.has_delegate ≡ false
    → Silent c (on_codec_ready keep ms c)
unfolding on_codec_ready tell
on_codec_ready-Silent true ms c h = rw (on_codec_ready, h) (record { unheard = refl; same = refl })
on_codec_ready-Silent false ms c h =
    rw (on_codec_ready, tell, h) (record { unheard = refl; same = refl })

close_client_channel-Silent :
    (ch : AsyncChannel)
    → ch.base.has_delegate ≡ false
    → Silent ch.base (close_client_channel ch).base
unfolding close_client_channel before_close_channel on_codec_closed fail_all tell remove_timer
close_client_channel-Silent ch h =
    let s = fail_all-Silent ch.in_progress (record ch.base { state = closing }) h in
    record { unheard = refl; same = s.same }

Late-Silent :
    (first later : AsyncChannel)
    → first.base.has_delegate ≡ false
    → Late first later
    → Silent first.base later.base
Late-Silent first _ h here = (record { unheard = h; same = refl })
Late-Silent first _ h (send sent id r run) =
    Silent-trans (Late-Silent first _ h run) (send_request-Silent sent id r _)
Late-Silent first _ h (heartbeat object id sent run) =
    Silent-trans (Late-Silent first _ h run) (on_heartbeat_timer-Silent object id sent _)
Late-Silent first _ h (timeout r run) =
    Silent-trans (Late-Silent first _ h run) (on_request_timeout-Silent r _)
Late-Silent first _ h (message res m run) =
    Silent-trans (Late-Silent first _ h run) (λ h1. on_codec_message-Silent res _ _ h1 m)
Late-Silent first _ h (codec_closed run) =
    Silent-trans (Late-Silent first _ h run) (on_codec_closed-Silent _)
Late-Silent first _ h (codec_ready keep ms run) =
    Silent-trans (Late-Silent first _ h run) (on_codec_ready-Silent keep ms _)
Late-Silent first _ h (close_again run) =
    Silent-trans (Late-Silent first _ h run) (close_client_channel-Silent _)

-- Once CloseClientChannel has run, nobody is told anything any more, whatever happens next: a request that
-- SendRequest gets later is never answered, neither by a response nor by a failure.
pub close_client_channel-silent :
    (ch later : AsyncChannel)
    → Late (close_client_channel ch) later
    → later.base.events ≡ (close_client_channel ch).base.events
unfolding close_client_channel before_close_channel on_codec_closed fail_all tell remove_timer
close_client_channel-silent ch later run =
    (Late-Silent (close_client_channel ch) later refl run).same
