-- ===== src/Net/ClientChannel/Dangling.antt =====
-- TrySendNext, queued_channel.cc: the reference to the front of the list is read after pop_front.
use ltio.Common.{
  ℕ, ◌+◌, ◌≡◌, ◌≢◌, refl, sym, ap, ◌∙◌, subst, some_inj, Bool, false, List, [], ◌∷◌, ◌++◌, Option,
  none, some, ◌==◌, arith, All, Option-cases, inl, inr,
}
use ltio.Net.ClientChannel.{Request, Response, success, on_codec_ready}
use ltio.Net.ClientChannel.Queued.{
  QueuedChannel, new_queued_channel, read_node, before_close_channel, on_codec_closed,
  on_request_timeout, close_client_channel, send_loop, try_send_next, send_request,
  on_codec_message, on_heartbeat_timer,
}

-- A node that was taken out is not among others.
read_node-none :
    (i : ℕ) (ps : List (ℕ × Request))
    → All (λ (p : ℕ × Request). p.0 ≢ i) ps
    → read_node i ps ≡ none
unfolding read_node
read_node-none i [] a = refl
read_node-none i (p ∷ ps) a =
    let f : (p.0 == i) ≡ false = (let n = a.0 in ground (arith, n)) in
    rw f (read_node-none i ps a.1)

module _ {C : Type 0} (codec_send : Request → C → Bool × (ℕ × C)) where
  -- TrySendNext with nothing on its way and something that waits reads through a reference to a node that is
  -- destroyed, whatever the codec does.
  try_send_next_dangles :
      (ch : QueuedChannel) (codec : C) (front : ℕ × Request) (rest : List (ℕ × Request))
      → ch.ing_request ≡ none
      → ch.waiting_list ≡ front ∷ rest
      → All (λ (q : ℕ × Request). q.0 ≢ front.0) rest
      → try_send_next codec_send ch codec ≡ none
  unfolding try_send_next send_loop
  try_send_next_dangles ch codec front rest idle waits other =
      rw (try_send_next, idle, waits, send_loop, read_node-none front.0 rest other) refl

  -- Nothing is on its way and nothing waits.
  abbrev pub IsIdle : QueuedChannel → Type 0
  IsIdle ch = (ch.ing_request ≡ none) × (ch.waiting_list ≡ [])

  send_request_idle :
      (r : Request) (ch : QueuedChannel) (codec : C)
      → IsIdle ch
      → send_request codec_send r ch codec ≡ none
  unfolding send_request
  send_request_idle r ch codec h =
      try_send_next_dangles
        (record ch { waiting_list = ch.waiting_list ++ (ch.fresh, r) ∷ []; fresh = ch.fresh + 1 })
        codec (ch.fresh, r) [] h.0 (ap (λ (ps : List (ℕ × Request)). ps ++ (ch.fresh, r) ∷ []) h.1)
        tt

  same_channel :
      (ch ch' : QueuedChannel) (codec codec' : C)
      → IsIdle ch
      → ◌≡◌ {A = Option (QueuedChannel × C)} (some (ch, codec)) (some (ch', codec'))
      → IsIdle ch'
  same_channel ch ch' codec codec' h e =
      subst IsIdle (ap (λ (r : QueuedChannel × C). r.0) (some_inj e)) h

  on_heartbeat_timer-IsIdle :
      (object : ℕ) (ch ch' : QueuedChannel) (codec codec' : C)
      → IsIdle ch
      → on_heartbeat_timer codec_send object ch codec ≡ some (ch', codec')
      → IsIdle ch'
  unfolding on_heartbeat_timer
  on_heartbeat_timer-IsIdle object ch ch' codec codec' h e =
      elim (Option-cases ch.base.heartbeat_message) [
        | inl unsent ↦
            let request : Request = record { object = object; async_id = 0; fail_code = success } in
            let ch1 : QueuedChannel = record ch {
              base = record ch.base { heartbeat_message = some object };
            } in
            let f : send_request codec_send request ch1 codec ≡ some (ch', codec') =
              rw (on_heartbeat_timer, unsent) at e in
            let g = sym (send_request_idle request ch1 codec h) ∙ f in cc
        | inr (p, pending) ↦
            same_channel ch ch' codec codec' h (rw (on_heartbeat_timer, pending) at e)
      ]

  on_codec_message-IsIdle :
      (res : Response) (ch ch' : QueuedChannel) (codec codec' : C)
      → IsIdle ch
      → on_codec_message codec_send res ch codec ≡ some (ch', codec')
      → IsIdle ch'
  unfolding on_codec_message
  on_codec_message-IsIdle res ch ch' codec codec' h e =
      same_channel ch ch' codec codec' h (sym step ∙ e)
    where
      step : on_codec_message codec_send res ch codec ≡ some (ch, codec)
      step = simp (on_codec_message, h.0)

  -- The events of a channel, in any order, as long as none reads through a dangling reference.
  pub data Run : QueuedChannel → C → Type 0 where
    start : (codec : C) → Run new_queued_channel codec
    send :
        {ch ch' : QueuedChannel} {codec codec' : C} (r : Request)
        → Run ch codec
        → send_request codec_send r ch codec ≡ some (ch', codec')
        → Run ch' codec'
    heartbeat :
        {ch ch' : QueuedChannel} {codec codec' : C} (object : ℕ)
        → Run ch codec
        → on_heartbeat_timer codec_send object ch codec ≡ some (ch', codec')
        → Run ch' codec'
    message :
        {ch ch' : QueuedChannel} {codec codec' : C} (res : Response)
        → Run ch codec
        → on_codec_message codec_send res ch codec ≡ some (ch', codec')
        → Run ch' codec'
    timeout :
        {ch : QueuedChannel} {codec : C} (r : Option Request)
        → Run ch codec
        → Run (on_request_timeout r ch) codec
    codec_closed : {ch : QueuedChannel} {codec : C} → Run ch codec → Run (on_codec_closed ch) codec
    codec_ready :
        {ch : QueuedChannel} {codec : C} (keep : Bool) (ms : ℕ)
        → Run ch codec
        → Run (record ch { base = on_codec_ready keep ms ch.base }) codec
    close : {ch : QueuedChannel} {codec : C} → Run ch codec → Run (close_client_channel ch) codec

  Run-IsIdle : (ch : QueuedChannel) (codec : C) → Run ch codec → IsIdle ch
  unfolding on_heartbeat_timer on_codec_message on_request_timeout on_codec_closed
      close_client_channel before_close_channel
  Run-IsIdle _ _ (start codec) = (refl, refl)
  Run-IsIdle _ _ (send r run e) =
      let f = sym (send_request_idle r _ _ (Run-IsIdle _ _ run)) ∙ e in cc
  Run-IsIdle _ _ (heartbeat object run e) =
      on_heartbeat_timer-IsIdle object _ _ _ _ (Run-IsIdle _ _ run) e
  Run-IsIdle _ _ (message res run e) = on_codec_message-IsIdle res _ _ _ _ (Run-IsIdle _ _ run) e
  Run-IsIdle _ _ (timeout none run) = Run-IsIdle _ _ run
  Run-IsIdle _ _ (timeout (some r) run) =
      let h = Run-IsIdle _ _ run in rw (on_request_timeout, h.0) h
  Run-IsIdle _ _ (codec_closed run) = (refl, refl)
  Run-IsIdle _ _ (codec_ready keep ms run) = Run-IsIdle _ _ run
  Run-IsIdle _ _ (close run) = (refl, refl)

  -- SendRequest on a QueuedChannel is undefined, always: after any run of a channel, and whatever the
  -- codec does, it reads the request through a reference to a node of the list that pop_front has
  -- destroyed. A run that is defined has sent nothing: no request is on its way, and none waits.
  pub Run-send_request :
      (ch : QueuedChannel) (codec : C) (r : Request)
      → Run ch codec
      → (send_request codec_send r ch codec ≡ none)
        × (ch.ing_request ≡ none)
        × (ch.waiting_list ≡ [])
  Run-send_request ch codec r run =
      let h = Run-IsIdle ch codec run in (send_request_idle r ch codec h, h.0, h.1)
