-- ===== src/Net/ClientChannel/Order.antt =====
-- QueuedChannel, queued_channel.cc: what closing tells of the requests that a channel holds.
use ltio.Common.{
  ℕ, ◌≡◌, refl, sym, ap, ◌∙◌, subst, Bool, true, false, List, [], ◌∷◌, ◌++◌, Option, none, some,
  if◌then◌else◌, Bool-cases, inl, inr, ==_iff,
}
use mathlib.Core.List.{append-nil, append_assoc}
use ltio.Net.ClientChannel.{
  FailCode, Request, Response, Event, ClientChannel, conn_broken, closed, inited, answered,
  same_object, handle_response, fail_request, set_fail_code, tell, remove_timer, closing,
  disconnected,
}
use ltio.Net.ClientChannel.Queued.{
  QueuedChannel, fail_waiting, fail_ing, before_close_channel, on_codec_closed,
  close_client_channel,
}

abbrev pub told_objects : List Event → List ℕ
told_objects [] = []
told_objects (answered request response ∷ es) = request.object ∷ told_objects es
told_objects (e ∷ es) = told_objects es

abbrev pub held_objects : Option Request → List ℕ
held_objects none = []
held_objects (some r) = r.object ∷ []

abbrev pub objects : List (ℕ × Request) → List ℕ
objects [] = []
objects (p ∷ ps) = p.1.object ∷ objects ps

told_objects-append :
    (es : List Event) (r : Request) (res : Option Response)
    → told_objects (es ++ answered r res ∷ []) ≡ told_objects es ++ r.object ∷ []
told_objects-append [] r res = refl
told_objects-append (answered q s ∷ es) r res =
    ap (λ t. q.object ∷ t) (told_objects-append es r res)
told_objects-append (inited ∷ es) r res = told_objects-append es r res
told_objects-append (closed ∷ es) r res = told_objects-append es r res

told_objects-closed : (es : List Event) → told_objects (es ++ closed ∷ []) ≡ told_objects es
told_objects-closed [] = refl
told_objects-closed (answered q s ∷ es) = ap (λ t. q.object ∷ t) (told_objects-closed es)
told_objects-closed (inited ∷ es) = told_objects-closed es
told_objects-closed (closed ∷ es) = told_objects-closed es

module _ (is_beat : ℕ → Bool) where
  -- The objects that are no heartbeats.
  abbrev pub ordinary : List ℕ → List ℕ
  ordinary [] = []
  ordinary (o ∷ os) = let rest = ordinary os in if is_beat o then rest else o ∷ rest

  pub ordinary-append : (xs ys : List ℕ) → ordinary (xs ++ ys) ≡ ordinary xs ++ ordinary ys
  ordinary-append [] ys = refl
  ordinary-append (o ∷ os) ys = elim (Bool-cases (is_beat o)) [
    | inl beat ↦ rw beat (ordinary-append os ys)
    | inr other ↦ rw other (ap (λ t. o ∷ t) (ordinary-append os ys))
  ]

  abbrev pub IsBeat : Option ℕ → Type 0
  IsBeat none = Unit
  IsBeat (some o) = is_beat o ≡ true

  -- The delegate is told, and only a heartbeat is held as one.
  pub record Tells (c : ClientChannel) : Type 0 where
    pub told : c.has_delegate ≡ true
    pub beat : IsBeat c.heartbeat_message

  abbrev pub TellsMore : List ℕ → ClientChannel → ClientChannel → Type 0
  TellsMore os c c' =
      Tells c'
      × (ordinary (told_objects c'.events) ≡ ordinary (told_objects c.events) ++ ordinary os)

  beat_object :
      (held : Option ℕ) (o : ℕ) → IsBeat held → same_object held o ≡ true → is_beat o ≡ true
  unfolding same_object
  beat_object none o b e = cc
  beat_object (some h) o b e = subst (λ t. is_beat t ≡ true) ((==_iff h o).0 e) b

  pub handle_response-TellsMore :
      (r : Request) (res : Option Response) (c : ClientChannel)
      → Tells c
      → TellsMore (r.object ∷ []) c (handle_response r res c).1
  unfolding handle_response
  handle_response-TellsMore r res c h =
      elim (Bool-cases (same_object c.heartbeat_message r.object)) [
        | inl beat ↦
            let b = beat_object c.heartbeat_message r.object h.beat beat in
            rw (beat, b)
              (
                record { told = h.told; beat = tt },
                sym (append-nil (ordinary (told_objects c.events))),
              )
        | inr other ↦
            rw (other, h.told)
              (
                record { told = refl; beat = h.beat },
                ap ordinary (told_objects-append c.events r res)
                    ∙ ordinary-append (told_objects c.events) (r.object ∷ []),
              )
      ]

  pub fail_request-TellsMore :
      (code : FailCode) (r : Request) (c : ClientChannel)
      → Tells c
      → TellsMore (r.object ∷ []) c (fail_request code r c)
  unfolding fail_request set_fail_code
  fail_request-TellsMore code r c h = handle_response-TellsMore (set_fail_code code r) none c h

  -- What is told first comes first.
  TellsMore-trans :
      (os ps : List ℕ) (c1 c2 c3 : ClientChannel)
      → TellsMore os c1 c2
      → (Tells c2 → TellsMore ps c2 c3)
      → TellsMore (os ++ ps) c1 c3
  TellsMore-trans os ps c1 c2 c3 h next =
      let (t, e) = next h.0 in
      (
        t,
        e
            ∙ ap (λ l. l ++ ordinary ps) h.1
            ∙ append_assoc (ordinary (told_objects c1.events)) (ordinary os) (ordinary ps)
            ∙ ap (λ l. ordinary (told_objects c1.events) ++ l) (sym (ordinary-append os ps)),
      )

  fail_waiting-TellsMore :
      (rs : List (ℕ × Request)) (c : ClientChannel)
      → Tells c
      → TellsMore (objects rs) c (fail_waiting rs c)
  unfolding fail_waiting
  fail_waiting-TellsMore [] c h = (h, sym (append-nil (ordinary (told_objects c.events))))
  fail_waiting-TellsMore (p ∷ rs) c h =
      TellsMore-trans (p.1.object ∷ []) (objects rs) c (fail_request conn_broken p.1 c)
        (fail_waiting rs (fail_request conn_broken p.1 c))
        (fail_request-TellsMore conn_broken p.1 c h)
        (fail_waiting-TellsMore rs (fail_request conn_broken p.1 c))

  fail_ing-TellsMore :
      (ing : Option Request) (c : ClientChannel)
      → Tells c
      → TellsMore (held_objects ing) c (fail_ing ing c)
  unfolding fail_ing
  fail_ing-TellsMore none c h = (h, sym (append-nil (ordinary (told_objects c.events))))
  fail_ing-TellsMore (some r) c h = fail_request-TellsMore conn_broken r c h

  pub before_close_channel-TellsMore :
      (ch : QueuedChannel)
      → Tells ch.base
      → TellsMore
          (held_objects ch.ing_request ++ objects ch.waiting_list)
          ch.base
          (before_close_channel ch).base
  unfolding before_close_channel
  before_close_channel-TellsMore ch h =
      TellsMore-trans (held_objects ch.ing_request) (objects ch.waiting_list) ch.base
        (fail_ing ch.ing_request ch.base)
        (fail_waiting ch.waiting_list (fail_ing ch.ing_request ch.base))
        (fail_ing-TellsMore ch.ing_request ch.base h)
        (fail_waiting-TellsMore ch.waiting_list (fail_ing ch.ing_request ch.base))

  -- CloseClientChannel of a channel with a delegate tells it of the request on its way first and then of
  -- those that wait, in their order, each once, but for heartbeats; it leaves nothing on its way or
  -- waiting, and the channel disconnected, without delegate and timer.
  pub close_client_channel-in_order :
      (ch : QueuedChannel)
      → Tells ch.base
      → (ordinary (told_objects (close_client_channel ch).base.events)
          ≡ ordinary (told_objects ch.base.events)
            ++ ordinary (held_objects ch.ing_request ++ objects ch.waiting_list))
        × ((close_client_channel ch).ing_request ≡ none)
        × ((close_client_channel ch).waiting_list ≡ [])
        × ((close_client_channel ch).base.state ≡ disconnected)
        × ((close_client_channel ch).base.has_delegate ≡ false)
        × ((close_client_channel ch).base.has_timer ≡ false)
  unfolding close_client_channel before_close_channel on_codec_closed fail_waiting fail_ing tell
      remove_timer
  close_client_channel-in_order ch h =
      let (_, e) =
        before_close_channel-TellsMore (record ch { base = record ch.base { state = closing } })
          (record { told = h.told; beat = h.beat }) in
      (e, refl, refl, refl, refl, refl)
