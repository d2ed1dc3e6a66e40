-- ===== src/Net/ClientChannel/Accounts.antt =====
-- AsyncChannel, async_channel.cc: each request that is sent is in progress or answered, once.
use ltio.Common.{
  ℕ, ◌+◌, ◌≡◌, ◌≢◌, refl, sym, ap, ◌∙◌, some_inj, subst, ltb, ◌&&◌, Bool, true, false, List, [],
  ◌∷◌, none, some, ◌==◌, arith, Bool-cases, Option-cases, inl, inr, All, ==_iff,
}
use ltio.Net.ClientChannel.{
  Request, Response, ClientChannel, success, time_out, conn_broken, inited, closed, same_object,
  set_fail_code, tell, remove_timer, on_codec_ready,
}
use ltio.Net.ClientChannel.Async.{
  AsyncChannel, find, erase, insert, update_object, send_request, on_request_timeout, fail_all,
  on_codec_message, on_codec_closed, on_heartbeat_timer,
}
use ltio.Net.ClientChannel.Answers.{
  one_if, in_list, is_answer, answers, sum_by-append, Answers, handle_response-Answers,
  fail_request-Answers, fail_all-Answers, in_list-erase,
}

pub find-update_object :
    (id : ℕ) (r : Request) (ps : List (ℕ × Request))
    → find id ps ≡ none
    → find id (update_object r ps) ≡ none
unfolding find update_object
find-update_object id r [] e = refl
find-update_object id r (p ∷ ps) e = elim (Bool-cases (p.0 == id)) [
  | inl same ↦ let wrong = rw (find, same) at e in cc
  | inr other ↦
      let rest = find-update_object id r ps (rw (find, other) at e) in
      elim (Bool-cases (p.1.object == r.object)) [
        | inl shared ↦ rw (update_object, shared, find, other) rest
        | inr apart ↦ rw (update_object, apart, find, other) rest
      ]
]

in_list-update_object :
    (o : ℕ) (r : Request) (ps : List (ℕ × Request)) → in_list o (update_object r ps) ≡ in_list o ps
unfolding update_object
in_list-update_object o r [] = refl
in_list-update_object o r (p ∷ ps) = elim (Bool-cases (p.1.object == r.object)) [
  | inl shared ↦
      let same : p.1.object ≡ r.object = (==_iff p.1.object r.object).0 shared in
      rw (update_object, shared)
        (omega (arith, ap (λ t. one_if (t == o)) same, in_list-update_object o r ps))
  | inr apart ↦ rw (update_object, apart) (omega (arith, in_list-update_object o r ps))
]

module _ (owner : ℕ → ℕ) where
  -- A request in progress stands under an id that the codec gave to it.
  abbrev pub Keyed : ℕ × Request → Type 0
  Keyed p = owner p.0 ≡ p.1.object

  Keyed-erase : (id : ℕ) (ps : List (ℕ × Request)) → All Keyed ps → All Keyed (erase id ps)
  unfolding erase
  Keyed-erase id [] k = tt
  Keyed-erase id (p ∷ ps) k = elim (Bool-cases (p.0 == id)) [
    | inl same ↦ rw same k.1
    | inr other ↦ rw other (k.0, Keyed-erase id ps k.1)
  ]

  Keyed-update_object :
      (r : Request) (ps : List (ℕ × Request)) → All Keyed ps → All Keyed (update_object r ps)
  unfolding update_object
  Keyed-update_object r [] k = tt
  Keyed-update_object r (p ∷ ps) k = elim (Bool-cases (p.1.object == r.object)) [
    | inl shared ↦
        let same : p.1.object ≡ r.object = (==_iff p.1.object r.object).0 shared in
        rw shared (k.0 ∙ same, Keyed-update_object r ps k.1)
    | inr apart ↦ rw apart (k.0, Keyed-update_object r ps k.1)
  ]

  pub Keyed-find :
      (id : ℕ) (ps : List (ℕ × Request)) (r : Request)
      → All Keyed ps
      → find id ps ≡ some r
      → owner id ≡ r.object
  unfolding find
  Keyed-find id [] r k e = cc
  Keyed-find id (p ∷ ps) r k e = elim (Bool-cases (p.0 == id)) [
    | inl same ↦
        let f : p.1 ≡ r = some_inj (rw (find, same) at e) in
        let i : p.0 ≡ id = (==_iff p.0 id).0 same in rw (sym f, sym i) k.0
    | inr other ↦ Keyed-find id ps r k.1 (rw (find, other) at e)
  ]

  -- The books of one request that was sent `n` times.
  pub record Accounts (o n : ℕ) (ch : AsyncChannel) : Type 0 where
    pub told : ch.base.has_delegate ≡ true
    pub not_heartbeat : same_object ch.base.heartbeat_message o ≡ false
    pub balance : n ≡ in_list o ch.in_progress + answers o ch.base.events
    pub keyed : All Keyed ch.in_progress

  Accounts-step :
      (o n k : ℕ) (c c' : ClientChannel) (ps : List (ℕ × Request))
      → Answers o k c c'
      → All Keyed ps
      → n ≡ in_list o ps + (k + answers o c.events)
      → Accounts o n (record { base = c'; in_progress = ps })
  Accounts-step o n k c c' ps h keyed e = record {
    told = h.0.told;
    not_heartbeat = h.0.not_heartbeat;
    balance = omega (arith, e, h.1);
    keyed = keyed;
  }

  pub send_request-Accounts :
      (o n : ℕ) (sent : Bool) (id : ℕ) (r : Request) (ch : AsyncChannel)
      → owner id ≡ r.object
      → find id ch.in_progress ≡ none
      → Accounts o n ch
      → Accounts o (n + one_if (r.object == o)) (send_request sent id r ch)
  unfolding send_request insert
  send_request-Accounts o n true id r ch w fresh a =
      let sent = record r { async_id = id } in
      rw (send_request, insert, find-update_object id sent ch.in_progress fresh)
        (record {
          told = a.told;
          not_heartbeat = a.not_heartbeat;
          balance = omega (arith, a.balance, in_list-update_object o sent ch.in_progress);
          keyed = (w, Keyed-update_object sent ch.in_progress a.keyed);
        })
  send_request-Accounts o n false id r ch w fresh a =
      let failed = set_fail_code conn_broken (record r { async_id = id }) in
      Accounts-step o (n + one_if (r.object == o)) (one_if (r.object == o)) ch.base _
        (update_object failed ch.in_progress)
        (fail_request-Answers o conn_broken (record r { async_id = id }) ch.base
          (record { told = a.told; not_heartbeat = a.not_heartbeat }))
        (Keyed-update_object failed ch.in_progress a.keyed)
        (omega (arith, a.balance, in_list-update_object o failed ch.in_progress))

  pub on_request_timeout-Accounts :
      (o n : ℕ) (r : Request) (ch : AsyncChannel)
      → owner r.async_id ≡ r.object
      → Accounts o n ch
      → Accounts o n (on_request_timeout (some r) ch)
  unfolding on_request_timeout
  on_request_timeout-Accounts o n r ch w a = elim (Option-cases (find r.async_id ch.in_progress)) [
    | inl gone ↦ rw (on_request_timeout, gone) a
    | inr (held, e) ↦
        let w' = Keyed-find r.async_id ch.in_progress held a.keyed e in
        let rest = erase r.async_id ch.in_progress in
        let failed = set_fail_code time_out r in
        let same : held.object ≡ r.object = sym w' ∙ w in
        rw (on_request_timeout, e)
          (Accounts-step o n (one_if (r.object == o)) ch.base _ (update_object failed rest)
            (fail_request-Answers o time_out r ch.base
              (record { told = a.told; not_heartbeat = a.not_heartbeat }))
            (Keyed-update_object failed rest (Keyed-erase r.async_id ch.in_progress a.keyed))
            (omega (
              arith,
              a.balance,
              in_list-update_object o failed rest,
              in_list-erase o r.async_id ch.in_progress held e,
              ap (λ t. one_if (t == o)) same,
            )))
  ]

  pub on_codec_message-Accounts :
      (o n : ℕ) (res : Response) (ch ch' : AsyncChannel)
      → on_codec_message res ch ≡ some ch'
      → Accounts o n ch
      → Accounts o n ch'
  unfolding on_codec_message
  on_codec_message-Accounts o n res ch ch' m a =
      elim (Option-cases (find res.response_id ch.in_progress)) [
        | inl unknown ↦ subst (Accounts o n) (some_inj (rw (on_codec_message, unknown) at m)) a
        | inr (r, e) ↦ elim (Bool-cases (r.async_id == res.response_id)) [
          | inl checked ↦ subst (Accounts o n) (some_inj (rw (on_codec_message, e, checked) at m)) (
              Accounts-step o n (one_if (r.object == o)) ch.base _
                (erase res.response_id ch.in_progress)
                (handle_response-Answers o r (some res) ch.base
                  (record { told = a.told; not_heartbeat = a.not_heartbeat }))
                (Keyed-erase res.response_id ch.in_progress a.keyed)
                (omega (arith, a.balance, in_list-erase o res.response_id ch.in_progress r e)))
          | inr aborts ↦ let failed = rw (on_codec_message, e, aborts) at m in cc
        ]
      ]

  pub on_codec_closed-Accounts :
      (o n : ℕ) (ch : AsyncChannel) → Accounts o n ch → Accounts o n (on_codec_closed ch)
  unfolding on_codec_closed tell remove_timer
  on_codec_closed-Accounts o n ch a =
      let (h, e) =
        fail_all-Answers o ch.in_progress ch.base
          (record { told = a.told; not_heartbeat = a.not_heartbeat }) in
      let told : (fail_all ch.in_progress ch.base).has_delegate ≡ true = h.told in
      rw (on_codec_closed, tell, told)
        (record {
          told = refl;
          not_heartbeat = h.not_heartbeat;
          balance = omega (
            arith,
            a.balance,
            e,
            sum_by-append (is_answer o) (fail_all ch.in_progress ch.base).events (closed ∷ []),
          );
          keyed = tt;
        })

  pub on_codec_ready-Accounts :
      (o n ms : ℕ) (keep : Bool) (ch : AsyncChannel)
      → Accounts o n ch
      → Accounts o n (record ch { base = on_codec_ready keep ms ch.base })
  unfolding on_codec_ready tell
  on_codec_ready-Accounts o n ms keep ch a =
      let count = sum_by-append (is_answer o) ch.base.events (inited ∷ []) in
      elim (Bool-cases (keep && ltb 50 ms)) [
        | inl timer ↦
            rw (on_codec_ready, tell, a.told, timer)
              (record {
                told = refl;
                not_heartbeat = a.not_heartbeat;
                balance = omega (arith, a.balance, count);
                keyed = a.keyed;
              })
        | inr no_timer ↦
            rw (on_codec_ready, tell, a.told, no_timer)
              (record {
                told = refl;
                not_heartbeat = a.not_heartbeat;
                balance = omega (arith, a.balance, count);
                keyed = a.keyed;
              })
      ]

  pub on_heartbeat_timer-Accounts :
      (o n object id : ℕ) (sent : Bool) (ch : AsyncChannel)
      → object ≢ o
      → owner id ≡ object
      → find id ch.in_progress ≡ none
      → Accounts o n ch
      → Accounts o n (on_heartbeat_timer object sent id ch)
  unfolding on_heartbeat_timer
  on_heartbeat_timer-Accounts o n object id sent ch other w fresh a =
      elim (Option-cases ch.base.heartbeat_message) [
        | inl idle ↦
            let free : (object == o) ≡ false = ground (arith, other) in
            let beat : Request = record { object = object; async_id = 0; fail_code = success } in
            let ch' : AsyncChannel = record ch {
              base = record ch.base { heartbeat_message = some object };
            } in
            let after : Accounts o (n + one_if (object == o)) (send_request sent id beat ch') =
              send_request-Accounts o n sent id beat ch' w fresh (record {
                told = a.told;
                not_heartbeat = free;
                balance = a.balance;
                keyed = a.keyed;
              }) in
            let same : n + one_if (object == o) ≡ n = rw free (omega arith) in
            rw (on_heartbeat_timer, idle)
              (subst (λ m. Accounts o m (send_request sent id beat ch')) same after)
        | inr (p, pending) ↦ rw (on_heartbeat_timer, pending) a
      ]
