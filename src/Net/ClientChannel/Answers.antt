-- ===== src/Net/ClientChannel/Answers.antt =====
-- HandleResponse, client_channel.cc: how often a request is answered.
use ltio.Common.{
  ℕ, ◌+◌, ◌≡◌, refl, ap, some_inj, Bool, true, false, List, [], ◌∷◌, ◌++◌, Option, none, some, ◌==◌,
  if◌then◌else◌, arith, Bool-cases, inl, inr, sum_by,
}
use ltio.Net.ClientChannel.{
  FailCode, Request, Response, Event, ClientChannel, conn_broken, answered, same_object,
  handle_response, fail_request, set_fail_code,
}
use ltio.Net.ClientChannel.Async.{find, erase, fail_all}

abbrev pub one_if : Bool → ℕ
one_if t = if t then 1 else 0

-- How often a request stands in a list of those in progress, and how often it was answered.
abbrev pub in_list : ℕ → List (ℕ × Request) → ℕ
in_list o = sum_by (λ p. one_if (p.1.object == o))

abbrev pub is_answer : ℕ → Event → ℕ
is_answer o (answered request response) = one_if (request.object == o)
is_answer o _ = 0

abbrev pub answers : ℕ → List Event → ℕ
answers o = sum_by (is_answer o)

pub sum_by-append {ℓ} :
    {A : Type ℓ} (w : A → ℕ) (xs ys : List A) → sum_by w (xs ++ ys) ≡ sum_by w xs + sum_by w ys
sum_by-append w [] ys = omega arith
sum_by-append w (x ∷ xs) ys = omega (arith, sum_by-append w xs ys)

-- The channel tells its delegate, and a request is no heartbeat.
pub record Ordinary (o : ℕ) (c : ClientChannel) : Type 0 where
  pub told : c.has_delegate ≡ true
  pub not_heartbeat : same_object c.heartbeat_message o ≡ false

-- What an answer to a request does to the count of those to `o`.
abbrev pub Answers : ℕ → ℕ → ClientChannel → ClientChannel → Type 0
Answers o n c c' = Ordinary o c' × (answers o c'.events ≡ n + answers o c.events)

pub handle_response-Answers :
    (o : ℕ) (r : Request) (res : Option Response) (c : ClientChannel)
    → Ordinary o c
    → Answers o (one_if (r.object == o)) c (handle_response r res c).1
unfolding handle_response same_object
handle_response-Answers o r res c h = elim (Bool-cases (same_object c.heartbeat_message r.object)) [
  | inl beat ↦
      let other : (r.object == o) ≡ false =
        other_object o r.object c.heartbeat_message beat h.not_heartbeat in
      rw (beat, other) (record { told = h.told; not_heartbeat = refl }, omega arith)
  | inr ordinary ↦
      rw (ordinary, h.told)
        (
          record { told = refl; not_heartbeat = h.not_heartbeat },
          omega (arith, sum_by-append (is_answer o) c.events (answered r res ∷ [])),
        )
]
  where
    other_object :
        (o object : ℕ) (held : Option ℕ)
        → same_object held object ≡ true
        → same_object held o ≡ false
        → (object == o) ≡ false
    other_object o object none b n = cc
    other_object o object (some held) b n = ground (arith, b, n)

pub fail_request-Answers :
    (o : ℕ) (code : FailCode) (r : Request) (c : ClientChannel)
    → Ordinary o c
    → Answers o (one_if (r.object == o)) c (fail_request code r c)
unfolding fail_request set_fail_code
fail_request-Answers o code r c h = handle_response-Answers o (set_fail_code code r) none c h

pub fail_all-Answers :
    (o : ℕ) (ps : List (ℕ × Request)) (c : ClientChannel)
    → Ordinary o c
    → Answers o (in_list o ps) c (fail_all ps c)
unfolding fail_all
fail_all-Answers o [] c h = (h, omega arith)
fail_all-Answers o (p ∷ ps) c h =
    let (h1, n1) = fail_request-Answers o conn_broken p.1 c h in
    let (h2, n2) = fail_all-Answers o ps (fail_request conn_broken p.1 c) h1 in
    (h2, omega (arith, n1, n2))

pub in_list-erase :
    (o id : ℕ) (ps : List (ℕ × Request)) (r : Request)
    → find id ps ≡ some r
    → in_list o ps ≡ one_if (r.object == o) + in_list o (erase id ps)
unfolding find erase
in_list-erase o id [] r e = cc
in_list-erase o id (p ∷ ps) r e = elim (Bool-cases (p.0 == id)) [
  | inl same ↦
      let f = rw (find, same) at e in
      rw same (ap (λ t. one_if (t.object == o) + in_list o ps) (some_inj f))
  | inr other ↦ let f = rw (find, other) at e in rw other (omega (arith, in_list-erase o id ps r f))
]
