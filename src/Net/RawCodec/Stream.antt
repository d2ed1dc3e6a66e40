-- ===== src/Net/RawCodec/Stream.antt =====
-- RawCodecService::OnDataReceived, raw_codec_service.h: a stream of frames, in any pieces.
use ltio.Common.{
  ℕ, zero, suc, ◌<◌, ◌≡◌, refl, sym, ap, ◌∙◌, Bool, true, ◌&&◌, List, [], ◌∷◌, ◌++◌, Option, none,
  some, if◌then◌else◌, ◌==◌, ltb, ltb→lt, ltb_false→le, length, arith, Bool-cases, inl, inr,
  length-append, All,
}
use mathlib.Core.List.{append-nil, append_assoc}
use mathlib.Core.Option as Option
use ltio.Common.Int.{ℤ}
use ltio.Common.Slices.{append_split}
use ltio.Net.Buffer.{IoBuffer, as_string}
use ltio.Net.Buffer.Contents.{IsValid}
use ltio.Net.Line.Roundtrip.{Keeps}
use ltio.Net.RawCodec.{
  RawMessage, header_bytes, new_heartbeat, is_heartbeat, set_async_id, decode, encode_to,
  send_response, on_message, receive_loop,
}
use ltio.Net.RawCodec.Decode.{
  IsFrame, frame, frame-length, no_content, decode_short, decode-frame, decode_partial,
}

-- The bytes of a sequence of messages.
abbrev pub frames : List ℕ → List RawMessage → List ℕ
frames padding [] = []
frames padding (m ∷ ms) = frame padding m ++ frames padding ms

-- What the handler gets of messages: on the server's side no heartbeats.
abbrev pub delivered : Bool → List RawMessage → List RawMessage
delivered server_side [] = []
delivered server_side (m ∷ ms) =
    let rest = delivered server_side ms in if server_side && is_heartbeat m then rest else m ∷ rest

-- The answer to a heartbeat, and what the server's side writes for messages.
abbrev pub answer : RawMessage → RawMessage
answer m = set_async_id m.header.sequence_id new_heartbeat

abbrev pub answered : List ℕ → Bool → List RawMessage → List ℕ
answered padding server_side [] = []
answered padding server_side (m ∷ ms) =
    let rest = answered padding server_side ms in
    if server_side && is_heartbeat m then frame padding (answer m) ++ rest else rest

==_refl : (n : ℕ) → (n == n) ≡ true
==_refl n = ground arith

module _ (padding : List ℕ) (send : List ℕ → List ℕ → ℤ × List ℕ) where
  -- EncodeTo of a frame to a channel that keeps all bytes writes the frame's bytes.
  pub encode_to-frame :
      (m : RawMessage) (sent : List ℕ)
      → Keeps send
      → m.header.content_size ≡ length m.content
      → encode_to padding send m sent ≡ some (true, sent ++ frame padding m)
  unfolding encode_to
  encode_to-frame m sent k e =
      let bytes = header_bytes padding m.header in
      let sized : (length m.content == m.header.content_size) ≡ true = ground (arith, e) in
      rw (sized, k bytes sent, k m.content (sent ++ bytes), append_assoc sent bytes m.content)

  on_message_lem :
      (server_side : Bool) (m : RawMessage) (sent : List ℕ)
      → Keeps send
      → on_message padding send server_side true m sent
        ≡ some (delivered server_side (m ∷ []), sent ++ answered padding server_side (m ∷ []))
  unfolding on_message send_response
  on_message_lem server_side m sent k = elim (Bool-cases (server_side && is_heartbeat m)) [
    | inl beat ↦
        rw (beat, ==_refl m.header.sequence_id)
          (ap (Option.map (λ r. ([], r.1))) (encode_to-frame (answer m) sent k refl)
            ∙ ap (λ s. some ([], sent ++ s)) (sym (append-nil (frame padding (answer m)))))
    | inr other ↦ rw (other) (ap (λ s. some (m ∷ [], s)) (sym (append-nil sent)))
  ]

-- What is left of a stream is not whole: the bytes to read are fewer than the first frame's.
abbrev pub IsPart : List ℕ → List RawMessage → IoBuffer → Type 0
IsPart padding [] buf = as_string buf ≡ []
IsPart padding (m ∷ ms) buf = length (as_string buf) < length (frame padding m)

-- After a part of a stream of messages, of which `later` is still to come: the handler got the messages
-- that are whole, in order, heartbeats were answered, and the buffer holds the start of the rest.
pub record Received (padding : List ℕ) (server_side : Bool) (ms : List RawMessage)
    (later sent : List ℕ) (result : Option (List RawMessage × (IoBuffer × List ℕ))) : Type 0 where
  pub whole : List RawMessage
  pub left : List RawMessage
  pub buf : IoBuffer
  pub parts : ms ≡ whole ++ left
  pub waiting : as_string buf ++ later ≡ frames padding left
  pub part : IsPart padding left buf
  pub valid : IsValid buf
  pub returns :
      result ≡ some (delivered server_side whole, (buf, sent ++ answered padding server_side whole))

delivered-append :
    (server_side : Bool) (ms ns : List RawMessage)
    → delivered server_side ms ++ delivered server_side ns ≡ delivered server_side (ms ++ ns)
delivered-append server_side [] ns = refl
delivered-append server_side (m ∷ ms) ns = elim (Bool-cases (server_side && is_heartbeat m)) [
  | inl beat ↦ rw beat (delivered-append server_side ms ns)
  | inr other ↦ rw other (ap (λ t. m ∷ t) (delivered-append server_side ms ns))
]

answered-append :
    (padding : List ℕ) (server_side : Bool) (ms ns : List RawMessage)
    → answered padding server_side ms ++ answered padding server_side ns
      ≡ answered padding server_side (ms ++ ns)
answered-append padding server_side [] ns = refl
answered-append padding server_side (m ∷ ms) ns =
    elim (Bool-cases (server_side && is_heartbeat m)) [
      | inl beat ↦ rw beat (
          append_assoc (frame padding (answer m)) (answered padding server_side ms)
            (answered padding server_side ns)
          ∙ ap (λ t. frame padding (answer m) ++ t) (answered-append padding server_side ms ns))
      | inr other ↦ rw other (answered-append padding server_side ms ns)
    ]

-- What one part of a stream gives, before what the rest gives.
pub result-append :
    (padding : List ℕ) (server_side : Bool) (ms ns : List RawMessage) (buf : IoBuffer)
    (sent : List ℕ)
    → ◌≡◌ {A = Option (List RawMessage × (IoBuffer × List ℕ))}
        (some (
          delivered server_side ms ++ delivered server_side ns,
          (buf, (sent ++ answered padding server_side ms) ++ answered padding server_side ns),
        ))
        (some (
          delivered server_side (ms ++ ns),
          (buf, sent ++ answered padding server_side (ms ++ ns)),
        ))
result-append padding server_side ms ns buf sent = rw (
  delivered-append server_side ms ns,
  append_assoc sent (answered padding server_side ms) (answered padding server_side ns),
  answered-append padding server_side ms ns,
)

module _ (padding : List ℕ) (send : List ℕ → List ℕ → ℤ × List ℕ) (p : length padding ≡ 6)
    (k : Keeps send) (server_side : Bool) where
  -- One round of the loop.
  round :
      (fuel : ℕ) (m : RawMessage) (buf buf' : IoBuffer) (sent : List ℕ)
      → decode buf ≡ some (some m, buf')
      → receive_loop padding send server_side true (suc fuel) buf sent
        ≡ Option.map
            (λ t. (delivered server_side (m ∷ []) ++ t.0, t.1))
            (receive_loop padding send server_side true fuel buf'
              (sent ++ answered padding server_side (m ∷ [])))
  unfolding receive_loop
  round fuel m buf buf' sent d =
      rw (receive_loop, d, on_message_lem padding send server_side m sent k)

  last_round :
      (fuel : ℕ) (buf : IoBuffer) (sent : List ℕ)
      → decode buf ≡ some (none, buf)
      → receive_loop padding send server_side true (suc fuel) buf sent ≡ some ([], (buf, sent))
  unfolding receive_loop
  last_round fuel buf sent d = rw (receive_loop, d)

  pub receive_loop-Received :
      (fuel : ℕ) (ms : List RawMessage) (buf : IoBuffer) (later sent : List ℕ)
      → All IsFrame ms
      → IsValid buf
      → as_string buf ++ later ≡ frames padding ms
      → length (as_string buf) < fuel
      → Received padding server_side ms later sent
          (receive_loop padding send server_side true fuel buf sent)
  receive_loop-Received zero ms buf later sent f v e h = absurd (omega arith)
  receive_loop-Received (suc fuel) [] buf later sent f v e h =
      let none_left : length (as_string buf) ≡ 0 =
        omega (arith, ap length e, length-append (as_string buf) later) in
      record {
        whole = [];
        left = [];
        buf = buf;
        parts = refl;
        waiting = e;
        part = no_content (as_string buf) none_left;
        valid = v;
        returns =
            last_round fuel buf sent (decode_short buf v (omega (arith, none_left)))
            ∙ ap (λ s. some ([], (buf, s))) (sym (append-nil sent));
      }
  receive_loop-Received (suc fuel) (m ∷ ms) buf later sent f v e h =
      elim (Bool-cases (ltb (length (as_string buf)) (length (frame padding m)))) [
        | inl short ↦
            let less = ltb→lt _ _ short in
            let (w, cut, _) =
              append_split (as_string buf) later (frame padding m) (frames padding ms) e
                (omega (arith, less)) in
            record {
              whole = [];
              left = m ∷ ms;
              buf = buf;
              parts = refl;
              waiting = e;
              part = less;
              valid = v;
              returns =
                  last_round fuel buf sent (decode_partial padding m w buf p f.0 v (sym cut) less)
                  ∙ ap (λ s. some ([], (buf, s))) (sym (append-nil sent));
            }
        | inr enough ↦
            let (w, cut, rest) =
              append_split (frame padding m) (frames padding ms) (as_string buf) later (sym e)
                (ltb_false→le _ _ enough) in
            let (buf', d, left, v') = decode-frame padding m w buf p f.0 v cut in
            let fewer : length (as_string buf') < fuel = omega (
              arith,
              h,
              ap length cut,
              ap length left,
              length-append (frame padding m) w,
              frame-length padding m p,
            ) in
            let r =
              receive_loop-Received fuel ms buf' later
                (sent ++ answered padding server_side (m ∷ [])) f.1 v'
                (ap (λ s. s ++ later) left ∙ sym rest) fewer in
            record {
              whole = m ∷ r.whole;
              left = r.left;
              buf = r.buf;
              parts = ap (λ t. m ∷ t) r.parts;
              waiting = r.waiting;
              part = r.part;
              valid = r.valid;
              returns =
                  round fuel m buf buf' sent d
                  ∙ ap (Option.map (λ t. (delivered server_side (m ∷ []) ++ t.0, t.1))) r.returns
                  ∙ result-append padding server_side (m ∷ []) r.whole r.buf sent;
            }
      ]
