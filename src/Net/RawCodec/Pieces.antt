-- ===== src/Net/RawCodec/Pieces.antt =====
-- RawCodecService, raw_codec_service.h: what is sent by EncodeTo and arrives in pieces.
use ltio.Common.{
  ℕ, ◌+◌, ◌≡◌, refl, sym, ap, ◌∙◌, some_inj, subst, Bool, true, List, [], ◌∷◌, ◌++◌, Option, none,
  some, if◌then◌else◌, length, arith, length-append, All,
}
use mathlib.Core.List.{append-nil, append_assoc}
use mathlib.Core.Option as Option
use ltio.Common.Int.{ℤ}
use ltio.Net.Buffer.{IoBuffer, can_read_size, as_string, write_raw_data}
use ltio.Net.Buffer.Contents.{IsValid, write_raw_data-as_string}
use ltio.Net.Line.Roundtrip.{Keeps}
use ltio.Net.RawCodec.{RawMessage, encode_to, on_data_received}
use ltio.Net.RawCodec.Decode.{IsFrame, frame, frame-length, can_read_size_lem}
use ltio.Net.RawCodec.Stream.{
  frames, delivered, answered, IsPart, Received, encode_to-frame, receive_loop-Received,
  result-append,
}

-- OnDataReceived on a valid buffer that holds the start of a stream of frames returns, its loop ended. The
-- handler gets the messages whose frames are whole, in order, on the server's side without the
-- heartbeats, each of which is answered with its sequence number; the rest stays in the buffer.
pub on_data_received-Received :
    (padding : List ℕ) (send : List ℕ → List ℕ → ℤ × List ℕ) (server_side : Bool)
    (ms : List RawMessage) (buf : IoBuffer) (later sent : List ℕ)
    → length padding ≡ 6
    → Keeps send
    → All IsFrame ms
    → IsValid buf
    → as_string buf ++ later ≡ frames padding ms
    → Received padding server_side ms later sent
        (on_data_received padding send server_side true buf sent)
unfolding on_data_received
on_data_received-Received padding send server_side ms buf later sent p k f v e =
    receive_loop-Received padding send p k server_side (can_read_size buf + 1) ms buf later sent f v
      e (omega (arith, can_read_size_lem buf v))

-- Pieces that arrive one after another, each written to the buffer and handed to OnDataReceived.
module _ (padding : List ℕ) (send : List ℕ → List ℕ → ℤ × List ℕ) (server_side : Bool) where
  unfoldable pub receive :
      List (List ℕ) → IoBuffer → List ℕ → Option (List RawMessage × (IoBuffer × List ℕ))
  unfolding on_data_received write_raw_data
  receive [] buf sent = some ([], (buf, sent))
  receive (piece ∷ pieces) buf sent = elim (write_raw_data piece buf) [
    | none ↦ none
    | some b ↦ elim (on_data_received padding send server_side true b sent) [
      | none ↦ none
      | some r ↦ Option.map (λ t. (r.0 ++ t.0, t.1)) (receive pieces r.1.0 r.1.1)
    ]
  ]

-- Messages encoded one after another.
module _ {C : Type 0} (padding : List ℕ) (send : List ℕ → C → ℤ × C) where
  unfoldable pub encode_all : List RawMessage → C → Option C
  unfolding encode_to
  encode_all [] channel = some channel
  encode_all (m ∷ ms) channel = elim (encode_to padding send m channel) [
    | none ↦ none
    | some r ↦ if r.0 then encode_all ms r.1 else none
  ]

abbrev pub join : List (List ℕ) → List ℕ
join [] = []
join (piece ∷ pieces) = piece ++ join pieces

All-append_right {ℓ κ} :
    {A : Type ℓ} (P : A → Type κ) (xs ys : List A) → All P (xs ++ ys) → All P ys
All-append_right P [] ys h = h
All-append_right P (x ∷ xs) ys h = All-append_right P xs ys h.1

module _ (padding : List ℕ) (send : List ℕ → List ℕ → ℤ × List ℕ) (server_side : Bool) where
  piece_step :
      (piece : List ℕ) (pieces : List (List ℕ)) (buf b c : IoBuffer) (sent sent' : List ℕ)
      (got : List RawMessage)
      → write_raw_data piece buf ≡ some b
      → on_data_received padding send server_side true b sent ≡ some (got, (c, sent'))
      → receive padding send server_side (piece ∷ pieces) buf sent
        ≡ Option.map (λ t. (got ++ t.0, t.1)) (receive padding send server_side pieces c sent')
  unfolding receive
  piece_step piece pieces buf b c sent sent' got w r = rw (receive, w, r)

  receive-Received :
      (pieces : List (List ℕ)) (ms : List RawMessage) (buf : IoBuffer) (sent : List ℕ)
      → length padding ≡ 6
      → Keeps send
      → All IsFrame ms
      → IsValid buf
      → IsPart padding ms buf
      → as_string buf ++ join pieces ≡ frames padding ms
      → Received padding server_side ms [] sent (receive padding send server_side pieces buf sent)
  unfolding receive
  receive-Received [] ms buf sent p k f v part e = record {
    whole = [];
    left = ms;
    buf = buf;
    parts = refl;
    waiting = e;
    part = part;
    valid = v;
    returns = ap (λ s. some ([], (buf, s))) (sym (append-nil sent));
  }
  receive-Received (piece ∷ pieces) ms buf sent p k f v part e =
      let (b, w, s, vb) = write_raw_data-as_string piece buf v in
      let r =
        on_data_received-Received padding send server_side ms b (join pieces) sent p k f vb
          (ap (λ t. t ++ join pieces) s ∙ append_assoc (as_string buf) piece (join pieces) ∙ e) in
      let f' : All IsFrame r.left =
        All-append_right IsFrame r.whole r.left (subst (All IsFrame) r.parts f) in
      let q =
        receive-Received pieces r.left r.buf (sent ++ answered padding server_side r.whole) p k f'
          r.valid r.part r.waiting in
      record {
        whole = r.whole ++ q.whole;
        left = q.left;
        buf = q.buf;
        parts =
            r.parts ∙ ap (λ t. r.whole ++ t) q.parts ∙ sym (append_assoc r.whole q.whole q.left);
        waiting = q.waiting;
        part = q.part;
        valid = q.valid;
        returns =
            piece_step piece pieces buf b r.buf sent (sent ++ answered padding server_side r.whole)
              (delivered server_side r.whole) w r.returns
            ∙ ap (Option.map (λ t. (delivered server_side r.whole ++ t.0, t.1))) q.returns
            ∙ result-append padding server_side r.whole q.whole q.buf sent;
      }

IsPart-empty :
    (padding : List ℕ) (ms : List RawMessage) (buf : IoBuffer)
    → length padding ≡ 6
    → as_string buf ≡ []
    → IsPart padding ms buf
IsPart-empty padding [] buf p e = e
IsPart-empty padding (m ∷ ms) buf p e = omega (arith, ap length e, frame-length padding m p)

IsPart-all :
    (padding : List ℕ) (left : List RawMessage) (buf : IoBuffer)
    → IsPart padding left buf
    → as_string buf ++ [] ≡ frames padding left
    → left ≡ []
IsPart-all padding [] buf part e = refl
IsPart-all padding (m ∷ ms) buf part e = absurd (
    omega (
      arith,
      part,
      ap length e,
      length-append (as_string buf) [],
      length-append (frame padding m) (frames padding ms),
    ))

encode_all-frames :
    (padding : List ℕ) (send : List ℕ → List ℕ → ℤ × List ℕ) (ms : List RawMessage) (sent : List ℕ)
    → Keeps send
    → All IsFrame ms
    → encode_all padding send ms sent ≡ some (sent ++ frames padding ms)
unfolding encode_all
encode_all-frames padding send [] sent k f = ap some (sym (append-nil sent))
encode_all-frames padding send (m ∷ ms) sent k f = rw (
  encode_all,
  encode_to-frame padding send m sent k f.0.sized,
  encode_all-frames padding send ms (sent ++ frame padding m) k f.1,
  append_assoc sent (frame padding m) (frames padding ms),
)

-- Messages that EncodeTo writes one after another arrive: in whatever pieces their bytes come, the
-- handler gets exactly the messages, in order, of which the server's side keeps the heartbeats back,
-- answering each with a heartbeat of its sequence number, and no byte is left in the buffer.
pub pieces_roundtrip :
    (padding : List ℕ) (send : List ℕ → List ℕ → ℤ × List ℕ) (server_side : Bool)
    (ms : List RawMessage) (pieces : List (List ℕ)) (buf : IoBuffer)
    → length padding ≡ 6
    → Keeps send
    → All IsFrame ms
    → IsValid buf
    → as_string buf ≡ []
    → encode_all padding send ms [] ≡ some (join pieces)
    → (buf' : IoBuffer) × (receive padding send server_side pieces buf []
        ≡ some (delivered server_side ms, (buf', answered padding server_side ms)))
      × (as_string buf' ≡ [])
pieces_roundtrip padding send server_side ms pieces buf p k f v empty enc =
    let bytes : join pieces ≡ frames padding ms =
      some_inj (sym enc ∙ encode_all-frames padding send ms [] k f) in
    let r =
      receive-Received padding send server_side pieces ms buf [] p k f v
        (IsPart-empty padding ms buf p empty) (ap (λ t. t ++ join pieces) empty ∙ bytes) in
    let none_left : r.left ≡ [] = IsPart-all padding r.left r.buf r.part r.waiting in
    let all : ms ≡ r.whole = r.parts ∙ ap (λ t. r.whole ++ t) none_left ∙ append-nil r.whole in
    (
      r.buf,
      subst
          (λ t.
            receive padding send server_side pieces buf []
            ≡ some (delivered server_side t, (r.buf, answered padding server_side t)))
          (sym all) r.returns,
      sym (append-nil (as_string r.buf)) ∙ r.waiting ∙ ap (frames padding) none_left,
    )
