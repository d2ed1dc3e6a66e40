-- ===== src/Net/ClientChannel/Again.antt =====
-- AsyncChannel, async_channel.cc: one object that is sent again while it is in progress.
use ltio.Common.{ℕ, ◌≡◌, ◌≢◌, refl, ap, ◌∙◌, true, false, ◌∷◌, none, ◌==◌, arith, ==_iff}
use ltio.Net.ClientChannel.{Request, Response}
use ltio.Net.ClientChannel.Async.{
  AsyncChannel, find, insert, update_object, send_request, on_codec_message,
}
use ltio.Net.ClientChannel.Accounts.{find-update_object}

abbrev pub reply_to : ℕ → ℕ → Response
reply_to object id = record { response_object = object; response_id = id }

send_request-fresh :
    (id : ℕ) (r : Request) (ch : AsyncChannel)
    → find id ch.in_progress ≡ none
    → let sent = record r { async_id = id } in
      send_request true id r ch
      ≡ record ch { in_progress = (id, sent) ∷ update_object sent ch.in_progress }
unfolding send_request insert
send_request-fresh id r ch f =
    rw (send_request, insert, find-update_object id (record r { async_id = id }) ch.in_progress f)
      refl

-- What is in progress after the two calls: both entries are of the object, which has the second id.
send_request-twice :
    (first second : ℕ) (r : Request) (ch : AsyncChannel)
    → (first == second) ≡ false
    → find first ch.in_progress ≡ none
    → find second ch.in_progress ≡ none
    → let r1 = record r { async_id = first } in
      let r2 = record r { async_id = second } in
      send_request true second r (send_request true first r ch) ≡ record ch {
        in_progress =
            (second, r2) ∷ (first, r2) ∷ update_object r2 (update_object r1 ch.in_progress);
      }
unfolding update_object find
send_request-twice first second r ch apart f s =
    let r1 = record r { async_id = first } in
    let r2 = record r { async_id = second } in
    let once : AsyncChannel = record ch {
      in_progress = (first, r1) ∷ update_object r1 ch.in_progress;
    } in
    let free : find second once.in_progress ≡ none =
      rw (find, apart) (find-update_object second r1 ch.in_progress s) in
    let same : (r.object == r.object) ≡ true = (==_iff r.object r.object).1 refl in
    let shared : update_object r2 once.in_progress
        ≡ (first, r2) ∷ update_object r2 (update_object r1 ch.in_progress) =
      rw (update_object, same) refl in
    ap (send_request true second r) (send_request-fresh first r ch f)
    ∙ send_request-fresh second r once free
    ∙ ap (λ ps. record ch { in_progress = (second, r2) ∷ ps }) shared

-- A request is sent, and sent again under another id before its response is there: both ids are free at
-- that time and the codec takes it both times. Then the response to the first id fails the CHECK, since
-- the object has the second id by then, and the response to the second id passes it.
pub send_request-again :
    (first second object : ℕ) (request : Request) (ch : AsyncChannel)
    → first ≢ second
    → find first ch.in_progress ≡ none
    → find second ch.in_progress ≡ none
    → let twice = send_request true second request (send_request true first request ch) in
      (on_codec_message (reply_to object first) twice ≡ none)
      × (on_codec_message (reply_to object second) twice ≢ none)
unfolding find on_codec_message
send_request-again first second object request ch differ f s =
    let apart : (first == second) ≡ false = ground (arith, differ) in
    let apart' : (second == first) ≡ false = ground (arith, differ) in
    let same : (first == first) ≡ true = (==_iff first first).1 refl in
    let same' : (second == second) ≡ true = (==_iff second second).1 refl in
    rw (send_request-twice first second request ch apart f s) (
      rw (on_codec_message, find, apart', same, apart') refl,
      rw (on_codec_message, find, same', same') (λ e. cc),
    )
