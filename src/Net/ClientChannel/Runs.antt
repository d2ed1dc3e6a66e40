-- ===== src/Net/ClientChannel/Runs.antt =====
-- AsyncChannel, async_channel.cc and client_channel.cc: runs of a channel, event by event.
use ltio.Common.{ℕ, ◌+◌, ◌≡◌, ◌≢◌, refl, sym, ◌∙◌, Bool, false, [], Option, none, some, ◌==◌, arith}
use ltio.Net.ClientChannel.{
  Request, Response, disconnected, closing, same_object, tell, remove_timer, on_codec_ready,
}
use ltio.Net.ClientChannel.Async.{
  AsyncChannel, new_async_channel, find, send_request, on_request_timeout, fail_all,
  before_close_channel, on_codec_message, on_codec_closed, close_client_channel, on_heartbeat_timer,
}
use ltio.Net.ClientChannel.Answers.{one_if, answers, fail_all-Answers, Ordinary}
use ltio.Net.ClientChannel.Accounts.{
  Accounts, send_request-Accounts, on_request_timeout-Accounts, on_codec_message-Accounts,
  on_codec_closed-Accounts, on_codec_ready-Accounts, on_heartbeat_timer-Accounts,
}

module _ (owner : ℕ → ℕ) where
  abbrev pub Named : Option Request → Type 0
  Named none = Unit
  Named (some r) = owner r.async_id ≡ r.object

  -- The events of a channel before it is closed, in any order: the request `o` is sent `n` times. The
  -- codec gives an id to one request only, `owner id`, and none that stands for one in progress.
  pub data Run (o : ℕ) : ℕ → AsyncChannel → Type 0 where
    start : Run o 0 new_async_channel
    send :
        {n : ℕ} {ch : AsyncChannel} (sent : Bool) (id : ℕ) (r : Request)
        → owner id ≡ r.object
        → find id ch.in_progress ≡ none
        → Run o n ch
        → Run o (n + one_if (r.object == o)) (send_request sent id r ch)
    heartbeat :
        {n : ℕ} {ch : AsyncChannel} (object id : ℕ) (sent : Bool)
        → object ≢ o
        → owner id ≡ object
        → find id ch.in_progress ≡ none
        → Run o n ch
        → Run o n (on_heartbeat_timer object sent id ch)
    timeout :
        {n : ℕ} {ch : AsyncChannel} (r : Option Request)
        → Named r
        → Run o n ch
        → Run o n (on_request_timeout r ch)
    message :
        {n : ℕ} {ch ch' : AsyncChannel} (res : Response)
        → on_codec_message res ch ≡ some ch'
        → Run o n ch
        → Run o n ch'
    codec_closed : {n : ℕ} {ch : AsyncChannel} → Run o n ch → Run o n (on_codec_closed ch)
    codec_ready :
        {n : ℕ} {ch : AsyncChannel} (keep : Bool) (ms : ℕ)
        → Run o n ch
        → Run o n (record ch { base = on_codec_ready keep ms ch.base })

  -- In every run, a request that was sent n times is as often in progress or answered as it was sent.
  pub Run-Accounts : (o n : ℕ) (ch : AsyncChannel) → Run o n ch → Accounts owner o n ch
  unfolding on_request_timeout same_object
  Run-Accounts o _ _ start = record {
    told = refl;
    not_heartbeat = refl;
    balance = omega arith;
    keyed = tt;
  }
  Run-Accounts o _ _ (send sent id r w fresh run) =
      send_request-Accounts owner o _ sent id r _ w fresh (Run-Accounts o _ _ run)
  Run-Accounts o _ _ (heartbeat object id sent other w fresh run) =
      on_heartbeat_timer-Accounts owner o _ object id sent _ other w fresh (Run-Accounts o _ _ run)
  Run-Accounts o _ _ (timeout none w run) = Run-Accounts o _ _ run
  Run-Accounts o _ _ (timeout (some r) w run) =
      on_request_timeout-Accounts owner o _ r _ w (Run-Accounts o _ _ run)
  Run-Accounts o _ ch' (message res e run) =
      on_codec_message-Accounts owner o _ res _ ch' e (Run-Accounts o _ _ run)
  Run-Accounts o _ _ (codec_closed run) =
      on_codec_closed-Accounts owner o _ _ (Run-Accounts o _ _ run)
  Run-Accounts o _ _ (codec_ready keep ms run) =
      on_codec_ready-Accounts owner o _ ms keep _ (Run-Accounts o _ _ run)

  -- After any run CloseClientChannel leaves nothing in progress: a request that was sent n times has been
  -- answered exactly n times, and the channel is disconnected, without delegate and timer.
  pub close_client_channel-answers :
      (o n : ℕ) (ch : AsyncChannel)
      → Run o n ch
      → (answers o (close_client_channel ch).base.events ≡ n)
        × ((close_client_channel ch).in_progress ≡ [])
        × ((close_client_channel ch).base.state ≡ disconnected)
        × ((close_client_channel ch).base.has_delegate ≡ false)
        × ((close_client_channel ch).base.has_timer ≡ false)
  unfolding close_client_channel before_close_channel on_codec_closed fail_all tell remove_timer
  close_client_channel-answers o n ch run =
      let a = Run-Accounts o n ch run in
      let ordinary : Ordinary o (record ch.base { state = closing }) = record {
        told = a.told;
        not_heartbeat = a.not_heartbeat;
      } in
      let (_, e) =
        fail_all-Answers o ch.in_progress (record ch.base { state = closing }) ordinary in
      (e ∙ sym a.balance, refl, refl, refl, refl)
