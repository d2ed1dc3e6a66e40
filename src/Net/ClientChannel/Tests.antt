-- ===== src/Net/ClientChannel/Tests.antt =====
-- Runs of an asynchronous and of a queued channel on two requests: net_io/clients.
use ltio.Common.{ℕ, ◌≡◌, ◌≢◌, refl, arith, Bool, true, false, [], ◌∷◌, none, some, ◌==◌, ◌+◌, not}
use ltio.Net.ClientChannel.{Request, Response, success, disconnected}
use ltio.Net.ClientChannel.Async.{
  AsyncChannel, new_async_channel, find, insert, update_object, send_request, on_codec_message,
  close_client_channel,
}
use ltio.Net.ClientChannel.Answers.{answers}
use ltio.Net.ClientChannel.Accounts.{Accounts}
use ltio.Net.ClientChannel.Runs
use ltio.Net.ClientChannel.Runs.{Run, Run-Accounts, close_client_channel-answers}
use ltio.Net.ClientChannel.Late.{Late, close_client_channel-silent}
use ltio.Net.ClientChannel.Again.{reply_to, send_request-again}
use ltio.Net.ClientChannel.Queued as Queued
use ltio.Net.ClientChannel.Order.{told_objects, ordinary, close_client_channel-in_order}
use ltio.Net.ClientChannel.Dangling as Dangling
use ltio.Net.ClientChannel.Dangling.{Run-send_request}

abbrev request : ℕ → Request
request object = record { object = object; async_id = 0; fail_code = success }

-- Ids 5 and 6 go to the requests 15 and 16.
abbrev owner : ℕ → ℕ
owner id = id + 10

abbrev two_sent : AsyncChannel
two_sent = send_request true 6 (request 16) (send_request true 5 (request 15) new_async_channel)

two_sent-Run : Run owner 15 1 two_sent
unfolding send_request insert find update_object
two_sent-Run =
    Runs.send true 6 (request 16) refl refl (Runs.send true 5 (request 15) refl refl Runs.start)

abbrev reply : Response
reply = record { response_object = 70; response_id = 5 }

Run-Accounts_example : Accounts owner 15 1 two_sent
Run-Accounts_example = Run-Accounts owner 15 1 two_sent two_sent-Run

close_client_channel-answers_example :
    (answers 15 (close_client_channel two_sent).base.events ≡ 1)
    × ((close_client_channel two_sent).in_progress ≡ [])
    × ((close_client_channel two_sent).base.state ≡ disconnected)
    × ((close_client_channel two_sent).base.has_delegate ≡ false)
    × ((close_client_channel two_sent).base.has_timer ≡ false)
close_client_channel-answers_example = close_client_channel-answers owner 15 1 two_sent two_sent-Run

-- The request 15 is sent again under another id before its response is there.
abbrev resent : AsyncChannel
resent = send_request true 6 (request 15) (send_request true 5 (request 15) new_async_channel)

send_request-again_example :
    (on_codec_message (reply_to 70 5) resent ≡ none)
    × (on_codec_message (reply_to 70 6) resent ≢ none)
unfolding find
send_request-again_example =
    send_request-again 5 6 70 (request 15) new_async_channel (omega arith) refl refl

abbrev sent_15 : Request
sent_15 = record (request 15) { async_id = 5 }

-- A request that comes after the channel was closed, and whose sending fails.
abbrev too_late : AsyncChannel
too_late = send_request false 7 (request 17) (close_client_channel two_sent)

close_client_channel-silent_example :
    too_late.base.events ≡ (close_client_channel two_sent).base.events
close_client_channel-silent_example =
    close_client_channel-silent two_sent too_late (Late.send false 7 (request 17) Late.here)

-- A codec that gives the ids 1, 2, … and fails to send the request 21.
abbrev counting : Request → ℕ → Bool × (ℕ × ℕ)
counting r n = (not (r.object == 21), (n + 1, n + 1))

abbrev held : Queued.QueuedChannel
held = record Queued.new_queued_channel {
  ing_request = some (request 20);
  waiting_list = (4, request 21) ∷ (5, request 22) ∷ [];
  fresh = 6;
}

abbrev no_beat : ℕ → Bool
no_beat o = false

close_client_channel-in_order_example :
    (ordinary no_beat (told_objects (Queued.close_client_channel held).base.events)
      ≡ 20 ∷ 21 ∷ 22 ∷ [])
    × ((Queued.close_client_channel held).ing_request ≡ none)
    × ((Queued.close_client_channel held).waiting_list ≡ [])
    × ((Queued.close_client_channel held).base.state ≡ disconnected)
    × ((Queued.close_client_channel held).base.has_delegate ≡ false)
    × ((Queued.close_client_channel held).base.has_timer ≡ false)
close_client_channel-in_order_example =
    close_client_channel-in_order no_beat held (record { told = refl; beat = tt })

abbrev closed_once : Queued.QueuedChannel
closed_once = Queued.on_codec_closed Queued.new_queued_channel

Run-send_request_example :
    (Queued.send_request counting (request 20) closed_once 0 ≡ none)
    × (closed_once.ing_request ≡ none)
    × (closed_once.waiting_list ≡ [])
Run-send_request_example =
    Run-send_request counting closed_once 0 (request 20) (Dangling.codec_closed (Dangling.start 0))
