-- ===== src/Net/ClientChannel.antt =====
-- net_io/clients: channels that send requests and answer each by its response or by a failure. A
-- request is a shared object, here its identity with the fields that a channel reads. What the codec
-- and the clock do is an argument of each operation: whether the codec's SendRequest succeeded, the id
-- that it gave, the message or the expired request. The channel's delegate is the log of what it was
-- told; it does not call the channel back meanwhile.
pub mod Async
pub mod Answers
pub mod Accounts
pub mod Runs
pub mod Late
pub mod Again
pub mod Queued
pub mod Order
pub mod Dangling
mod Tests
use ltio.Common.{
  ℕ, Bool, true, false, ◌&&◌, List, [], ◌∷◌, ◌++◌, Option, none, some, ltb, ◌==◌, if◌then◌else◌,
}

pub data ChannelState : Type 0 where
  initialing ready closing disconnected : ChannelState

-- MessageCode.
pub data FailCode : Type 0 where
  success time_out conn_broken bad_message not_connected : FailCode

pub record Request : Type 0 where
  pub object : ℕ
  pub async_id : ℕ
  pub fail_code : FailCode

pub record Response : Type 0 where
  pub response_object : ℕ
  pub response_id : ℕ

-- OnClientChannelInited, OnClientChannelClosed and OnRequestGetResponse.
pub data Event : Type 0 where
  inited closed : Event
  answered : (request : Request) (response : Option Response) → Event

pub record ClientChannel : Type 0 where
  pub state : ChannelState
  pub has_delegate : Bool
  pub has_timer : Bool
  pub heartbeat_message : Option ℕ
  pub events : List Event

-- The constructor.
abbrev pub new_channel : ClientChannel
new_channel = record {
  state = initialing;
  has_delegate = true;
  has_timer = false;
  heartbeat_message = none;
  events = [];
}

unfoldable pub set_fail_code : FailCode → Request → Request
set_fail_code code r = record r { fail_code = code }

-- Whether a pointer, which may be null, is that of an object.
unfoldable pub same_object : Option ℕ → ℕ → Bool
same_object none object = false
same_object (some held) object = held == object

-- HandleResponse.
unfoldable pub handle_response : Request → Option Response → ClientChannel → Bool × ClientChannel
unfolding same_object
handle_response req res c =
    if same_object c.heartbeat_message req.object
    then (true, record c { heartbeat_message = none })
    else if c.has_delegate
    then (true, record c { events = c.events ++ answered req res ∷ [] })
    else (false, c)

-- A request that fails.
unfoldable pub fail_request : FailCode → Request → ClientChannel → ClientChannel
unfolding handle_response set_fail_code
fail_request code r c = (handle_response (set_fail_code code r) none c).1

unfoldable pub tell : Event → ClientChannel → ClientChannel
tell e c = if c.has_delegate then record c { events = c.events ++ e ∷ [] } else c

-- ClientChannel::OnCodecClosed.
unfoldable pub remove_timer : ClientChannel → ClientChannel
remove_timer c = record c { has_timer = false }

-- OnCodecReady, with the codec's KeepHeartBeat and the delegate's `heartbeat_ms`.
unfoldable pub on_codec_ready : Bool → ℕ → ClientChannel → ClientChannel
unfolding tell
on_codec_ready keep_heartbeat heartbeat_ms c =
    let c' = tell inited (record c { state = ready }) in
    if keep_heartbeat && (c.has_delegate && ltb 50 heartbeat_ms)
    then record c' { has_timer = true }
    else c'
