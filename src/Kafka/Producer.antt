-- ===== src/Kafka/Producer.antt =====
-- mq/kafka/producer.go: SendSync, SendAsync, handleAsyncErrors, deliverSyncSendResult and Close. A
-- select of Go takes any of its cases that are ready; what is ready and what is taken is given by the
-- environment.
use ais_pkg.Prelude.{
  ℕ, Bool, true, false, ◌&&◌, ◌∷◌, ◌++◌, Option, some, none, Result, ok, err, ◌==◌, if◌then◌else◌,
}
use ais_pkg.Prelude.Text.{Text, codes}
use ais_pkg.Prelude.Int.{ℤ}
use ais_pkg.Prelude.Decimal.{format_int}

-- mq.SendResult; its status is always SendStatusOK here
pub record SendResult : Type 0 where
  pub msg_id : Text
  pub topic : Text
  pub partition : ℤ
  pub offset : ℤ

-- syncSendResult: an error, or a result
abbrev pub Outcome : Type 0
Outcome = Result Text SendResult

-- What the library tells of a message: an error, or its topic, partition and offset.
pub data Event : Type 0 where
  failure : Text → Event
  success : Text → ℤ → ℤ → Event

-- The result that handleAsyncErrors makes.
unfoldable pub outcome_of : Event → Outcome
unfolding format_int
outcome_of (failure e) = err e
outcome_of (success topic partition offset) = ok (record {
  msg_id = topic ++ b'-' ∷ format_int partition ++ b'-' ∷ format_int offset;
  topic = topic;
  partition = partition;
  offset = offset;
})

-- How the context of a SendSync stands when its result is delivered: done at the first look, done at
-- the second, and whether the select takes that although there is room in the channel.
pub record Look : Type 0 where
  pub done_first : Bool
  pub done_then : Bool
  pub takes_done : Bool

-- deliverSyncSendResult to a channel for one result: whether it was delivered, and the channel.
unfoldable pub deliver_sync_send_result : Look → Option Outcome → Outcome → Bool × Option Outcome
deliver_sync_send_result look (some old) o = (false, some old)
deliver_sync_send_result look none o =
    if look.done_first
    then (false, none)
    else if look.done_then && look.takes_done
    then (false, none)
    else (true, some o)

-- The metadata of a message: the number of the channel of a SendSync, or the callback of a SendAsync,
-- if it has one.
pub data Metadata : Type 0 where
  sync_send : ℕ → Metadata
  callback : Bool → Metadata

-- The contents of the channels by number, and the change of one.
abbrev pub Channels : Type 0
Channels = ℕ → Option Outcome

abbrev pub set : {A : Type 0} → ℕ → A → (ℕ → A) → ℕ → A
set i a f j = if j == i then a else f j

-- What handleAsyncErrors does with a result: it fills the channel, or calls the callback, or logs.
pub data Effect : Type 0 where
  delivered called_back : Outcome → Effect
  logged : Effect

-- One round of handleAsyncErrors: the channels after it, and what it did.
unfoldable pub handle_event : Look → Channels → Metadata → Event → Channels × Effect
unfolding deliver_sync_send_result outcome_of
handle_event look channels (sync_send ch) event =
    let (taken, content) = deliver_sync_send_result look (channels ch) (outcome_of event) in
    (set ch content channels, if taken then delivered (outcome_of event) else logged)
handle_event look channels (callback given) event =
    (channels, if given then called_back (outcome_of event) else logged)

abbrev pub producer_closed : Text
producer_closed = codes "producer is closed"

-- What a SendSync meets: its message is taken or its context ends first, and then a result comes or
-- its context ends.
pub data Meeting : Type 0 where
  not_taken : Text → Meeting
  answered : Outcome → Meeting
  unanswered : Text → Meeting

-- SendSync
unfoldable pub send_sync : Bool → Meeting → Outcome
send_sync true meeting = err producer_closed
send_sync false (not_taken ctx_err) = err ctx_err
send_sync false (answered o) = o
send_sync false (unanswered ctx_err) = err ctx_err

-- SendAsync, for a message that is taken or a context that ends first
unfoldable pub send_async : Bool → Option Text → Option Text
send_async true ended = some producer_closed
send_async false ended = ended

-- Close: its error, the flag, and whether the library's Close was called, for an error of that call.
unfoldable pub close : Bool → Option Text → Option Text × Bool × Bool
close true failed = (none, true, false)
close false none = (none, true, true)
close false (some e) = (some (codes "async producer close error: " ++ e), true, true)
