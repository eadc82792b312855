-- ===== src/Consumer/Lifecycle.antt =====
-- mq/kafka/consumer.go: Subscribe, Start with its loop, and Close. What the client library and the
-- timers do is given by the environment; logging is left out.
use ais_pkg.Prelude.{
  ℕ, ◌*◌, Bool, true, false, List, [], ◌∷◌, ◌++◌, Option, some, none, ltb, ◌==◌, is_empty,
  if◌then◌else◌,
}
use ais_pkg.Prelude.Text.{Text, codes}
use ais_pkg.Prelude.Maps.{lookup, insert}

-- ConsumerAdapter: `running` while cancel is not nil, and `ready_done` once the channel is closed.
pub record ConsumerAdapter (H : Type 0) : Type 0 where
  pub topics : List Text
  pub handlers : List (Text × H)
  pub running : Bool
  pub ready_done : Bool

abbrev pub new_topics : {H : Type 0} → Option H → Text → List Text → List Text
new_topics none topic topics = topics ++ topic ∷ []
new_topics (some h) topic topics = topics

-- What Start waits for: the signal, an error of the loop, or the end of its timer.
pub data Startup : Type 0 where
  is_ready timed_out : Startup
  start_failed : Text → Startup

module _ {H : Type 0} where
  -- Subscribe, with its error if the handler is nil
  unfoldable pub subscribe : Text → Option H → ConsumerAdapter H → Option Text × ConsumerAdapter H
  unfolding lookup insert
  subscribe topic none c = (some (codes "handler is required"), c)
  subscribe topic (some handler) c = (
    none,
    record c {
      topics = new_topics (lookup topic c.handlers) topic c.topics;
      handlers = insert topic handler c.handlers;
    },
  )

  -- signalReady: whether it closes the channel, and the adapter
  unfoldable pub signal_ready : ConsumerAdapter H → Bool × ConsumerAdapter H
  signal_ready c = if c.ready_done then (false, c) else (true, record c { ready_done = true })

  -- abortStart, whose Close of the client library and whose wait have no further effect here
  abbrev pub abort_start : ConsumerAdapter H → ConsumerAdapter H
  abort_start c = record c { running = false }

  abbrev pub started : Startup → ConsumerAdapter H → Option Text × ConsumerAdapter H
  started is_ready c = (none, c)
  started (start_failed e) c = (some e, abort_start c)
  started timed_out c = (some (codes "kafka consumer start timeout"), abort_start c)

  -- Start
  unfoldable pub start : Startup → ConsumerAdapter H → Option Text × ConsumerAdapter H
  start startup c =
      if c.running
      then (some (codes "consumer already started"), c)
      else if is_empty c.topics
      then (some (codes "no topics subscribed"), record c { ready_done = false })
      else started startup (record c { ready_done = false; running = true })

  -- Close, for an error of the client library's Close
  unfoldable pub close_consumer : Option Text → ConsumerAdapter H → Option Text × ConsumerAdapter H
  close_consumer failed c = (failed, record c { running = false })

-- retryDelayBase and retryDelayMax, in seconds
abbrev pub retry_delay_base : ℕ
retry_delay_base = 2

abbrev pub retry_delay_max : ℕ
retry_delay_max = 30

-- The next delay of the loop.
unfoldable pub next_delay : ℕ → ℕ
next_delay d =
    if d == 0
    then retry_delay_base
    else let twice = d * 2 in if ltb retry_delay_max twice then retry_delay_max else twice

-- One call of Consume: whether it failed, whether the context was done after it, and whether it was
-- done before the delay was over.
pub record Round : Type 0 where
  pub consume_failed : Bool
  pub done_after : Bool
  pub done_in_delay : Bool

-- The delays that the loop begins, from the delay `d`, until its context is done.
unfoldable pub loop_delays : ℕ → List Round → List ℕ
unfolding next_delay
loop_delays d [] = []
loop_delays d (round ∷ rounds) =
    let wait = next_delay d in
    let after_failure = loop_delays wait rounds in
    let after_success = loop_delays 0 rounds in
    if round.done_after
    then []
    else if round.consume_failed
    then if round.done_in_delay then wait ∷ [] else wait ∷ after_failure
    else after_success
