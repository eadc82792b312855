-- ===== src/Tests/Consumer.antt =====
-- mq/kafka/consumer.go on two messages: the first succeeds at once, the second never.
use ais_pkg.Prelude.{ℕ, ◌≡◌, refl, true, false, List, [], ◌∷◌, Option, some, none, All}
use ais_pkg.Consumer.Defs.{
  consume_success, ConsumerConfig, Call, retry_loop, handle_message, Incoming, message, session_end,
  returned, claim_loop, consume_claim,
}
use ais_pkg.Consumer.Claims.{marks, MarksProcessed, consume_claim-MarksProcessed}
use ais_pkg.Prelude.Text.{Text}
use ais_pkg.Prelude.Maps.{lookup}
use ais_pkg.Consumer.Lifecycle.{ConsumerAdapter, Round, loop_delays}
use ais_pkg.Consumer.Subscriptions.{
  Registered, subscribe_all, subscribe_all-Registered, Moderate, loop_delays-Moderate,
}
use ais_pkg.Consumer.Stopping.{StoppedAt, consume_claim-StoppedAt}

abbrev strict : ConsumerConfig
strict = record { auto_commit = false; skip_on_error = false }

abbrev fine : ℕ → Call
fine i = record { result = consume_success; error_text = none; session_done = false }

abbrev failing : ℕ → Call
failing i = record { result = consume_success; error_text = some (b'e' ∷ []); session_done = false }

abbrev incoming : List (Incoming ℕ)
incoming = message 1 fine ∷ message 2 failing ∷ session_end ∷ []

consume_claim-MarksProcessed_example :
    MarksProcessed incoming (marks (consume_claim strict true incoming).effects)
consume_claim-MarksProcessed_example = consume_claim-MarksProcessed strict true incoming refl

stops : (consume_claim strict true incoming).claim_end ≡ returned (some (b'e' ∷ []))
unfolding consume_claim claim_loop handle_message retry_loop
stops = refl

consume_claim-StoppedAt_example :
    StoppedAt strict incoming (consume_claim strict true incoming) (b'e' ∷ [])
consume_claim-StoppedAt_example = consume_claim-StoppedAt strict true incoming (b'e' ∷ []) stops

abbrev unsubscribed : ConsumerAdapter ℕ
unsubscribed = record { topics = []; handlers = []; running = false; ready_done = false }

none-Registered : Registered unsubscribed
unfolding lookup
none-Registered t = refl

abbrev subscriptions : List (Text × Option ℕ)
subscriptions = (b'a' ∷ [], some 1) ∷ (b'b' ∷ [], none) ∷ (b'a' ∷ [], some 2) ∷ []

subscribe_all-Registered_example : Registered (subscribe_all subscriptions unsubscribed)
subscribe_all-Registered_example =
    subscribe_all-Registered subscriptions unsubscribed none-Registered

abbrev consume_fails : Round
consume_fails = record { consume_failed = true; done_after = false; done_in_delay = false }

-- The delay doubles up to thirty seconds, and a success starts it again.
delays :
    loop_delays 0 (
      consume_fails
      ∷ consume_fails
      ∷ consume_fails
      ∷ consume_fails
      ∷ consume_fails
      ∷ record consume_fails { consume_failed = false }
      ∷ consume_fails
      ∷ [])
    ≡ 2 ∷ 4 ∷ 8 ∷ 16 ∷ 30 ∷ 2 ∷ []
unfolding loop_delays
delays = refl

loop_delays-Moderate_example : All Moderate (loop_delays 0 (consume_fails ∷ consume_fails ∷ []))
loop_delays-Moderate_example = loop_delays-Moderate 0 (consume_fails ∷ consume_fails ∷ [])
