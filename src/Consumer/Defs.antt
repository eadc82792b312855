-- ===== src/Consumer/Defs.antt =====
-- mq/kafka/consumer.go: consumerGroupHandler.ConsumeClaim. The messages, the answers of the handler
-- and the ends of the session are given by the environment; logging is left out.
use ais_pkg.Prelude.{
  ℕ, zero, suc, Bool, true, false, not, ◌||◌, List, [], ◌∷◌, ◌++◌, Option, some, none,
  if◌then◌else◌,
}
use ais_pkg.Prelude.Text.{Text, codes}

-- ConsumeResult of package mq
pub data ConsumeResult : Type 0 where
  consume_success consume_retry_later consume_commit : ConsumeResult

-- The two options of the consumer that ConsumeClaim reads.
pub record ConsumerConfig : Type 0 where
  pub auto_commit : Bool
  pub skip_on_error : Bool

-- What a call of the handler returns, with the text of its error if it has one, and whether the
-- session ends while the loop backs off after it.
pub record Call : Type 0 where
  pub result : ConsumeResult
  pub error_text : Option Text
  pub session_done : Bool

-- How the loop over the retries ends, with the number of calls that it made: with a final result,
-- with the last error, or with the session.
pub data Handling : Type 0 where
  processed : ℕ → ConsumeResult → Handling
  gave_up : ℕ → Text → Handling
  ended : ℕ → Handling

abbrev pub is_retry_later : ConsumeResult → Bool
is_retry_later consume_retry_later = true
is_retry_later _ = false

-- defaultMaxRetries
abbrev pub default_max_retries : ℕ
default_max_retries = 3

-- err, or the error that the loop makes for a message to be retried later
abbrev pub last_error : Option Text → Text
last_error none = codes "consume retry later"
last_error (some e) = e

abbrev pub no_error : Option Text → Bool
no_error none = true
no_error (some e) = false

-- Whether a call was a success: err == nil && result != mq.ConsumeRetryLater
abbrev pub succeeded : Call → Bool
succeeded c = if no_error c.error_text then not (is_retry_later c.result) else false

-- The loop over the retries: `i` calls are made, `n` are left, `last` is the last error.
unfoldable pub retry_loop : (ℕ → Call) → ℕ → ℕ → Text → Handling
retry_loop calls i zero last = gave_up i last
retry_loop calls i (suc n) last =
    let rest = retry_loop calls (suc i) n (last_error (calls i).error_text) in
    if succeeded (calls i)
    then processed (suc i) (calls i).result
    else if (calls i).session_done
    then ended (suc i)
    else rest

-- The handling of one message.
unfoldable pub handle_message : (ℕ → Call) → Handling
unfolding retry_loop
handle_message calls = retry_loop calls 0 default_max_retries []

-- What the select of the outer loop receives: a message, with the calls that are made for it, the
-- close of the channel of messages, or the end of the session.
pub data Incoming (M : Type 0) : Type 0 where
  message : M → (ℕ → Call) → Incoming M
  closed session_end : Incoming M

-- What ConsumeClaim does to the session.
pub data Effect (M : Type 0) : Type 0 where
  mark : M → Effect M
  commit : Effect M

-- Whether ConsumeClaim has returned, with an error or nil, or still waits.
pub data ClaimEnd : Type 0 where
  waiting : ClaimEnd
  returned : Option Text → ClaimEnd

pub record Claim (M : Type 0) : Type 0 where
  pub effects : List (Effect M)
  pub claim_end : ClaimEnd

abbrev pub is_commit : ConsumeResult → Bool
is_commit consume_commit = true
is_commit _ = false

module _ {M : Type 0} where
  abbrev pub finish : ClaimEnd → Claim M
  finish e = record { effects = []; claim_end = e }

  abbrev pub do_effects : List (Effect M) → Claim M → Claim M
  do_effects es c = record c { effects = es ++ c.effects }

  -- MarkMessage, and Commit if the result asks for it or offsets are not committed automatically
  abbrev pub mark_processed : ConsumerConfig → M → ConsumeResult → List (Effect M)
  mark_processed cfg m result =
      if is_commit result || not cfg.auto_commit then mark m ∷ commit ∷ [] else mark m ∷ []

  -- What follows the handling of the message `m`; `rest` goes on with the next ones.
  abbrev pub after_handling : ConsumerConfig → M → Handling → Claim M → Claim M
  after_handling cfg m (processed i result) rest = do_effects (mark_processed cfg m result) rest
  after_handling cfg m (gave_up i e) rest =
      if cfg.skip_on_error then do_effects (mark m ∷ []) rest else finish (returned (some e))
  after_handling cfg m (ended i) rest = finish (returned none)

  -- The outer loop of ConsumeClaim, up to the end of what comes in.
  unfoldable pub claim_loop : ConsumerConfig → List (Incoming M) → Claim M
  unfolding handle_message
  claim_loop cfg [] = finish waiting
  claim_loop cfg (message m calls ∷ incoming) =
      let rest = claim_loop cfg incoming in after_handling cfg m (handle_message calls) rest
  claim_loop cfg (closed ∷ incoming) = finish (returned none)
  claim_loop cfg (session_end ∷ incoming) = finish (returned none)

  -- ConsumeClaim of a topic that has a handler or not.
  unfoldable pub consume_claim : ConsumerConfig → Bool → List (Incoming M) → Claim M
  unfolding claim_loop
  consume_claim cfg has_handler incoming =
      if has_handler then claim_loop cfg incoming else finish (returned none)
