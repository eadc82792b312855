-- ===== src/Consumer/Claims.antt =====
-- Which messages a claim marks as consumed, and how often it calls the handler.
use ais_pkg.Prelude.{
  ℕ, zero, suc, ◌+◌, ◌≤◌, ◌≡◌, refl, arith, Bool, true, false, not, ◌||◌, List, [], ◌∷◌,
  if◌then◌else◌, Bool-cases, inl, inr,
}
use ais_pkg.Prelude.Text.{Text}
use ais_pkg.Consumer.Defs.{
  ConsumeResult, ConsumerConfig, Call, Handling, processed, gave_up, ended, last_error, succeeded,
  retry_loop, handle_message, Incoming, message, closed, session_end, Effect, mark, commit, Claim,
  is_commit, do_effects, mark_processed, after_handling, claim_loop, consume_claim,
}

-- The number of calls that a handling made.
abbrev pub calls_made : Handling → ℕ
calls_made (processed i r) = i
calls_made (gave_up i e) = i
calls_made (ended i) = i

-- What the end of a handling says of the last call: it succeeded and gave the result, it failed
-- with the error, or it failed and the session ended.
abbrev pub Explains : (ℕ → Call) → Handling → Type 0
Explains calls (processed i r) =
    (k : ℕ) × (i ≡ suc k) × (succeeded (calls k) ≡ true) × ((calls k).result ≡ r)
Explains calls (gave_up i e) =
    (k : ℕ) × (i ≡ suc k) × (succeeded (calls k) ≡ false) × (e ≡ last_error (calls k).error_text)
Explains calls (ended i) =
    (k : ℕ) × (i ≡ suc k) × (succeeded (calls k) ≡ false) × ((calls k).session_done ≡ true)

-- No more calls than the retries allow, and all of them before giving up.
abbrev pub Counted : ℕ → Handling → Type 0
Counted b (processed i r) = i ≤ b
Counted b (gave_up i e) = i ≡ b
Counted b (ended i) = i ≤ b

Counted-if :
    (b : ℕ) (t : Bool) (x y : Handling) → Counted b x → Counted b y → Counted b (if t then x else y)
Counted-if b true x y h k = h
Counted-if b false x y h k = k

module _ (calls : ℕ → Call) where
  retry_step :
      (i n : ℕ) (last : Text)
      → (succeeded (calls i) ≡ false
          → Explains calls (retry_loop calls (suc i) n (last_error (calls i).error_text)))
      → Explains calls (retry_loop calls i (suc n) last)
  unfolding retry_loop
  retry_step i n last next = elim (Bool-cases (succeeded (calls i))) [
    | inl s ↦ rw s (i, refl, s, refl)
    | inr s ↦ elim (Bool-cases (calls i).session_done) [
      | inl d ↦ rw (s, d) (i, refl, s, d)
      | inr d ↦ rw (s, d) (next s)
    ]
  ]

  retry_rest :
      (i n : ℕ)
      → succeeded (calls i) ≡ false
      → Explains calls (retry_loop calls (suc i) n (last_error (calls i).error_text))
  unfolding retry_loop
  retry_rest i zero s = (i, refl, s, refl)
  retry_rest i (suc n) s =
      retry_step (suc i) n (last_error (calls i).error_text) (λ s'. retry_rest (suc i) n s')

  retry_loop-Counted : (i n : ℕ) (last : Text) → Counted (i + n) (retry_loop calls i n last)
  unfolding retry_loop
  retry_loop-Counted i zero last = omega arith
  retry_loop-Counted i (suc n) last =
      Counted-if (i + suc n) (succeeded (calls i)) _ _ (omega arith) (
        Counted-if (i + suc n) (calls i).session_done _ _ (omega arith)
          (rw (add-suc i n) (retry_loop-Counted (suc i) n (last_error (calls i).error_text))))
    where
      add-suc : (i n : ℕ) → i + suc n ≡ suc i + n
      add-suc i n = omega arith

  -- ConsumeClaim calls the handler for one message at most three times. A message that counts as
  -- processed has the result of its last call, which returned no error and did not ask for a retry.
  -- One that is given up has had three calls, and has the error of the last, which failed.
  pub handle_message-Explains :
      Explains calls (handle_message calls) × Counted 3 (handle_message calls)
  unfolding handle_message
  handle_message-Explains = (retry_step 0 2 [] (λ s. retry_rest 0 2 s), retry_loop-Counted 0 3 [])

module _ {M : Type 0} where
  -- The messages that are marked, in order.
  abbrev pub marks : List (Effect M) → List M
  marks [] = []
  marks (mark m ∷ es) = m ∷ marks es
  marks (commit ∷ es) = marks es

  -- The marked messages are the first ones that came in, and for each the handler succeeded.
  abbrev pub MarksProcessed : List (Incoming M) → List M → Type 0
  MarksProcessed incoming [] = Unit {0}
  MarksProcessed [] (m ∷ ms) = ⊥
  MarksProcessed (message x calls ∷ incoming) (m ∷ ms) =
      (m ≡ x) × ((k : ℕ) × (succeeded (calls k) ≡ true)) × MarksProcessed incoming ms
  MarksProcessed (closed ∷ incoming) (m ∷ ms) = ⊥
  MarksProcessed (session_end ∷ incoming) (m ∷ ms) = ⊥

  MarksProcessed-processed :
      (cfg : ConsumerConfig) (m : M) (calls : ℕ → Call) (r : ConsumeResult)
      (incoming : List (Incoming M)) (c : Claim M) (k : ℕ)
      → succeeded (calls k) ≡ true
      → MarksProcessed incoming (marks c.effects)
      → MarksProcessed
          (message m calls ∷ incoming)
          (marks (do_effects (mark_processed cfg m r) c).effects)
  MarksProcessed-processed cfg m calls r incoming c k s h =
      elim (Bool-cases (is_commit r || not cfg.auto_commit)) [
        | inl e ↦ rw e (refl, (k, s), h)
        | inr e ↦ rw e (refl, (k, s), h)
      ]

  after_handling-MarksProcessed :
      (cfg : ConsumerConfig) (m : M) (calls : ℕ → Call) (h : Handling)
      (incoming : List (Incoming M)) (c : Claim M)
      → cfg.skip_on_error ≡ false
      → Explains calls h
      → MarksProcessed incoming (marks c.effects)
      → MarksProcessed (message m calls ∷ incoming) (marks (after_handling cfg m h c).effects)
  after_handling-MarksProcessed cfg m calls (processed i r) incoming c strict (k, _, s, _) rest =
      MarksProcessed-processed cfg m calls r incoming c k s rest
  after_handling-MarksProcessed cfg m calls (gave_up i e) incoming c strict told rest = rw strict tt
  after_handling-MarksProcessed cfg m calls (ended i) incoming c strict told rest = tt

  claim_loop-MarksProcessed :
      (cfg : ConsumerConfig) (incoming : List (Incoming M))
      → cfg.skip_on_error ≡ false
      → MarksProcessed incoming (marks (claim_loop cfg incoming).effects)
  unfolding claim_loop
  claim_loop-MarksProcessed cfg [] strict = tt
  claim_loop-MarksProcessed cfg (message m calls ∷ incoming) strict =
      after_handling-MarksProcessed cfg m calls (handle_message calls) incoming
        (claim_loop cfg incoming) strict (handle_message-Explains calls).0
        (claim_loop-MarksProcessed cfg incoming strict)
  claim_loop-MarksProcessed cfg (closed ∷ incoming) strict = tt
  claim_loop-MarksProcessed cfg (session_end ∷ incoming) strict = tt

  -- No message is lost. Without skip_on_error the messages that ConsumeClaim marks are the first
  -- ones that came in, in order and with none left out, and for each of them a call of the handler
  -- succeeded.
  pub consume_claim-MarksProcessed :
      (cfg : ConsumerConfig) (has_handler : Bool) (incoming : List (Incoming M))
      → cfg.skip_on_error ≡ false
      → MarksProcessed incoming (marks (consume_claim cfg has_handler incoming).effects)
  unfolding consume_claim
  consume_claim-MarksProcessed cfg true incoming strict =
      claim_loop-MarksProcessed cfg incoming strict
  consume_claim-MarksProcessed cfg false incoming strict = tt
