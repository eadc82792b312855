-- ===== src/Consumer/Stopping.antt =====
-- When ConsumeClaim returns an error, and where it then stands.
use ais_pkg.Prelude.{
  ℕ, ◌≡◌, refl, ap, ◌∙◌, Bool, true, false, not, ◌||◌, List, [], ◌∷◌, some, if◌then◌else◌,
  Bool-cases, inl, inr,
}
use ais_pkg.Prelude.Text.{Text}
use ais_pkg.Consumer.Defs.{
  ConsumeResult, ConsumerConfig, Call, Handling, processed, gave_up, ended, handle_message,
  Incoming, message, closed, session_end, mark, returned, Claim, is_commit, finish, do_effects,
  mark_processed, after_handling, claim_loop, consume_claim,
}
use ais_pkg.Consumer.Claims.{marks, handle_message-Explains}

gave_up_eq :
    (i : ℕ) (x e : Text) → i ≡ 3 → returned (some x) ≡ returned (some e) → gave_up i x ≡ gave_up 3 e
gave_up_eq i x e p q = cc

gave_up-count : (calls : ℕ → Call) (i : ℕ) (x : Text) → handle_message calls ≡ gave_up i x → i ≡ 3
gave_up-count calls i x given = rw given at (handle_message-Explains calls).1

module _ {M : Type 0} where
  -- The messages `before` came in, and then the message `m`.
  abbrev pub Follows : List M → M → (ℕ → Call) → List (Incoming M) → Type 0
  Follows before m calls [] = ⊥
  Follows [] m calls (message x cs ∷ incoming) = (m ≡ x) × (calls ≡ cs)
  Follows (b ∷ before) m calls (message x cs ∷ incoming) = (b ≡ x) × Follows before m calls incoming
  Follows before m calls (closed ∷ incoming) = ⊥
  Follows before m calls (session_end ∷ incoming) = ⊥

  -- The claim stopped at a message that was given up: all before it were marked, and nothing after.
  pub record StoppedAt (cfg : ConsumerConfig) (incoming : List (Incoming M)) (c : Claim M)
      (e : Text) : Type 0 where
    pub before : List M
    pub failing : M
    pub calls : ℕ → Call
    pub given_up : handle_message calls ≡ gave_up 3 e
    pub strict : cfg.skip_on_error ≡ false
    pub marked : marks c.effects ≡ before
    pub came_in : Follows before failing calls incoming

  StoppedAt-cons :
      (cfg : ConsumerConfig) (m : M) (calls : ℕ → Call) (incoming : List (Incoming M))
      (c d : Claim M) (e : Text)
      → marks d.effects ≡ m ∷ marks c.effects
      → StoppedAt cfg incoming c e
      → StoppedAt cfg (message m calls ∷ incoming) d e
  StoppedAt-cons cfg m calls incoming c d e same stop = record {
    before = m ∷ stop.before;
    failing = stop.failing;
    calls = stop.calls;
    given_up = stop.given_up;
    strict = stop.strict;
    marked = same ∙ ap (λ ms. m ∷ ms) stop.marked;
    came_in = (refl, stop.came_in);
  }

  mark_processed-marks :
      (cfg : ConsumerConfig) (m : M) (r : ConsumeResult) (c : Claim M)
      → marks (do_effects (mark_processed cfg m r) c).effects ≡ m ∷ marks c.effects
  mark_processed-marks cfg m r c = elim (Bool-cases (is_commit r || not cfg.auto_commit)) [
    | inl e ↦ rw e refl
    | inr e ↦ rw e refl
  ]

  StoppedAt-if :
      (cfg : ConsumerConfig) (incoming : List (Incoming M)) (e : Text) (b : Bool) (x y : Claim M)
      → (b ≡ true → x.claim_end ≡ returned (some e) → StoppedAt cfg incoming x e)
      → (b ≡ false → y.claim_end ≡ returned (some e) → StoppedAt cfg incoming y e)
      → (if b then x else y).claim_end ≡ returned (some e)
      → StoppedAt cfg incoming (if b then x else y) e
  StoppedAt-if cfg incoming e true x y f g h = f refl h
  StoppedAt-if cfg incoming e false x y f g h = g refl h

  after_handling-StoppedAt :
      (cfg : ConsumerConfig) (m : M) (calls : ℕ → Call) (h : Handling)
      (incoming : List (Incoming M)) (c : Claim M) (e : Text)
      → handle_message calls ≡ h
      → (c.claim_end ≡ returned (some e) → StoppedAt cfg incoming c e)
      → (after_handling cfg m h c).claim_end ≡ returned (some e)
      → StoppedAt cfg (message m calls ∷ incoming) (after_handling cfg m h c) e
  after_handling-StoppedAt cfg m calls (processed i r) incoming c e given rest h =
      StoppedAt-cons cfg m calls incoming c (do_effects (mark_processed cfg m r) c) e
        (mark_processed-marks cfg m r c) (rest h)
  after_handling-StoppedAt cfg m calls (gave_up i x) incoming c e given rest h =
      StoppedAt-if cfg (message m calls ∷ incoming) e cfg.skip_on_error (do_effects (mark m ∷ []) c)
        (finish (returned (some x)))
        (λ skip h'.
          StoppedAt-cons cfg m calls incoming c (do_effects (mark m ∷ []) c) e refl (rest h'))
        (λ strict h'. record {
          before = [];
          failing = m;
          calls = calls;
          given_up = given ∙ gave_up_eq i x e (gave_up-count calls i x given) h';
          strict = strict;
          marked = refl;
          came_in = (refl, refl);
        })
        h
  after_handling-StoppedAt cfg m calls (ended i) incoming c e given rest h = cc

  claim_loop-StoppedAt :
      (cfg : ConsumerConfig) (incoming : List (Incoming M)) (e : Text)
      → (claim_loop cfg incoming).claim_end ≡ returned (some e)
      → StoppedAt cfg incoming (claim_loop cfg incoming) e
  unfolding claim_loop
  claim_loop-StoppedAt cfg [] e h = cc
  claim_loop-StoppedAt cfg (message m calls ∷ incoming) e h =
      after_handling-StoppedAt cfg m calls (handle_message calls) incoming (claim_loop cfg incoming)
        e refl (claim_loop-StoppedAt cfg incoming e) h
  claim_loop-StoppedAt cfg (closed ∷ incoming) e h = cc
  claim_loop-StoppedAt cfg (session_end ∷ incoming) e h = cc

  -- If ConsumeClaim returns an error, skip_on_error is off, and the error is that of a message which
  -- was given up after three calls. All messages before it have been marked, and no other one has.
  pub consume_claim-StoppedAt :
      (cfg : ConsumerConfig) (has_handler : Bool) (incoming : List (Incoming M)) (e : Text)
      → (consume_claim cfg has_handler incoming).claim_end ≡ returned (some e)
      → StoppedAt cfg incoming (consume_claim cfg has_handler incoming) e
  unfolding consume_claim
  consume_claim-StoppedAt cfg true incoming e h = claim_loop-StoppedAt cfg incoming e h
  consume_claim-StoppedAt cfg false incoming e h = cc
