-- ===== src/Consumer/Subscriptions.antt =====
-- The topics and the delays of the consumer of mq/kafka/consumer.go.
use ais_pkg.Prelude.{
  ℕ, suc, ◌≤◌, ◌≡◌, refl, sym, ◌∙◌, ap, arith, Bool, true, false, List, [], ◌∷◌, ◌++◌, Option, some,
  none, if◌then◌else◌, All,
}
use ais_pkg.Prelude.Text.{Text, text_eq, text_eq→eq}
use ais_pkg.Prelude.Maps.{lookup, lookup-insert}
use ais_pkg.Consumer.Lifecycle.{
  ConsumerAdapter, new_topics, subscribe, retry_delay_base, retry_delay_max, next_delay, Round,
  loop_delays,
}

-- How often a topic is in a list.
abbrev pub occurrences : Text → List Text → ℕ
occurrences t [] = 0
occurrences t (u ∷ us) = let rest = occurrences t us in if text_eq u t then suc rest else rest

abbrev pub one_if_some : {H : Type 0} → Option H → ℕ
one_if_some none = 0
one_if_some (some h) = 1

-- Every topic with a handler is in the list once, and no other topic is.
abbrev pub Registered : {H : Type 0} → ConsumerAdapter H → Type 0
Registered c = (t : Text) → occurrences t c.topics ≡ one_if_some (lookup t c.handlers)

occurrences-last :
    (t u : Text) (us : List Text)
    → occurrences t (us ++ u ∷ [])
      ≡ (if text_eq u t then suc (occurrences t us) else occurrences t us)
occurrences-last t u [] = refl
occurrences-last t u (v ∷ us) = ground (arith, occurrences-last t u us)

module _ {H : Type 0} (handler : H) where
  added :
      (b : Bool) (n : ℕ) (o : Option H)
      → (b ≡ true → o ≡ none)
      → n ≡ one_if_some o
      → (if b then suc n else n) ≡ one_if_some (if b then some handler else o)
  added true n o absent h = ap suc (h ∙ ap one_if_some (absent refl))
  added false n o absent h = h

  replaced :
      (b : Bool) (n : ℕ) (o : Option H) (old : H)
      → (b ≡ true → o ≡ some old)
      → n ≡ one_if_some o
      → n ≡ one_if_some (if b then some handler else o)
  replaced true n o old there h = h ∙ ap one_if_some (there refl)
  replaced false n o old there h = h

  counted :
      (topic t : Text) (topics : List Text) (handlers : List (Text × H)) (o : Option H)
      → lookup topic handlers ≡ o
      → occurrences t topics ≡ one_if_some (lookup t handlers)
      → occurrences t (new_topics o topic topics)
        ≡ one_if_some (if text_eq topic t then some handler else lookup t handlers)
  counted topic t topics handlers none e h =
      occurrences-last t topic topics
      ∙ added (text_eq topic t) (occurrences t topics) (lookup t handlers)
          (λ k. rw (← text_eq→eq topic t k) e) h
  counted topic t topics handlers (some old) e h =
      replaced (text_eq topic t) (occurrences t topics) (lookup t handlers) old
        (λ k. rw (← text_eq→eq topic t k) e) h

subscribe-Registered :
    {H : Type 0} (topic : Text) (given : Option H) (c : ConsumerAdapter H)
    → Registered c
    → Registered (subscribe topic given c).1
unfolding subscribe
subscribe-Registered topic none c reg t = reg t
subscribe-Registered topic (some handler) c reg t =
    counted handler topic t c.topics c.handlers (lookup topic c.handlers) refl (reg t)
    ∙ ap one_if_some (sym (lookup-insert topic t handler c.handlers))

-- Calls of Subscribe one after another.
abbrev pub subscribe_all :
    {H : Type 0} → List (Text × Option H) → ConsumerAdapter H → ConsumerAdapter H
subscribe_all [] c = c
subscribe_all ((topic, handler) ∷ more) c = subscribe_all more (subscribe topic handler c).1

-- However often Subscribe is called, with handlers that may be nil, every topic that has a handler
-- is in the list of topics once, and no other topic is, if this held before.
pub subscribe_all-Registered :
    {H : Type 0} (calls : List (Text × Option H)) (c : ConsumerAdapter H)
    → Registered c
    → Registered (subscribe_all calls c)
subscribe_all-Registered [] c reg = reg
subscribe_all-Registered ((topic, handler) ∷ calls) c reg =
    subscribe_all-Registered calls (subscribe topic handler c).1
      (subscribe-Registered topic handler c reg)

-- A delay of at least two and at most thirty seconds.
abbrev pub Moderate : ℕ → Type 0
Moderate d = (retry_delay_base ≤ d) × (d ≤ retry_delay_max)

next_delay-Moderate : (d : ℕ) → Moderate (next_delay d)
unfolding next_delay
next_delay-Moderate d = (ground arith, ground arith)

All-if :
    (b : Bool) (xs ys : List ℕ)
    → All Moderate xs
    → All Moderate ys
    → All Moderate (if b then xs else ys)
All-if true xs ys hx hy = hx
All-if false xs ys hx hy = hy

-- Whatever calls of Consume fail and whenever the context ends, each delay that the loop of Start
-- begins is between two and thirty seconds.
pub loop_delays-Moderate : (d : ℕ) (rounds : List Round) → All Moderate (loop_delays d rounds)
unfolding loop_delays
loop_delays-Moderate d [] = tt
loop_delays-Moderate d (round ∷ rounds) = All-if round.done_after [] _ tt (
    All-if round.consume_failed _ _
      (All-if round.done_in_delay _ _ (next_delay-Moderate d, tt)
        (next_delay-Moderate d, loop_delays-Moderate (next_delay d) rounds))
      (loop_delays-Moderate 0 rounds))
