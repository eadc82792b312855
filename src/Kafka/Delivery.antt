-- ===== src/Kafka/Delivery.antt =====
-- What holds of the producer of mq/kafka/producer.go while its calls interleave.
use ais_pkg.Prelude.{
  Among, ℕ, ◌≡◌, ◌⊎◌, ◌<◌, inl, inr, refl, sym, ◌∙◌, ap, arith, Bool, Bool-cases, true, false, List,
  ◌∷◌, Option, some, none, ok, err, ◌==◌, if◌then◌else◌, ◌&&◌,
}
use ais_pkg.Kafka.Producer.{
  SendResult, Outcome, Event, failure, success, outcome_of, Look, deliver_sync_send_result,
  Metadata, sync_send, callback, Channels, set, handle_event, producer_closed,
}
use ais_pkg.Kafka.Interleaving.{waiting, returned, Sent, System}

-- The outcome that reports what the library told: its error, or a result with its topic, partition
-- and offset.
abbrev pub Reports : Event → Outcome → Type 0
Reports (failure e) o = o ≡ err e
Reports (success topic partition offset) o =
    (r : SendResult) × (o ≡ ok r)
    × (r.topic ≡ topic)
    × (r.partition ≡ partition)
    × (r.offset ≡ offset)

pub outcome_of-Reports : (event : Event) → Reports event (outcome_of event)
unfolding outcome_of
outcome_of-Reports (failure e) = refl
outcome_of-Reports (success topic partition offset) = (_, refl, refl, refl, refl)

-- The library told of a message with the property, and the outcome reports it.
abbrev pub Told : List (Sent × Event) → (Sent → Type 0) → Outcome → Type 0
Told told P o = (m : Sent) × (event : Event) × Among (m, event) told × P m × Reports event o

-- What holds of the producer: channels of messages are made already; a call waits at a channel of
-- its own messages only; what was told is of messages that were sent; what stands in a channel was
-- told of a message with that channel; and what a call returned was told of its message.
pub record Sound (s : System) : Type 0 where
  pub made : (m : Sent) (ch : ℕ) → Among m s.sent → m.metadata ≡ sync_send ch → ch < s.next
  pub waits :
      (i ch : ℕ)
      → s.phase i ≡ waiting ch
      → (ch < s.next) × ((m : Sent) → Among m s.sent → m.metadata ≡ sync_send ch → m.sender ≡ i)
  pub was_sent : (m : Sent) (event : Event) → Among (m, event) s.told → Among m s.sent
  pub content :
      (ch : ℕ) (o : Outcome)
      → s.channels ch ≡ some o
      → Told s.told (λ m. m.metadata ≡ sync_send ch) o
  pub result :
      (i : ℕ) (o : Outcome)
      → s.phase i ≡ returned o
      → (o ≡ err producer_closed) ⊎ Told s.told (λ m. m.sender ≡ i) o

set-cases :
    {A : Type 0} (i : ℕ) (a : A) (f : ℕ → A) (j : ℕ)
    → ((j ≡ i) × (set i a f j ≡ a)) ⊎ (set i a f j ≡ f j)
set-cases i a f j = elim (Bool-cases (j == i)) [
  | inl e ↦ inl (ground arith, rw e refl)
  | inr e ↦ inr (rw e refl)
]

pub set-eq :
    {A : Type 0} (i : ℕ) (a b : A) (f : ℕ → A) (j : ℕ)
    → set i a f j ≡ b
    → ((j ≡ i) × (a ≡ b)) ⊎ (f j ≡ b)
set-eq i a b f j h = elim (set-cases i a f j) [
  | inl (same, e) ↦ inl (same, sym e ∙ h)
  | inr e ↦ inr (sym e ∙ h)
]

pub Told-more :
    (x : Sent × Event) (told : List (Sent × Event)) (P : Sent → Type 0) (o : Outcome)
    → Told told P o
    → Told (x ∷ told) P o
Told-more x told P o (m, event, there, p, reports) = (m, event, inr there, p, reports)

abbrev after_look : Bool → Bool → Outcome → Bool × Option Outcome
after_look a b o = if a then (false, none) else if b then (false, none) else (true, some o)

looked : (a b : Bool) (o p : Outcome) → (after_look a b o).1 ≡ some p → p ≡ o
looked true b o p h = absurd (cc)
looked false true o p h = absurd (cc)
looked false false o p h = cc

delivered_one :
    (look : Look) (channel : Option Outcome) (o p : Outcome)
    → (deliver_sync_send_result look channel o).1 ≡ some p
    → (p ≡ o) ⊎ (channel ≡ some p)
unfolding deliver_sync_send_result
delivered_one look none o p h =
    inl (looked look.done_first (look.done_then && look.takes_done) o p h)
delivered_one look (some old) o p h = inr h

pub handle_event-content :
    (look : Look) (channels : Channels) (metadata : Metadata) (event : Event) (ch : ℕ) (o : Outcome)
    → (handle_event look channels metadata event).0 ch ≡ some o
    → ((metadata ≡ sync_send ch) × (o ≡ outcome_of event)) ⊎ (channels ch ≡ some o)
unfolding handle_event
handle_event-content look channels (callback given) event ch o h = inr h
handle_event-content look channels (sync_send c) event ch o h =
    elim (set-eq c _ (some o) channels ch h) [
      | inl (same, e) ↦ elim (delivered_one look (channels c) (outcome_of event) o e) [
        | inl own ↦ inl (ap sync_send (sym same), own)
        | inr old ↦ inr (ap channels same ∙ old)
      ]
      | inr e ↦ inr e
    ]
