-- ===== src/Kafka/Interleaving.antt =====
-- The calls of SendSync and SendAsync of mq/kafka/producer.go as interleaved steps, with the rounds of
-- handleAsyncErrors, the ends of contexts and Close. The check of the flag and the send on Input()
-- are two steps. The library may tell of a message that it was given at any time and more than once.
use ais_pkg.Prelude.{Among, ℕ, suc, ◌≡◌, ◌⊎◌, Bool, true, false, List, [], ◌∷◌, some, none, err}
use ais_pkg.Prelude.Text.{Text}
use ais_pkg.Kafka.Producer.{
  Outcome, Event, Look, Metadata, sync_send, callback, Channels, set, handle_event, producer_closed,
  answered, send_sync,
}

-- Where a call stands: after its check of the flag, waiting for its channel, accepted without a
-- result, with a result, or left with the error of its context.
pub data Phase : Type 0 where
  not_begun checked accepted : Phase
  waiting : ℕ → Phase
  returned : Outcome → Phase
  gave_up : Text → Phase

-- A message that the library was given: the call that it is of, and its metadata.
pub record Sent : Type 0 where
  pub sender : ℕ
  pub metadata : Metadata

-- The producer with its calls by number: the flag, their phases, the channels and the number of the
-- next one, the messages given to the library, and what it told of them.
pub record System : Type 0 where
  pub closed : Bool
  pub phase : ℕ → Phase
  pub channels : Channels
  pub next : ℕ
  pub sent : List Sent
  pub told : List (Sent × Event)

-- The check of the flag.
abbrev pub checked_flag : Bool → Phase
checked_flag true = returned (err producer_closed)
checked_flag false = checked

pub data Step (s : System) : System → Type 0 where
  closes : Step s (record s { closed = true })
  begins :
      (i : ℕ)
      → s.phase i ≡ not_begun
      → Step s (record s { phase = set i (checked_flag s.closed) s.phase })
  takes :
      (i : ℕ)
      → s.phase i ≡ checked
      → Step s (record s {
        phase = set i (waiting s.next) s.phase;
        channels = set s.next none s.channels;
        next = suc s.next;
        sent = record { sender = i; metadata = sync_send s.next } ∷ s.sent;
      })
  takes_async :
      (i : ℕ) (given : Bool)
      → s.phase i ≡ checked
      → Step s (record s {
        phase = set i accepted s.phase;
        sent = record { sender = i; metadata = callback given } ∷ s.sent;
      })
  tells :
      (m : Sent) (look : Look) (event : Event)
      → Among m s.sent
      → Step s (record s {
        channels = (handle_event look s.channels m.metadata event).0;
        told = (m, event) ∷ s.told;
      })
  receives :
      (i ch : ℕ) (o : Outcome)
      → s.phase i ≡ waiting ch
      → s.channels ch ≡ some o
      → Step s (record s {
        phase = set i (returned (send_sync false (answered o))) s.phase;
        channels = set ch none s.channels;
      })
  ends :
      (i : ℕ) (e : Text)
      → (s.phase i ≡ checked) ⊎ ((ch : ℕ) × (s.phase i ≡ waiting ch))
      → Step s (record s { phase = set i (gave_up e) s.phase })

abbrev pub start : System
start = record {
  closed = false;
  phase = λ i. not_begun;
  channels = λ ch. none;
  next = 0;
  sent = [];
  told = [];
}

-- The steps from a new producer.
pub data Reachable : System → Type 0 where
  new : Reachable start
  after : {s t : System} → Reachable s → Step s t → Reachable t
