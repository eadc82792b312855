-- ===== src/Kafka/Sends.antt =====
-- Every SendSync of mq/kafka/producer.go gets the result of its own message.
use ais_pkg.Prelude.{
  Among, ℕ, suc, ◌≡◌, ◌⊎◌, inl, inr, refl, sym, ◌∙◌, ap, arith, Bool, true, false, ◌∷◌, some, none,
  err,
}
use ais_pkg.Kafka.Producer.{
  Outcome, Event, Look, sync_send, callback, set, handle_event, producer_closed, send_sync,
}
use ais_pkg.Kafka.Interleaving.{
  Phase, accepted, waiting, returned, gave_up, Sent, System, checked_flag, Step, closes, begins,
  takes, takes_async, tells, receives, ends, start, Reachable, new, after,
}
use ais_pkg.Kafka.Delivery.{
  outcome_of-Reports, Told, Sound, set-eq, Told-more, handle_event-content,
}

checked_flag-waiting : (b : Bool) (ch : ℕ) → checked_flag b ≡ waiting ch → ⊥
checked_flag-waiting true ch h = cc
checked_flag-waiting false ch h = cc

checked_flag-returned :
    (b : Bool) (o : Outcome) → checked_flag b ≡ returned o → o ≡ err producer_closed
checked_flag-returned true o h = cc
checked_flag-returned false o h = absurd (cc)

same_channel : (a b : ℕ) → sync_send a ≡ sync_send b → a ≡ b
same_channel a b h = cc

waiting-waiting : (a b : ℕ) → waiting a ≡ waiting b → a ≡ b
waiting-waiting a b h = cc

returned-returned : (o p : Outcome) → returned o ≡ returned p → o ≡ p
returned-returned o p h = cc

-- A step that changes only the phase of one call, to one that neither waits nor has a result of its
-- message.
phase_set :
    (s : System) (i : ℕ) (p : Phase)
    → ((ch : ℕ) → p ≡ waiting ch → ⊥)
    → ((o : Outcome) → p ≡ returned o → o ≡ err producer_closed)
    → Sound s
    → Sound (record s { phase = set i p s.phase })
phase_set s i p idle refused sound = record {
  made = sound.made;
  waits = λ j ch h. elim (set-eq i p (waiting ch) s.phase j h) [
    | inl (same, e) ↦ absurd (idle ch e)
    | inr e ↦ sound.waits j ch e
  ];
  was_sent = sound.was_sent;
  content = sound.content;
  result = λ j o h. elim (set-eq i p (returned o) s.phase j h) [
    | inl (same, e) ↦ inl (refused o e)
    | inr e ↦ sound.result j o e
  ];
}

takes-Sound :
    (s : System) (i : ℕ)
    → Sound s
    → Sound (record s {
      phase = set i (waiting s.next) s.phase;
      channels = set s.next none s.channels;
      next = suc s.next;
      sent = record { sender = i; metadata = sync_send s.next } ∷ s.sent;
    })
takes-Sound s i sound = record {
  made = λ m ch there md. elim there [
    | inl e ↦
        let same = same_channel s.next ch (sym (ap (λ (x : Sent). x.metadata) e) ∙ md) in
        omega arith
    | inr old ↦ let small = sound.made m ch old md in omega arith
  ];
  waits = λ j ch h. elim (set-eq i (waiting s.next) (waiting ch) s.phase j h) [
    | inl (own, e) ↦
        let same = waiting-waiting s.next ch e in
        (
          omega arith,
          λ m there md. elim there [
            | inl new_one ↦ ap (λ (x : Sent). x.sender) new_one ∙ sym own
            | inr old ↦ let small = sound.made m ch old md in absurd (omega arith)
          ],
        )
    | inr before ↦
        let (small, own) = sound.waits j ch before in
        (
          omega arith,
          λ m there md. elim there [
            | inl new_one ↦
                let same =
                  same_channel s.next ch (sym (ap (λ (x : Sent). x.metadata) new_one) ∙ md) in
                absurd (omega arith)
            | inr old ↦ own m old md
          ],
        )
  ];
  was_sent = λ m event there. inr (sound.was_sent m event there);
  content = λ ch o h. elim (set-eq s.next none (some o) s.channels ch h) [
    | inl (same, e) ↦ absurd (cc)
    | inr e ↦ sound.content ch o e
  ];
  result = λ j o h. elim (set-eq i (waiting s.next) (returned o) s.phase j h) [
    | inl (same, e) ↦ absurd (cc)
    | inr e ↦ sound.result j o e
  ];
}

-- A message with a callback is of no channel.
callback_sent :
    (s : System) (m : Sent) (given : Bool)
    → m.metadata ≡ callback given
    → Sound s
    → Sound (record s { sent = m ∷ s.sent })
callback_sent s m given none_of sound = record {
  made = λ n ch there md. elim there [
    | inl e ↦ absurd (other n ch e md)
    | inr old ↦ sound.made n ch old md
  ];
  waits = λ j ch h.
      let (small, own) = sound.waits j ch h in
      (
        small,
        λ n there md. elim there [ inl e ↦ absurd (other n ch e md) | inr old ↦ own n old md ],
      );
  was_sent = λ n event there. inr (sound.was_sent n event there);
  content = sound.content;
  result = sound.result;
}
  where
    other : (n : Sent) (ch : ℕ) → n ≡ m → n.metadata ≡ sync_send ch → ⊥
    other n ch e md = apart (sym none_of ∙ ap (λ (x : Sent). x.metadata) (sym e) ∙ md)
      where
        apart : callback given ≡ sync_send ch → ⊥
        apart h = cc

tells-Sound :
    (s : System) (m : Sent) (look : Look) (event : Event)
    → Among m s.sent
    → Sound s
    → Sound (record s {
      channels = (handle_event look s.channels m.metadata event).0;
      told = (m, event) ∷ s.told;
    })
tells-Sound s m look event there sound = record {
  made = sound.made;
  waits = sound.waits;
  was_sent = λ n e told. elim told [
    | inl same ↦ rw (ap (λ (x : Sent × Event). x.0) same) there
    | inr before ↦ sound.was_sent n e before
  ];
  content = λ ch o h. elim (handle_event-content look s.channels m.metadata event ch o h) [
    | inl (md, own) ↦ (m, event, inl refl, md, rw own (outcome_of-Reports event))
    | inr before ↦ Told-more (m, event) s.told _ o (sound.content ch o before)
  ];
  result = λ i o h. elim (sound.result i o h) [
    | inl refused ↦ inl refused
    | inr told ↦ inr (Told-more (m, event) s.told _ o told)
  ];
}

receives-Sound :
    (s : System) (i ch : ℕ) (o : Outcome)
    → s.phase i ≡ waiting ch
    → s.channels ch ≡ some o
    → Sound s
    → Sound (record s { phase = set i (returned o) s.phase; channels = set ch none s.channels })
receives-Sound s i ch o waited full sound = record {
  made = sound.made;
  waits = λ j c h. elim (set-eq i (returned o) (waiting c) s.phase j h) [
    | inl (same, e) ↦ absurd (cc)
    | inr e ↦ sound.waits j c e
  ];
  was_sent = sound.was_sent;
  content = λ c p h. elim (set-eq ch none (some p) s.channels c h) [
    | inl (same, e) ↦ absurd (cc)
    | inr e ↦ sound.content c p e
  ];
  result = λ j p h. elim (set-eq i (returned o) (returned p) s.phase j h) [
    | inl (same, e) ↦
        let (m, event, told, md, reports) = sound.content ch o full in
        let own = (sound.waits i ch waited).1 m (sound.was_sent m event told) md in
        inr (m, event, told, own ∙ sym same, rw (← returned-returned o p e) reports)
    | inr e ↦ sound.result j p e
  ];
}

Step-Sound : {s t : System} → Step s t → Sound s → Sound t
unfolding send_sync
Step-Sound closes sound = record {
  made = sound.made;
  waits = sound.waits;
  was_sent = sound.was_sent;
  content = sound.content;
  result = sound.result;
}
Step-Sound {s = s} (begins i idle) sound =
    phase_set s i (checked_flag s.closed) (checked_flag-waiting s.closed)
      (checked_flag-returned s.closed) sound
Step-Sound {s = s} (takes i ready) sound = takes-Sound s i sound
Step-Sound {s = s} (takes_async i given ready) sound =
    callback_sent (record s { phase = set i accepted s.phase }) _ given refl
      (phase_set s i accepted (λ ch h. cc) (λ o h. absurd (cc)) sound)
Step-Sound {s = s} (tells m look event there) sound = tells-Sound s m look event there sound
Step-Sound {s = s} (receives i ch o waited full) sound = receives-Sound s i ch o waited full sound
Step-Sound {s = s} (ends i e there) sound =
    phase_set s i (gave_up e) (λ ch h. cc) (λ o h. absurd (cc)) sound

start-Sound : Sound start
start-Sound = record {
  made = λ m ch there md. absurd there;
  waits = λ i ch h. absurd (cc);
  was_sent = λ m event there. absurd there;
  content = λ ch o h. absurd (cc);
  result = λ i o h. absurd (cc);
}

Reachable-Sound : {s : System} → Reachable s → Sound s
Reachable-Sound new = start-Sound
Reachable-Sound (after before step) = Step-Sound step (Reachable-Sound before)

-- In whatever order calls of SendSync and SendAsync, the library's news of their messages, the ends
-- of contexts and Close interleave, a result that a SendSync returns is the error of a closed
-- producer, or it reports what the library told of a message of this very call: its error, or a
-- result with its topic, partition and offset.
pub send_sync-own_result :
    (s : System) (i : ℕ) (o : Outcome)
    → Reachable s
    → s.phase i ≡ returned o
    → (o ≡ err producer_closed) ⊎ Told s.told (λ m. m.sender ≡ i) o
send_sync-own_result s i o reached h = (Reachable-Sound reached).result i o h
