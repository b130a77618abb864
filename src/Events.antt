-- ===== src/Events.antt =====
-- internal/events: the event bus in memory (channel.go) and the publisher that falls back on it
-- (fallback.go). Events are of any type `A`.
pub mod Fifo
pub mod Recovery
use network_digital_twin_pla.Prelude.{
  ℕ, zero, suc, ◌≡◌, Bool, true, false, List, [], ◌∷◌, ◌++◌, Option, none, some, Result, ok, err,
  length, ltb, if◌then◌else◌,
}

-- The buffered channel that publisher and consumer share. Its size is above 0: Go hands an event
-- over an unbuffered channel only to a receiver that waits.
pub record Channel (A : Type 0) : Type 0 where
  pub capacity : ℕ
  pub queue : List A

pub data PublishError : Type 0 where
  queue_full : PublishError

module _ {A : Type 0} where
  unfoldable pub new_channel_event_bus : ℕ → Channel A
  new_channel_event_bus buffer_size = record { capacity = buffer_size; queue = [] }

  -- `channelPublisher.Publish`
  unfoldable pub publish : A → Channel A → Result PublishError (Unit {0}) × Channel A
  publish event ch =
      if ltb (length ch.queue) ch.capacity
      then (ok tt, record ch { queue = ch.queue ++ event ∷ [] })
      else (err queue_full, ch)

  -- The receive of `channelConsumer.Consume`; `none` where it waits.
  unfoldable pub receive : Channel A → Option (A × Channel A)
  receive ch = elim ch.queue [ [] ↦ none | event ∷ rest ↦ some (event, record ch { queue = rest }) ]

-- `fallbackPublisher`: the flag, the calls of `Publish` that have read it as true and wait for the
-- primary publisher, and the goroutines of `tryRecover` whose context is not done.
pub record FallbackPublisher : Type 0 where
  pub primary_ok : Bool
  pub trying : ℕ
  pub recovering : ℕ

unfoldable pub new_fallback_publisher : FallbackPublisher
new_fallback_publisher = record { primary_ok = true; trying = 0; recovering = 0 }

-- The steps of `Publish` and `tryRecover`, at the granularity of the lock on the flag.
pub data Step : FallbackPublisher → FallbackPublisher → Type 0 where
  -- `Publish` reads the flag as true, and calls the primary publisher.
  begins :
      {t p : ℕ}
      → Step
          (record { primary_ok = true; trying = t; recovering = p })
          (record { primary_ok = true; trying = suc t; recovering = p })
  -- `Publish` reads it as false, and calls the fallback.
  falls_back :
      {t p : ℕ}
      → Step
          (record { primary_ok = false; trying = t; recovering = p })
          (record { primary_ok = false; trying = t; recovering = p })
  -- The primary publisher takes the event.
  delivers :
      {b : Bool} {t p : ℕ}
      → Step
          (record { primary_ok = b; trying = suc t; recovering = p })
          (record { primary_ok = b; trying = t; recovering = p })
  -- It fails: the flag is cleared, and `tryRecover` starts with the context of the call.
  fails :
      {b : Bool} {t p : ℕ}
      → Step
          (record { primary_ok = b; trying = suc t; recovering = p })
          (record { primary_ok = false; trying = t; recovering = suc p })
  -- The tick finds the primary publisher down.
  ping_fails :
      {b : Bool} {t p : ℕ}
      → Step
          (record { primary_ok = b; trying = t; recovering = suc p })
          (record { primary_ok = b; trying = t; recovering = suc p })
  -- The tick finds it up: the flag is set, and the goroutine ends.
  recovers :
      {b : Bool} {t p : ℕ}
      → Step
          (record { primary_ok = b; trying = t; recovering = suc p })
          (record { primary_ok = true; trying = t; recovering = p })
  -- The context of the call is done, and the goroutine ends.
  context_done :
      {b : Bool} {t p : ℕ}
      → Step
          (record { primary_ok = b; trying = t; recovering = suc p })
          (record { primary_ok = b; trying = t; recovering = p })

pub data Reachable (start : FallbackPublisher) : FallbackPublisher → Type 0 where
  here : Reachable start start
  next : {s t : FallbackPublisher} → Reachable start s → Step s t → Reachable start t

pub data ClosingError (E : Type 0) : Type 0 where
  close_primary close_fallback : E → ClosingError E

-- `Close`, over what the `Close` of either publisher does to the state of both.
unfoldable pub close :
    {E S : Type 0}
    → (S → Option E × S)
    → (S → Option E × S)
    → S
    → Result (List (ClosingError E)) (Unit {0}) × S
close primary fallback s =
    let (e, t) = primary s in
    let (f, u) = fallback t in
    let errs =
      (elim e [ none ↦ [] | some x ↦ close_primary x ∷ [] ])
      ++ (elim f [ none ↦ [] | some x ↦ close_fallback x ∷ [] ]) in
    (elim errs [ [] ↦ ok tt | x ∷ rest ↦ err (x ∷ rest) ], u)
