-- ===== src/Tests/Events.antt =====
-- Tests of the event bus.
use network_digital_twin_pla.Prelude.{◌≡◌, refl, String, List, [], ◌∷◌, none, some, err}
use network_digital_twin_pla.Events.{publish, receive, new_channel_event_bus, close_primary, close}
use network_digital_twin_pla.Events.Fifo.{
  Op, publishes, receives, perform_all, new_run, IsFifo, perform_all-new,
}

abbrev ops : List (Op String)
ops = publishes "a" ∷ publishes "b" ∷ publishes "c" ∷ receives ∷ publishes "d" ∷ receives ∷ []

perform_all-new_example : IsFifo (perform_all ops (new_run 2))
perform_all-new_example = perform_all-new 2 ops

-- "c" meets a full buffer.
delivered_test : (perform_all ops (new_run 2)).delivered ≡ "a" ∷ "b" ∷ []
unfolding publish receive new_channel_event_bus
delivered_test = refl

waiting_test : (perform_all ops (new_run 2)).channel.queue ≡ "d" ∷ []
unfolding publish receive new_channel_event_bus
waiting_test = refl

-- The fallback is closed although the primary publisher fails.
closed_test :
    close {E = String} {S = List String}
      (λ s. (some "no broker", "primary" ∷ s))
      (λ s. (none, "fallback" ∷ s))
      []
    ≡ (err (close_primary "no broker" ∷ []), "fallback" ∷ "primary" ∷ [])
unfolding close
closed_test = refl
