-- ===== src/Events/Recovery.antt =====
-- When the fallback publisher returns to its primary one.

use network_digital_twin_pla.Prelude.{◌≡◌, refl, false, arith}
use network_digital_twin_pla.Events.{
  FallbackPublisher, new_fallback_publisher, Step, begins, falls_back, delivers, fails, ping_fails,
  recovers, context_done, Reachable, here, next,
}

-- The flag is cleared, and neither a call nor a goroutine is left that would set it.
pub record IsStranded (s : FallbackPublisher) : Type 0 where
  pub down : s.primary_ok ≡ false
  pub no_call : s.trying ≡ 0
  pub no_recovery : s.recovering ≡ 0

IsStranded-Step : (s t : FallbackPublisher) → IsStranded s → Step s t → IsStranded t
IsStranded-Step s t h begins = cc (h.down)
IsStranded-Step s t h falls_back = h
IsStranded-Step s t h delivers = absurd (omega (arith, h.no_call))
IsStranded-Step s t h fails = absurd (omega (arith, h.no_call))
IsStranded-Step s t h ping_fails = absurd (omega (arith, h.no_recovery))
IsStranded-Step s t h recovers = absurd (omega (arith, h.no_recovery))
IsStranded-Step s t h context_done = absurd (omega (arith, h.no_recovery))

pub Reachable-IsStranded : (s t : FallbackPublisher) → IsStranded s → Reachable s t → IsStranded t
Reachable-IsStranded s t h here = h
Reachable-IsStranded s t h (next {s = m} r step) =
    IsStranded-Step m t (Reachable-IsStranded s m h r) step

abbrev stranded : FallbackPublisher
stranded = record { primary_ok = false; trying = 0; recovering = 0 }

-- A new publisher can come to a state that it never leaves, with the flag cleared for good: one call
-- fails at the primary publisher, and its context is done before a ping succeeds.
pub stranded_for_good :
    Reachable new_fallback_publisher stranded
    × ((t : FallbackPublisher) → Reachable stranded t → t.primary_ok ≡ false)
unfolding new_fallback_publisher
stranded_for_good = (
  next (next (next here begins) fails) context_done,
  λ t r.
      (Reachable-IsStranded stranded t (record { down = refl; no_call = refl; no_recovery = refl })
        r).down,
)
