-- ===== src/Shim/Timers/Tests.antt =====
-- The queue at concrete timers.
use ttlive_cpp.Prelude.{
  ℕ, ◌≡◌, refl, ◌⊎◌, true, false, List, [], ◌∷◌, ◌++◌, none, if◌then◌else◌, ◌==◌, All, arith,
}
use ttlive_cpp.Shim.Timers.{
  Timer, World, Action, sets, drains, function, act, drain, drain_loop, clear_timeout, set_draining,
  safety_limit,
}
use ttlive_cpp.Shim.Timers.Drain.{drain_nesting, drain_ends, drain_order, quiet}
use ttlive_cpp.Shim.Timers.Ids.{IsFresh, timer_ids}

abbrev timer : ℕ → ℕ → Timer
timer id ms = record { callback = function id; args = []; id = id; ms = ms }

abbrev log : Timer → List ℕ → List ℕ
log t fired = fired ++ (t.id ∷ [])

-- The first timer queues another one and asks for a drain.
abbrev body : Timer → World (List ℕ) → List Action × List ℕ
body t w = (if t.id == 1 then sets (function 7) none [] ∷ drains ∷ [] else [], log t w.rest)

abbrev two_timers : World (List ℕ)
two_timers = record {
  timers = record { queue = timer 1 300 ∷ timer 2 10 ∷ []; last_id = 2; draining = false };
  rest = [];
}

nesting_ignored : drain body 1 two_timers ≡ drain body 3 two_timers
nesting_ignored = drain_nesting body 0 2 two_timers

drain_ends_example :
    ((drain body 1 two_timers).timers.draining ≡ false)
    × (((drain body 1 two_timers).timers.queue ≡ [])
        ⊎ ((drain_loop body (drain body 0) safety_limit (set_draining true two_timers)).1
            ≡ safety_limit))
drain_ends_example = drain_ends body 0 two_timers refl

drain_order_example :
    (drain (quiet log) 1 two_timers)
    ≡ (record { timers = record { queue = []; last_id = 2; draining = false }; rest = 1 ∷ 2 ∷ [] })
drain_order_example = drain_order log 0 two_timers refl (omega arith)

timer_ids_example :
    IsFresh (act body (drain body 1) drains two_timers).timers
    × All (λ t. (t.id == 2) ≡ false) (clear_timeout 2 two_timers.timers).queue
timer_ids_example = timer_ids body 1 drains 2 two_timers (omega arith, (omega arith, omega arith))
