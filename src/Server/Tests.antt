-- ===== src/Server/Tests.antt =====
-- The theorems on the clock at concrete inputs: the simulation is the count of its ticks.
use populace.Prelude.{
  ℕ, ◌+◌, ◌*◌, ◌^◌, ◌≡◌, refl, Bool, true, false, [], ◌∷◌, ◌++◌, min, leb, arith,
}
use populace.Server.Clock.{Clock, advance_sim, tick_once, next_backoff, backoff_after, max_backoff}
use populace.Server.Clock.Backoff.{failures, backoff_after_lem}
use populace.Server.Clock.Steps.{ticks}

-- The third tick panics.
abbrev third_panics : ℕ → ℕ × Bool
third_panics n = (n + 1, leb n 1)

abbrev stopped : Clock ℕ
stopped = record { sim = 0; running = false; steps = 4; recovered = 0 }

after_six :
    ticks 6 third_panics stopped ≡ record { sim = 4; running = false; steps = 0; recovered = 2 }
unfolding ticks tick_once advance_sim
after_six = refl

-- A tick of 400 milliseconds.
after_three : backoff_after 400_000_000 0 (false ∷ true ∷ failures 3) ≡ 25_600_000_000
unfolding backoff_after next_backoff
after_three = refl

backoff_after_lem_example :
    backoff_after 400_000_000 0 ((false ∷ []) ++ true ∷ failures 7)
    ≡ min (400_000_000 * 4 ^ 7) max_backoff
backoff_after_lem_example =
    backoff_after_lem 400_000_000 0 6 (false ∷ []) (omega arith) (omega arith)
