-- ===== src/NewPutDemandLatch/Tests.antt =====
-- Runs of NewPutDemandLatch (src/cache/new_put_demand_latch.h).
use dingo_cache.Common.{
  ℕ, suc, ◌<◌, ◌≡◌, ◌≢◌, ◌⊎◌, refl, true, false, arith, [], ◌∷◌, replicate, zero,
}
use dingo_cache.NewPutDemandLatch.Quiet.{
  IsQuiet, AllQuiet, none_left, and_then, tick-active, run-quiet,
}
use dingo_cache.NewPutDemandLatch.{
  NewPutDemandLatch, Tick, open_interval, begin_tick, end_tick, tick, run,
}

-- The latch is on, under pressure, and objects have just been admitted.
abbrev busy : NewPutDemandLatch
busy = record {
  active = true;
  pressure_seen = true;
  quiet_ticks = 0;
  current_interval_bytes = 512;
  previous_interval_bytes = 256;
}

abbrev idle : Tick
idle = record { used_before = 60; used_after = 50; high = 90; low = 50; newly = 0 }

idle-IsQuiet : IsQuiet idle
idle-IsQuiet = record { below = omega arith; done = omega arith; no_new = refl }

all_idle : (n : ℕ) → AllQuiet (replicate n idle)
all_idle zero = none_left
all_idle (suc n) = and_then idle (replicate n idle) idle-IsQuiet (all_idle n)

still_on : ((run (idle ∷ []) busy).active ≡ true) × ((run (idle ∷ idle ∷ []) busy).active ≡ false)
unfolding run tick begin_tick end_tick open_interval
still_on = (refl, refl)

run-quiet_example :
    ((run (replicate 130 idle) busy).active ≡ false)
    × ((run (replicate 130 idle) busy).pressure_seen ≡ false)
run-quiet_example = run-quiet (replicate 130 idle) busy (omega arith) (all_idle 130) (omega arith)

tick-active_run :
    ((tick idle busy).active ≡ false
      ⊎ (busy.active ≡ true
          ⊎ (idle.high < idle.used_before
              ⊎ (busy.pressure_seen ≡ true × (idle.newly ≢ 0) × idle.low < idle.used_before))))
    × (busy.active ≡ false ⊎ (idle.newly ≡ 0 ⊎ (tick idle busy).active ≡ true))
tick-active_run = tick-active idle busy
