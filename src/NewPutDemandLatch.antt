-- ===== src/NewPutDemandLatch.antt =====
-- src/cache/new_put_demand_latch.h: whether demand from new objects keeps the reclaimer at work.
pub mod Quiet
pub mod Tests
use dingo_cache.Common.{
  ℕ, zero, suc, ◌+◌, Bool, true, false, not, ◌&&◌, ltb, leb, ◌==◌, if◌then◌else◌, List, [], ◌∷◌,
}

pub record NewPutDemandLatch : Type 0 where
  pub active : Bool
  pub pressure_seen : Bool
  pub quiet_ticks : ℕ
  pub current_interval_bytes : ℕ
  pub previous_interval_bytes : ℕ

-- kQuietTickLimit.
abbrev pub quiet_tick_limit : ℕ
quiet_tick_limit = 128

-- The first part of BeginTick.
unfoldable pub open_interval : ℕ → ℕ → NewPutDemandLatch → NewPutDemandLatch
open_interval used newly l = record l {
  previous_interval_bytes = l.current_interval_bytes;
  current_interval_bytes = newly;
  pressure_seen = if used == 0 then false else l.pressure_seen;
  quiet_ticks = if used == 0 then 0 else l.quiet_ticks;
}

-- BeginTick.
unfoldable pub begin_tick : ℕ → ℕ → ℕ → ℕ → NewPutDemandLatch → NewPutDemandLatch
begin_tick used high low newly l =
    let o = open_interval used newly l in
    if ltb high used
    then record o { pressure_seen = true; active = true; quiet_ticks = 0 }
    else if not (newly == 0)
    then record o {
      quiet_ticks = 0;
      active = if o.pressure_seen && ltb low used then true else o.active;
    }
    else if o.pressure_seen
    then record o {
      quiet_ticks = if ltb o.quiet_ticks quiet_tick_limit then o.quiet_ticks + 1 else o.quiet_ticks;
    }
    else record o { quiet_ticks = 0 }

-- EndTick.
unfoldable pub end_tick : ℕ → ℕ → NewPutDemandLatch → NewPutDemandLatch
end_tick used low l =
    let idle = leb used low && (l.current_interval_bytes == 0 && l.previous_interval_bytes == 0) in
    let m = if idle then record l { active = false } else l in
    if m.pressure_seen && (not m.active && m.quiet_ticks == quiet_tick_limit)
    then record m { pressure_seen = false; quiet_ticks = 0 }
    else m

-- One observation of the reclaimer: what it uses before its work, and after it.
pub record Tick : Type 0 where
  pub used_before : ℕ
  pub used_after : ℕ
  pub high : ℕ
  pub low : ℕ
  pub newly : ℕ

unfoldable pub tick : Tick → NewPutDemandLatch → NewPutDemandLatch
tick t l = end_tick t.used_after t.low (begin_tick t.used_before t.high t.low t.newly l)

-- The observations one after the other.
unfoldable pub run : List Tick → NewPutDemandLatch → NewPutDemandLatch
run [] l = l
run (t ∷ ts) l = run ts (tick t l)
