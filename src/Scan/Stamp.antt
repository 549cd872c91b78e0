-- ===== src/Scan/Stamp.antt =====
-- `stampUpdatedAt`: the clock of a local change.
use tailsync.Common.{◌+◌, ◌<◌, ◌≡◌, arith, max, nat_eqb, if◌then◌else◌}
use tailsync.Index.{Time}
use tailsync.Scan.{stamp_updated_at}

-- The clock is the greatest of `now`, the modification time and, where there is a previous clock, the
-- instant after it.
pub stamp_updated_at-max :
    (now mod_time prev : Time)
    → stamp_updated_at now mod_time prev
      ≡ max (max now mod_time) (if nat_eqb prev 0 then 0 else prev + 1)
unfolding stamp_updated_at
stamp_updated_at-max now mod_time prev = ground arith

-- With a clock that runs, a stamped change is later than what it replaces.
pub stamp_updated_at_later :
    (now mod_time prev : Time) → 0 < now → prev < stamp_updated_at now mod_time prev
stamp_updated_at_later now mod_time prev h = ground (arith, stamp_updated_at-max now mod_time prev)
