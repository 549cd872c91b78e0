-- ===== src/Daemon/Notify/FanOut/Runs.antt =====
-- Runs of `scheduleNotify`.
use tailsync.Common.{◌≡◌, refl, true, false, Option, none, some, List, [], ◌∷◌}
use tailsync.Common.Table.{get, put, del}
use tailsync.Index.{Entry, Time}
use tailsync.Daemon.Notify.{
  NotifyTracker, content_key_from, content_key, claim, claim_loop, free_locked, seen_lately,
  gc_locked, gc_seen, mark, mark_loop, release, offers,
}
use tailsync.Daemon.Notify.FanOut.{schedule_notify, deliver, schedule_notify-Idle}

abbrev fresh : NotifyTracker
fresh = record { seen = []; inflight = [] }

abbrev hint : Entry
hint = record {
  path = b'a' ∷ [];
  size = 1;
  mod_time = 3;
  mode = 420;
  hash = b'h' ∷ [];
  deleted = false;
  deleted_at = 0;
  updated_at = 4;
}

-- The second of three streams succeeds.
abbrev outcomes : List (Option Time)
outcomes = none ∷ some 7 ∷ none ∷ []

-- The version counts as seen.
seen_afterwards :
    get (content_key_from hint) (schedule_notify false 5 outcomes (hint ∷ []) fresh).0.seen ≡ some 7
unfolding schedule_notify deliver claim claim_loop free_locked seen_lately gc_locked gc_seen mark
    mark_loop content_key_from get put del
seen_afterwards = refl

-- After a fan-out that failed the version is handed out again.
handed_out_again :
    offers
      (content_key_from hint)
      (claim 9 (hint ∷ []) (schedule_notify false 5 (none ∷ []) (hint ∷ []) fresh).0).1
    ≡ true
unfolding schedule_notify deliver claim claim_loop free_locked seen_lately gc_locked gc_seen release
    content_key_from get put del
handed_out_again = refl

schedule_notify-Idle_example :
    get (content_key_from hint) (schedule_notify false 5 outcomes (hint ∷ []) fresh).0.inflight
    ≡ none
unfolding get
schedule_notify-Idle_example =
    schedule_notify-Idle false 5 outcomes (hint ∷ []) (content_key_from hint) fresh refl
