-- ===== src/Index/Methods.antt =====
-- The methods of `Index`: what can be read after each, and the invariant they keep.
use tailsync.Common.{
  ℕ, ◌-◌, ◌≤◌, nat_eqb, ◌≡◌, ◌≢◌, refl, inl, inr, true, false, Text, arith, Bool-cases,
  Option-cases, text_eqb_refl, text_eqb→eq, none, some, List, [], ◌∷◌, All, text_key,
}
use tailsync.Common.Table.{
  Table, get, put, Distinct, get-put, put-Distinct, del-Distinct, put-All, del-All, get-All,
}
use tailsync.Index.{
  Entry, Index, Time, wins, put_if_wins, set_if_wins, set_entry, get_entry, delete, mark_deleted,
  bury, gc_files, gc_tombstones, expired, blank_entry, new,
}
use tailsync.Index.Merge.{IsKeyed}

-- A live entry replaces no tombstone of the same clock or a later one.
tombstone_wins :
    (t r : Entry)
    → t.deleted ≡ true
    → r.deleted ≡ false
    → r.updated_at ≤ t.updated_at
    → wins t r ≡ false
unfolding wins
tombstone_wins t r d l h = ground arith

-- A call that changes the index.
pub data Call : Type 0 where
  set_call : Entry → Call
  set_if_wins_call : Entry → Call
  delete_call : Text → Call
  mark_deleted_call : Text → Time → Call
  gc_call : Time → ℕ → Call

unfoldable pub run_call : Call → Index → Index
run_call (set_call e) idx = (set_entry idx e).0
run_call (set_if_wins_call e) idx = (set_if_wins idx e).0
run_call (delete_call p) idx = delete idx p
run_call (mark_deleted_call p at) idx = (mark_deleted idx p at).0
run_call (gc_call now ttl) idx = (gc_tombstones idx now ttl).0

unfoldable pub run_calls : List Call → Index → Index
run_calls [] idx = idx
run_calls (c ∷ cs) idx = run_calls cs (run_call c idx)

abbrev Own : Text × Entry → Type 0
Own kv = kv.1.path ≡ kv.0

pub put-IsKeyed : (e : Entry) (m : Table Text Entry) → IsKeyed m → IsKeyed (put e.path e m)
put-IsKeyed e m h = (put-Distinct e.path e m h.0, put-All Own e.path e m refl h.1)

pub put_if_wins-IsKeyed :
    (e : Entry) (m : Table Text Entry) → IsKeyed m → IsKeyed (put_if_wins e m).0
unfolding put_if_wins
put_if_wins-IsKeyed e m h = elim (Option-cases (get e.path m)) [
  | inl absent ↦ rw (absent, put_if_wins) (put-IsKeyed e m h)
  | inr (l, old) ↦ elim (Bool-cases (wins l e)) [
    | inl w ↦ rw (old, put_if_wins) (rw w (put-IsKeyed e m h))
    | inr w ↦ rw (old, put_if_wins) (rw w h)
  ]
]

mark_deleted-IsKeyed :
    (idx : Index) (p : Text) (at : Time)
    → IsKeyed idx.files
    → IsKeyed (mark_deleted idx p at).0.files
unfolding mark_deleted
mark_deleted-IsKeyed idx p at h = elim (Option-cases (get p idx.files)) [
  | inl new ↦ rw new (put-IsKeyed (bury (blank_entry p) at) idx.files h)
  | inr (e, old) ↦ rw old (
    put-Distinct p (bury e at) idx.files h.0,
    put-All Own p (bury e at) idx.files (get-All Own p e idx.files h.1 old) h.1,
  )
]

pub gc_files-All :
    (P : Text × Entry → Type 0) (cutoff : Time) (m : Table Text Entry)
    → All P m
    → All P (gc_files cutoff m).0
unfolding gc_files
gc_files-All P cutoff [] h = tt
gc_files-All P cutoff ((k, e) ∷ m) h = elim (Bool-cases (expired cutoff e)) [
  | inl old ↦ rw old (gc_files-All P cutoff m h.1)
  | inr kept ↦ rw kept (h.0, gc_files-All P cutoff m h.1)
]

pub get-gc_files-none :
    (cutoff : Time) (p : Text) (m : Table Text Entry)
    → get p m ≡ none
    → get p (gc_files cutoff m).0 ≡ none
unfolding gc_files get
get-gc_files-none cutoff p [] h = refl
get-gc_files-none cutoff p ((k, e) ∷ m) h = ground (arith, get-gc_files-none cutoff p m)

pub gc_files-Distinct :
    (cutoff : Time) (m : Table Text Entry) → Distinct m → Distinct (gc_files cutoff m).0
unfolding gc_files
gc_files-Distinct cutoff [] h = tt
gc_files-Distinct cutoff ((k, e) ∷ m) h = elim (Bool-cases (expired cutoff e)) [
  | inl old ↦ rw old (gc_files-Distinct cutoff m h.1)
  | inr kept ↦ rw kept (get-gc_files-none cutoff k m h.0, gc_files-Distinct cutoff m h.1)
]

pub run_call-IsKeyed : (c : Call) (idx : Index) → IsKeyed idx.files → IsKeyed (run_call c idx).files
unfolding run_call set_entry set_if_wins delete gc_tombstones
run_call-IsKeyed (set_call e) idx h = put-IsKeyed e idx.files h
run_call-IsKeyed (set_if_wins_call e) idx h = put_if_wins-IsKeyed e idx.files h
run_call-IsKeyed (delete_call p) idx h = (del-Distinct p idx.files h.0, del-All Own p idx.files h.1)
run_call-IsKeyed (mark_deleted_call p at) idx h = mark_deleted-IsKeyed idx p at h
run_call-IsKeyed (gc_call now ttl) idx h = elim (Bool-cases (nat_eqb ttl 0)) [
  | inl off ↦ rw (off, run_call) h
  | inr on ↦
      rw (on, run_call)
        (gc_files-Distinct (now - ttl) idx.files h.0, gc_files-All Own (now - ttl) idx.files h.1)
]

-- Whatever sequence of calls changes the index, no path stands in it twice and every entry stands
-- under its own path, if that holds of the index at the start.
pub run_calls-IsKeyed :
    (cs : List Call) (idx : Index) → IsKeyed idx.files → IsKeyed (run_calls cs idx).files
unfolding run_calls
run_calls-IsKeyed [] idx h = h
run_calls-IsKeyed (c ∷ cs) idx h = run_calls-IsKeyed cs (run_call c idx) (run_call-IsKeyed c idx h)

-- After `MarkDeleted` the path holds the returned tombstone, with the given clock and neither size
-- nor hash, and another path is as before.
pub get-mark_deleted :
    (idx : Index) (p q : Text) (at : Time)
    → q ≢ p
    → (get_entry (mark_deleted idx p at).0 p ≡ some (mark_deleted idx p at).1)
      × ((mark_deleted idx p at).1.deleted ≡ true)
      × ((mark_deleted idx p at).1.updated_at ≡ at)
      × ((mark_deleted idx p at).1.deleted_at ≡ at)
      × ((mark_deleted idx p at).1.size ≡ 0)
      × ((mark_deleted idx p at).1.hash ≡ [])
      × (get_entry (mark_deleted idx p at).0 q ≡ get_entry idx q)
unfolding mark_deleted get_entry
get-mark_deleted idx p q at h = ground (
  arith,
  get-put p p (mark_deleted idx p at).1 idx.files,
  get-put p q (mark_deleted idx p at).1 idx.files,
  text_eqb_refl p,
  text_eqb→eq p q,
)

-- A tombstone holds: after `MarkDeleted` no live entry for the path whose clock is not later than
-- the deletion is taken by `SetIfWins`, and the index stays as it is.
pub set_if_wins-mark_deleted :
    (idx : Index) (p : Text) (at : Time) (r : Entry)
    → r.path ≡ p
    → r.deleted ≡ false
    → r.updated_at ≤ at
    → set_if_wins (mark_deleted idx p at).0 r ≡ ((mark_deleted idx p at).0, false)
unfolding mark_deleted set_if_wins
set_if_wins-mark_deleted idx p at r same l old = ground (
  arith,
  get-put p p (mark_deleted idx p at).1 idx.files,
  text_eqb_refl p,
  tombstone_wins (mark_deleted idx p at).1 r,
)
