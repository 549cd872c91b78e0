-- ===== src/Scan/InStep.antt =====
-- `Scan` and `Apply` together: the index follows the disk, and a second look finds nothing.
use mathlib.Core.Path.{subst, ap₂}
use tailsync.Common.{
  ◌<◌, ◌≡◌, refl, Bool, Option, some, List, [], ◌∷◌, ◌++◌, Text, arith, text_key, Bool-cases,
  Option-cases, inl, inr, length, All, text_eqb_iff,
}
use tailsync.Common.Table.{Table, get, Distinct, All-get}
use tailsync.Index.{Entry, Index, Time, put_if_wins, get_entry}
use tailsync.Index.Merge.{IsKeyed}
use tailsync.Index.Methods.{put_if_wins-IsKeyed}
use tailsync.Scan.{
  Change, Forest, Result, disk_change, index_change, each, changes, apply_changes, apply, scan,
  walk,
}
use tailsync.Scan.Changes.{entries}
use tailsync.Scan.Walk.{IsDisk, walk-IsDisk}
use tailsync.Scan.Listed.{Follows, scan-Follows}
use tailsync.Scan.Reconcile.{Matches, changes_taken, changes_match}

abbrev pub no_disk : IsDisk []
no_disk = (tt, tt)

-- Every change of a scan is taken and counted, and every path then matches what the walk collected.
pub scan-apply-Matches :
    (force : Bool) (hash : Text → Option Text) (forest : Forest) (idx : Index) (now : Time)
    (res : Result) (q : Text)
    → 0 < now
    → IsKeyed idx.files
    → scan force hash forest idx.files now ≡ some res
    → ((apply idx res).1 ≡ length res.changes)
      × ((apply idx res).2 ≡ entries res.changes)
      × Matches (get_entry (apply idx res).0 q) (get q res.disk)
unfolding scan apply get_entry
scan-apply-Matches force hash forest idx now res q running kk e =
    elim (Option-cases (walk force hash idx.files now [] forest [])) [
      | inl bad ↦ absurd (ground (arith, bad))
      | inr (disk, walked) ↦
          let kd = walk-IsDisk force hash idx.files now [] forest [] disk no_disk walked in
          let taken = (changes_taken now running idx.files disk kk kd).0 in
          let match = changes_match now running idx.files disk kk kd q in
          let same : record { changes = changes now idx.files disk; disk = disk } ≡ res =
            ground (arith, walked) in
          subst
            (λ r.
              ((apply idx r).1 ≡ length r.changes)
              × ((apply idx r).2 ≡ entries r.changes)
              × Matches (get_entry (apply idx r).0 q) (get q r.disk))
            same (taken.0, taken.1, match)
    ]

-- After a scan that succeeded and its application, with a clock that runs and an index in which every
-- entry stands under its own path and no path twice: every change was taken and counted, and the index
-- is in step with the directory. Where it has a live entry, that is the path of a regular file below
-- the directory, whose name and whose directories are not reserved, with its size, mode and
-- modification time, and with the hash of its contents or, unless a rehash is forced, the hash that
-- a live entry with that size and modification time had before. Where it has nothing or a tombstone,
-- there is no such file.
pub scan-apply-Follows :
    (force : Bool) (hash : Text → Option Text) (forest : Forest) (idx : Index) (now : Time)
    (res : Result) (q : Text)
    → 0 < now
    → IsKeyed idx.files
    → scan force hash forest idx.files now ≡ some res
    → ((apply idx res).1 ≡ length res.changes)
      × ((apply idx res).2 ≡ entries res.changes)
      × Follows force hash idx.files forest q (get_entry (apply idx res).0 q)
scan-apply-Follows force hash forest idx now res q running kk e =
    let (count, all, match) = scan-apply-Matches force hash forest idx now res q running kk e in
    (
      count,
      all,
      scan-Follows force hash idx.files now forest res q (get_entry (apply idx res).0 q) e match,
    )

each_idle :
    (f : Text → Entry → List Change) (m : Table Text Entry)
    → All (λ kv. f kv.0 kv.1 ≡ []) m
    → each f m ≡ []
unfolding each
each_idle f [] h = refl
each_idle f ((p, e) ∷ m) h = rw (h.0, each_idle f m h.1)

All-imp {ℓ} :
    {A : Type ℓ} (P Q : A → Type 0) → ((x : A) → P x → Q x) → (xs : List A) → All P xs → All Q xs
All-imp P Q imp [] h = tt
All-imp P Q imp (x ∷ xs) h = (imp x h.0, All-imp P Q imp xs h.1)

disk_change_idle :
    (now : Time) (known : Table Text Entry) (p : Text) (de : Entry)
    → Matches (get p known) (some de)
    → disk_change now known p de ≡ []
unfolding disk_change
disk_change_idle now known p de h = elim (Option-cases (get p known)) [
  | inl new ↦ absurd (subst (λ o. Matches o (some de)) new h)
  | inr (prev, old) ↦
      let m = subst (λ o. Matches o (some de)) old h in
      ground (arith, old, m, text_eqb_iff prev.hash de.hash)
]

index_change_idle :
    (now : Time) (disk : Table Text Entry) (p : Text) (prev : Entry)
    → Matches (some prev) (get p disk)
    → index_change now disk p prev ≡ []
unfolding index_change
index_change_idle now disk p prev h = elim (Option-cases (get p disk)) [
  | inl gone ↦ ground (arith, gone, subst (Matches (some prev)) gone h)
  | inr (de, there) ↦ ground (arith, there)
]

pub changes_idle :
    (now : Time) (known disk : Table Text Entry)
    → Distinct known
    → Distinct disk
    → ((q : Text) → Matches (get q known) (get q disk))
    → changes now known disk ≡ []
unfolding changes
changes_idle now known disk dk dd match =
    ap₂ ◌++◌
      (each_idle (disk_change now known) disk (
        All-imp (λ kv. get kv.0 disk ≡ some kv.1) (λ kv. disk_change now known kv.0 kv.1 ≡ [])
          (λ kv h.
            disk_change_idle now known kv.0 kv.1 (subst (Matches (get kv.0 known)) h (match kv.0)))
          disk (All-get disk dd)))
      (each_idle (index_change now disk) known (
        All-imp (λ kv. get kv.0 known ≡ some kv.1) (λ kv. index_change now disk kv.0 kv.1 ≡ [])
          (λ kv h.
            index_change_idle now disk kv.0 kv.1
              (subst (λ o. Matches o (get kv.0 disk)) h (match kv.0)))
          known (All-get known dk)))

pub apply_changes-IsKeyed :
    (cs : List Change) (m : Table Text Entry) → IsKeyed m → IsKeyed (apply_changes cs m).0
unfolding apply_changes
apply_changes-IsKeyed [] m h = h
apply_changes-IsKeyed (c ∷ cs) m h = elim (Bool-cases (put_if_wins c.entry m).1) [
  | inl ok ↦
      rw ok (apply_changes-IsKeyed cs (put_if_wins c.entry m).0 (put_if_wins-IsKeyed c.entry m h))
  | inr no_win ↦
      rw no_win
        (apply_changes-IsKeyed cs (put_if_wins c.entry m).0 (put_if_wins-IsKeyed c.entry m h))
]

-- The comparison settles: where a scan of a well-formed index was applied with a clock that runs,
-- comparing the new index with the same files again, at any later reading of the clock, finds no
-- change.
pub changes-apply :
    (force : Bool) (hash : Text → Option Text) (forest : Forest) (idx : Index) (now later : Time)
    (res : Result)
    → 0 < now
    → IsKeyed idx.files
    → scan force hash forest idx.files now ≡ some res
    → changes later (apply idx res).0.files res.disk ≡ []
unfolding scan apply
changes-apply force hash forest idx now later res running kk e =
    elim (Option-cases (walk force hash idx.files now [] forest [])) [
      | inl bad ↦ absurd (ground (arith, bad))
      | inr (disk, walked) ↦
          let kd = walk-IsDisk force hash idx.files now [] forest [] disk no_disk walked in
          let same : record { changes = changes now idx.files disk; disk = disk } ≡ res =
            ground (arith, walked) in
          subst (λ r. changes later (apply idx r).0.files r.disk ≡ []) same
            (changes_idle later (apply_changes (changes now idx.files disk) idx.files).0 disk
              (apply_changes-IsKeyed (changes now idx.files disk) idx.files kk).0 kd.0
              (changes_match now running idx.files disk kk kd))
    ]
