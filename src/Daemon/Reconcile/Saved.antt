-- ===== src/Daemon/Reconcile/Saved.antt =====
-- What holds when `reconcile` returns, and what is left when the index could not be written.
use mathlib.Core.Path.{subst}
use tailsync.Common.{
  ℕ, ◌<◌, ◌≡◌, refl, sym, ap, ◌∙◌, ◌⊎◌, Bool, false, Option, none, some, List, [], ◌∷◌, Text, arith,
  inl, inr, Bool-cases, Option-cases, ltb, text_key, ◌||◌, length, nat_eqb, ◌-◌,
}
use tailsync.Common.Table.{Table, get, Distinct}
use tailsync.Index.{Entry, Index, Time, gc_tombstones, gc_files, expired, get_entry}
use tailsync.Index.Gc.{get-gc_files, keep}
use tailsync.Index.Disk.{FileIo, save, saved, SaveResult}
use tailsync.Index.Merge.{IsKeyed}
use tailsync.Scan.{Forest, Result, scan, changes, apply_changes}
use tailsync.Scan as Scan
use tailsync.Scan.Changes.{entries}
use tailsync.Scan.Listed.{Follows, scan-Follows}
use tailsync.Scan.Reconcile.{Matches}
use tailsync.Scan.InStep.{scan-apply-Matches, apply_changes-IsKeyed}
use tailsync.Daemon.{Tree}
use tailsync.Daemon.Apply.{State}
use tailsync.Daemon.Reconcile.{Reconciled, reconciled, save_reconciled, reconcile_found, reconcile}

pub Save-cases :
    {D : Type 0} (r : SaveResult D)
    → ((d : D) × (r ≡ saved d))
      ⊎ ((r ≡ SaveResult.no_path) ⊎ ((r ≡ SaveResult.encode_error) ⊎ (r ≡ SaveResult.write_error)))
Save-cases (saved d) = inl (d, refl)
Save-cases SaveResult.no_path = inr (inl refl)
Save-cases SaveResult.encode_error = inr (inr (inl refl))
Save-cases SaveResult.write_error = inr (inr (inr refl))

-- A collection that drops nothing changes nothing.
gc_files_none :
    (cutoff : Time) (m : Table Text Entry) → (gc_files cutoff m).1 ≡ 0 → (gc_files cutoff m).0 ≡ m
unfolding gc_files
gc_files_none cutoff [] h = refl
gc_files_none cutoff ((k, e) ∷ m) h = ground (arith, gc_files_none cutoff m)

pub gc_tombstones_none :
    (idx : Index) (now : Time) (ttl : ℕ)
    → (gc_tombstones idx now ttl).1 ≡ 0
    → (gc_tombstones idx now ttl).0 ≡ idx
unfolding gc_tombstones
gc_tombstones_none idx now ttl h = elim (Bool-cases (nat_eqb ttl 0)) [
  | inl off ↦ rw off refl
  | inr on ↦
      let same : (gc_files (now - ttl) idx.files).0 ≡ idx.files =
        gc_files_none (now - ttl) idx.files (ground (arith, h, on)) in
      rw on (ap (λ m. record idx { files = m }) same)
]

keep-Matches : (cutoff : Time) (o d : Option Entry) → Matches o d → Matches (keep cutoff o) d
unfolding expired
keep-Matches cutoff none d h = h
keep-Matches cutoff (some e) none h = elim (Bool-cases (expired cutoff e)) [
  | inl old ↦ rw old tt
  | inr young ↦ rw young h
]
keep-Matches cutoff (some e) (some de) h =
    let young : expired cutoff e ≡ false = ground (arith, h.0) in rw young h

-- A collection leaves the index in step.
pub gc_tombstones-Matches :
    (idx : Index) (now : Time) (ttl : ℕ) (q : Text) (d : Option Entry)
    → Distinct idx.files
    → Matches (get q idx.files) d
    → Matches (get q (gc_tombstones idx now ttl).0.files) d
unfolding gc_tombstones
gc_tombstones-Matches idx now ttl q d dd h = elim (Bool-cases (nat_eqb ttl 0)) [
  | inl off ↦ rw off h
  | inr on ↦
      rw (on, get-gc_files (now - ttl) q idx.files dd)
        (keep-Matches (now - ttl) (get q idx.files) d h)
]

module _ (tree : Tree) (io : FileIo) where
  -- Either the index is on disk, or there was nothing to save.
  abbrev pub Stored : State tree io → ℕ → ℕ → State tree io → Type 0
  Stored s n gc s' = (save io s.disk s.idx ≡ saved s'.disk) ⊎ ((n ≡ 0) × (gc ≡ 0) × (s' ≡ s))

  save_reconciled-Stored :
      (s : State tree io) (n gc : ℕ) (hints h : List Entry) (b : Bool)
      → (save_reconciled tree io s n gc hints).1 ≡ reconciled b h
      → (b ≡ ltb 0 n)
        × (h ≡ hints)
        × ((save_reconciled tree io s n gc hints).0.idx ≡ s.idx)
        × ((save_reconciled tree io s n gc hints).0.applies_since_save ≡ 0)
        × Stored s n gc (save_reconciled tree io s n gc hints).0
  unfolding save_reconciled
  save_reconciled-Stored s n gc hints h b e =
      elim (Bool-cases (ltb 0 n || (ltb 0 gc || ltb 0 s.applies_since_save))) [
        | inr idle ↦ ground (arith, idle, e)
        | inl due ↦ elim (Save-cases (save io s.disk s.idx)) [
          | inl (d, done) ↦ ground (arith, due, done, e)
          | inr (inl bad) ↦ absurd (ground (arith, bad, due, e))
          | inr (inr (inl bad)) ↦ absurd (ground (arith, bad, due, e))
          | inr (inr (inr bad)) ↦ absurd (ground (arith, bad, due, e))
        ]
      ]

  reconcile_found-Stored :
      (later : Time) (ttl : ℕ) (s : State tree io) (res : Result) (h : List Entry) (b : Bool)
      → (reconcile_found tree io later ttl s res).1 ≡ reconciled b h
      → (b ≡ ltb 0 (Scan.apply s.idx res).1)
        × (h ≡ (Scan.apply s.idx res).2)
        × ((reconcile_found tree io later ttl s res).0.idx
            ≡ (gc_tombstones (Scan.apply s.idx res).0 later ttl).0)
        × ((reconcile_found tree io later ttl s res).0.applies_since_save ≡ 0)
        × Stored
            (record s { idx = (gc_tombstones (Scan.apply s.idx res).0 later ttl).0 })
            (Scan.apply s.idx res).1
            (gc_tombstones (Scan.apply s.idx res).0 later ttl).1
            (reconcile_found tree io later ttl s res).0
  unfolding reconcile_found
  reconcile_found-Stored later ttl s res h b e =
      save_reconciled-Stored
        (record s { idx = (gc_tombstones (Scan.apply s.idx res).0 later ttl).0 })
        (Scan.apply s.idx res).1 (gc_tombstones (Scan.apply s.idx res).0 later ttl).1
        (Scan.apply s.idx res).2 h b e

  pub apply-Distinct :
      (idx : Index) (res : Result) → IsKeyed idx.files → Distinct (Scan.apply idx res).0.files
  unfolding Scan.apply
  apply-Distinct idx res h = (apply_changes-IsKeyed res.changes idx.files h).0

  -- A state `s'` that a reconcile from `s` ends in: the path is in step with the directory, what is
  -- returned tells of all the changes, and the index is on disk unless nothing was to be saved.
  abbrev pub Clean :
      (Text → Option Text)
      → Forest
      → State tree io
      → Result
      → Text
      → List Entry
      → Bool
      → State tree io
      → Type 0
  Clean hash forest s res q h b s' =
      Follows false hash s.idx.files forest q (get q s'.idx.files)
      × (h ≡ entries res.changes)
      × (b ≡ ltb 0 (length res.changes))
      × (s'.applies_since_save ≡ 0)
      × ((save io s.disk s'.idx ≡ saved s'.disk) ⊎ ((res.changes ≡ []) × (s' ≡ s)))

  apply_none : (idx : Index) (res : Result) → res.changes ≡ [] → (Scan.apply idx res).0 ≡ idx
  unfolding Scan.apply apply_changes
  apply_none idx res h = rw h refl

  none_taken {ℓ} : {A : Type ℓ} (l : List A) → length l ≡ 0 → l ≡ []
  none_taken [] h = refl
  none_taken (x ∷ l) h = absurd (omega arith)

  found-Clean :
      (hash : Text → Option Text) (forest : Forest) (now later : Time) (ttl : ℕ) (s : State tree io)
      (res : Result) (h : List Entry) (b : Bool) (q : Text)
      → 0 < now
      → IsKeyed s.idx.files
      → scan false hash forest s.idx.files now ≡ some res
      → (reconcile_found tree io later ttl s res).1 ≡ reconciled b h
      → Clean hash forest s res q h b (reconcile_found tree io later ttl s res).0
  unfolding get_entry
  found-Clean hash forest now later ttl s res h b q running kk found e =
      let (flag, hints, idx, fresh, stored) = reconcile_found-Stored later ttl s res h b e in
      let (count, all, match) =
        scan-apply-Matches false hash forest s.idx now res q running kk found in
      let kept : Matches (get q (reconcile_found tree io later ttl s res).0.idx.files)
          (get q res.disk) =
        subst (λ (i : Index). Matches (get q i.files) (get q res.disk)) (sym idx)
          (gc_tombstones-Matches (Scan.apply s.idx res).0 later ttl q (get q res.disk)
            (apply-Distinct s.idx res kk) match) in
      (
        scan-Follows false hash s.idx.files now forest res q _ found kept,
        hints ∙ all,
        flag ∙ ap (ltb 0) count,
        fresh,
        elim stored [
          | inl done ↦ inl (ap (save io s.disk) idx ∙ done)
          | inr (nothing, gone, same) ↦
              let quiet : res.changes ≡ [] = none_taken res.changes (sym count ∙ nothing) in
              inr (
                quiet,
                same
                    ∙ ap (λ (i : Index). record s { idx = i })
                        (gc_tombstones_none (Scan.apply s.idx res).0 later ttl gone
                          ∙ apply_none s.idx res quiet),
              )
        ],
      )

  pub reconcile_lem :
      (hash : Text → Option Text) (forest : Forest) (now later : Time) (ttl : ℕ) (s : State tree io)
      (res : Result)
      → scan false hash forest s.idx.files now ≡ some res
      → reconcile tree io hash forest now later ttl s ≡ reconcile_found tree io later ttl s res
  unfolding reconcile
  reconcile_lem hash forest now later ttl s res found = rw (found, reconcile) refl

  -- When a reconcile succeeds, with a clock that runs and a well-formed index: where the index has a
  -- live entry, that is the path of a regular file below the directory, none of whose names is reserved,
  -- with its size, mode and modification time, and with the hash of its contents or the hash that a live
  -- entry with that size and modification time had before; where it has nothing or a tombstone, there is
  -- no such file; the hints are the entries of all changes found, in order, and `changed` says whether
  -- there are any; nothing is counted as unsaved; and either the index as it is now was written to disk,
  -- or no change was found and the state is as it was before.
  pub reconcile-Clean :
      (hash : Text → Option Text) (forest : Forest) (now later : Time) (ttl : ℕ) (s : State tree io)
      (h : List Entry) (b : Bool) (q : Text)
      → 0 < now
      → IsKeyed s.idx.files
      → (reconcile tree io hash forest now later ttl s).1 ≡ reconciled b h
      → (res : Result) × (scan false hash forest s.idx.files now ≡ some res)
        × Clean hash forest s res q h b (reconcile tree io hash forest now later ttl s).0
  unfolding reconcile
  reconcile-Clean hash forest now later ttl s h b q running kk e =
      elim (Option-cases (scan false hash forest s.idx.files now)) [
        | inl bad ↦ absurd (ground (arith, bad, e))
        | inr (res, found) ↦
            let same = reconcile_lem hash forest now later ttl s res found in
            (
              res,
              found,
              subst (λ (r : State tree io × Reconciled). Clean hash forest s res q h b r.0)
                  (sym same)
                  (found-Clean hash forest now later ttl s res h b q running kk found
                    (ap (λ (r : State tree io × Reconciled). r.1) (sym same) ∙ e)),
            )
      ]
