-- ===== src/Daemon/Reconcile/Unsaved.antt =====
-- What becomes of the changes that a reconcile found when the index could not be written.
use mathlib.Core.Path.{subst}
use tailsync.Common.{
  ℕ, ◌-◌, nat_eqb, ◌<◌, ◌≡◌, refl, sym, ap, ◌∙◌, false, Option, none, some, List, [], Text, arith,
  inl, inr, Bool-cases, Option-cases, ltb, text_key, ◌||◌,
}
use tailsync.Common.Table.{Table, get, Distinct}
use tailsync.Index.{Entry, Index, Time, gc_tombstones, get_entry}
use tailsync.Index.Disk.{FileIo, save}
use tailsync.Index.Merge.{IsKeyed}
use tailsync.Index.Methods.{gc_files-Distinct}
use tailsync.Scan.{Forest, Result, scan, changes, apply_changes, walk}
use tailsync.Scan as Scan
use tailsync.Scan.Walk.{IsDisk, walk-IsDisk}
use tailsync.Scan.Reconcile.{Matches}
use tailsync.Scan.InStep.{scan-apply-Matches, changes_idle, no_disk}
use tailsync.Daemon.{Tree}
use tailsync.Daemon.Apply.{State}
use tailsync.Daemon.Reconcile.{
  Reconciled, reconciled, save_failed, save_reconciled, reconcile_found, reconcile,
}
use tailsync.Daemon.Reconcile.Saved.{
  apply-Distinct, Save-cases, reconcile_lem, gc_tombstones_none, gc_tombstones-Matches,
}

-- What two scans found under a path agrees, whatever their clocks.
abbrev pub Same : Option Entry → Option Entry → Type 0
Same none none = Unit
Same (some a) none = ⊥
Same none (some b) = ⊥
Same (some a) (some b) =
    (a.hash ≡ b.hash) × (a.size ≡ b.size) × (a.mode ≡ b.mode) × (a.mod_time ≡ b.mod_time)

Same-Matches : (o a b : Option Entry) → Same a b → Matches o a → Matches o b
Same-Matches o none none s m = m
Same-Matches o (some a) none s m = absurd s
Same-Matches o none (some b) s m = absurd s
Same-Matches none (some a) (some b) s m = m
Same-Matches (some e) (some a) (some b) (h, z, d, t) (l, h', z', d', t') =
    (l, h' ∙ h, z' ∙ z, d' ∙ d, t' ∙ t)

scan_disk :
    (hash : Text → Option Text) (forest : Forest) (files : Table Text Entry) (now : Time)
    (res : Result)
    → scan false hash forest files now ≡ some res
    → IsDisk res.disk × (res.changes ≡ changes now files res.disk)
unfolding scan
scan_disk hash forest files now res e =
    elim (Option-cases (walk false hash files now [] forest [])) [
      | inl bad ↦ absurd (ground (arith, bad))
      | inr (disk, walked) ↦
          let same : record { changes = changes now files disk; disk = disk } ≡ res =
            ground (arith, walked) in
          subst (λ r. IsDisk r.disk × (r.changes ≡ changes now files r.disk)) same
            (walk-IsDisk false hash files now [] forest [] disk no_disk walked, refl)
    ]

gc_tombstones-Distinct :
    (idx : Index) (now : Time) (ttl : ℕ)
    → Distinct idx.files
    → Distinct (gc_tombstones idx now ttl).0.files
unfolding gc_tombstones
gc_tombstones-Distinct idx now ttl d = elim (Bool-cases (nat_eqb ttl 0)) [
  | inl off ↦ rw off d
  | inr on ↦ rw on (gc_files-Distinct (now - ttl) idx.files d)
]

module _ (tree : Tree) (io : FileIo) where
  save_reconciled-save_failed :
      (s : State tree io) (n gc : ℕ) (hints : List Entry)
      → (save_reconciled tree io s n gc hints).1 ≡ save_failed
      → (save_reconciled tree io s n gc hints).0 ≡ s
  unfolding save_reconciled
  save_reconciled-save_failed s n gc hints e =
      elim (Bool-cases (ltb 0 n || (ltb 0 gc || ltb 0 s.applies_since_save))) [
        | inr idle ↦ absurd (ground (arith, idle, e))
        | inl due ↦ elim (Save-cases (save io s.disk s.idx)) [
          | inl (d, done) ↦ absurd (ground (arith, due, done, e))
          | inr (inl bad) ↦ ground (arith, bad, due)
          | inr (inr (inl bad)) ↦ ground (arith, bad, due)
          | inr (inr (inr bad)) ↦ ground (arith, bad, due)
        ]
      ]

  -- The index that a reconcile makes of what it found.
  abbrev pub found_index : Time → ℕ → Index → Result → Index
  found_index later ttl idx res = (gc_tombstones (Scan.apply idx res).0 later ttl).0

  found-save_failed :
      (later : Time) (ttl : ℕ) (s : State tree io) (res : Result)
      → (reconcile_found tree io later ttl s res).1 ≡ save_failed
      → (reconcile_found tree io later ttl s res).0
        ≡ record s { idx = found_index later ttl s.idx res }
  unfolding reconcile_found
  found-save_failed later ttl s res e =
      save_reconciled-save_failed (record s { idx = found_index later ttl s.idx res })
        (Scan.apply s.idx res).1 (gc_tombstones (Scan.apply s.idx res).0 later ttl).1
        (Scan.apply s.idx res).2 e

  found_idle :
      (later : Time) (ttl : ℕ) (s : State tree io) (res : Result)
      → res.changes ≡ []
      → s.applies_since_save ≡ 0
      → (gc_tombstones s.idx later ttl).1 ≡ 0
      → reconcile_found tree io later ttl s res ≡ (s, reconciled false [])
  unfolding reconcile_found save_reconciled Scan.apply apply_changes
  found_idle later ttl s res none_found fresh young =
      rw none_found (ground (arith, fresh, young, gc_tombstones_none s.idx later ttl young))

  -- A failed save is not made good by the next reconcile: where a reconcile could not save the index,
  -- with a clock that runs, a well-formed index and nothing unsaved before, the next one that finds the
  -- same files, and no tombstone that has expired meanwhile, reports no change and no hints, and saves
  -- nothing: the state stays as the first one left it, with the changes found in the index.
  pub reconcile-save_failed :
      (hash hash' : Text → Option Text) (forest forest' : Forest) (now later now' later' : Time)
      (ttl : ℕ) (s : State tree io) (res res' : Result)
      → 0 < now
      → IsKeyed s.idx.files
      → s.applies_since_save ≡ 0
      → scan false hash forest s.idx.files now ≡ some res
      → (reconcile tree io hash forest now later ttl s).1 ≡ save_failed
      → scan false hash' forest' (reconcile tree io hash forest now later ttl s).0.idx.files now'
        ≡ some res'
      → ((q : Text) → Same (get q res.disk) (get q res'.disk))
      → (gc_tombstones (reconcile tree io hash forest now later ttl s).0.idx later' ttl).1 ≡ 0
      → ((reconcile tree io hash forest now later ttl s).0.idx ≡ found_index later ttl s.idx res)
        × (reconcile tree io hash' forest' now' later' ttl
              (reconcile tree io hash forest now later ttl s).0
            ≡ ((reconcile tree io hash forest now later ttl s).0, reconciled false []))
  unfolding get_entry
  reconcile-save_failed hash hash' forest forest' now later now' later' ttl s res res' running kk
        fresh found bad again agree young =
      let s' : State tree io = (reconcile tree io hash forest now later ttl s).0 in
      let made : Index = found_index later ttl s.idx res in
      let first : reconcile tree io hash forest now later ttl s
          ≡ reconcile_found tree io later ttl s res =
        reconcile_lem tree io hash forest now later ttl s res found in
      let left : s' ≡ record s { idx = made } =
        ap (λ (r : State tree io × Reconciled). r.0) first
        ∙ found-save_failed later ttl s res
            (ap (λ (r : State tree io × Reconciled). r.1) (sym first) ∙ bad) in
      let index : s'.idx ≡ made = ap (λ (t : State tree io). t.idx) left in
      let (disk, all) = scan_disk hash' forest' s'.idx.files now' res' again in
      let once : Distinct (Scan.apply s.idx res).0.files = apply-Distinct tree io s.idx res kk in
      let match : (q : Text) → Matches (get q s'.idx.files) (get q res'.disk) = λ q.
        subst (λ (i : Index). Matches (get q i.files) (get q res'.disk)) (sym index)
          (Same-Matches (get q made.files) (get q res.disk) (get q res'.disk) (agree q) (
            gc_tombstones-Matches (Scan.apply s.idx res).0 later ttl q (get q res.disk) once
              (scan-apply-Matches false hash forest s.idx now res q running kk found).2)) in
      let quiet : res'.changes ≡ [] =
        all
        ∙ changes_idle now' s'.idx.files res'.disk
            (subst (λ (i : Index). Distinct i.files) (sym index)
              (gc_tombstones-Distinct (Scan.apply s.idx res).0 later ttl once))
            disk.0 match in
      (
        index,
        reconcile_lem tree io hash' forest' now' later' ttl s' res' again
            ∙ found_idle later' ttl s' res' quiet
                (ap (λ (t : State tree io). t.applies_since_save) left ∙ fresh) young,
      )
