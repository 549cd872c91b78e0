-- ===== src/Scan/Reconcile.antt =====
-- A scan followed by its application brings the index in step with the disk.
use tailsync.Common.{
  ◌+◌, ◌<◌, ◌≡◌, refl, sym, ap, ap₂, ◌∙◌, true, false, Option, none, some, List, [], ◌∷◌, ◌++◌,
  Text, arith, text_eqb, text_key, Bool-cases, Option-cases, inl, inr, All, not, ◌||◌, nat_eqb,
  length-append, text_eqb_iff,
}
use tailsync.Common.Table.{Table, get, All-get, get-All}
use tailsync.Index.{Entry, Time, put_if_wins}
use tailsync.Index.Merge.{IsKeyed}
use tailsync.Scan.{
  added, modified, deleted, Change, disk_change, index_change, each, changes, apply_changes,
  stamped, tomb, keep_content, stamp_updated_at,
}
use tailsync.Scan.Stamp.{stamp_updated_at_later}
use tailsync.Scan.Changes.{Round, AllTaken, left_by, outcome, entries, each_taken}
use tailsync.Scan.Walk.{IsDisk, Present}

-- An index entry that describes a file on disk, or the absence of one.
abbrev pub Matches : Option Entry → Option Entry → Type 0
Matches none none = Unit
Matches (some e) none = e.deleted ≡ true
Matches none (some de) = ⊥
Matches (some e) (some de) =
    (e.deleted ≡ false)
    × (e.hash ≡ de.hash)
    × (e.size ≡ de.size)
    × (e.mode ≡ de.mode)
    × (e.mod_time ≡ de.mod_time)

entries-append : (xs ys : List Change) → entries (xs ++ ys) ≡ entries xs ++ entries ys
entries-append [] ys = refl
entries-append (c ∷ xs) ys = ap (◌∷◌ c.entry) (entries-append xs ys)

-- Applying two batches is applying one after the other.
apply_changes-append :
    (xs ys : List Change) (m : Table Text Entry)
    → apply_changes (xs ++ ys) m ≡ (
      (apply_changes ys (apply_changes xs m).0).0,
      (apply_changes xs m).1 + (apply_changes ys (apply_changes xs m).0).1,
      (apply_changes xs m).2 ++ (apply_changes ys (apply_changes xs m).0).2,
    )
unfolding apply_changes
apply_changes-append [] ys m = ground arith
apply_changes-append (c ∷ xs) ys m =
    ground (arith, apply_changes-append xs ys (put_if_wins c.entry m).0)

keep_content_lem : (now : Time) (prev e : Entry) → keep_content now prev e ≡ e
keep_content_lem now prev e = ground (arith, text_eqb_iff prev.hash e.hash)

-- A change of a path whose index entry is known.
round_of :
    (known : Table Text Entry) (p : Text) (o : Option Entry) (cs : List Change) (c : Change)
    → get p known ≡ o
    → cs ≡ c ∷ []
    → c.entry.path ≡ p
    → ((l : Entry) → o ≡ some l → l.updated_at < c.entry.updated_at)
    → Round known p cs
round_of known p o cs c at one own later = inr (c, one, own, λ l h. later l (sym at ∙ h))

module _ (now : Time) (running : 0 < now) (known disk : Table Text Entry) where
  later_than :
      (mod_time : Time) (prev l : Entry)
      → some prev ≡ some l
      → l.updated_at < stamp_updated_at now mod_time prev.updated_at
  later_than mod_time prev l e = ground (arith, stamp_updated_at_later now mod_time prev.updated_at)

  disk_round :
      (p : Text) (de : Entry) → Present (p, de) → Round known p (disk_change now known p de)
  unfolding disk_change
  disk_round p de own = elim (Option-cases (get p known)) [
    | inl new ↦
        round_of known p none _ (record { kind = added; path = p; entry = stamped now de 0 }) new
          (rw (new, disk_change)) own.0 (λ l h. absurd (ground arith))
    | inr (prev, old) ↦ elim (Bool-cases prev.deleted) [
      | inl dead ↦
          round_of known p (some prev) _
            (record { kind = added; path = p; entry = stamped now de prev.updated_at }) old
            (rw (old, disk_change) (rw dead)) own.0 (later_than de.mod_time prev)
      | inr alive ↦
          elim (Bool-cases (
            not (text_eqb prev.hash de.hash)
            || (not (nat_eqb prev.size de.size)
                || (not (nat_eqb prev.mode de.mode) || not (nat_eqb prev.mod_time de.mod_time))))) [
                  | inr same ↦ inl (rw (old, disk_change) (rw (alive, same)))
                  | inl differs ↦
                      round_of known p (some prev) _
                        (record {
                          kind = modified;
                          path = p;
                          entry = stamped now de prev.updated_at;
                        })
                        old
                        (rw (old, disk_change)
                          (rw (alive, differs)
                            (ap (λ e. record { kind = modified; path = p; entry = e } ∷ [])
                              (keep_content_lem now prev (stamped now de prev.updated_at)))))
                        own.0 (later_than de.mod_time prev)
                ]
    ]
  ]

  index_round :
      (p : Text) (prev : Entry)
      → (prev.path ≡ p) × (get p known ≡ some prev)
      → Round known p (index_change now disk p prev)
  unfolding index_change
  index_round p prev own = elim (Bool-cases prev.deleted) [
    | inl dead ↦ inl (rw dead)
    | inr alive ↦ elim (Option-cases (get p disk)) [
      | inr (de, there) ↦ inl (rw (alive, there))
      | inl gone ↦
          round_of known p (some prev) _
            (record { kind = deleted; path = p; entry = tomb now prev }) own.1 (rw (alive, gone))
            own.0 (later_than 0 prev)
    ]
  ]

All-both {ℓ} :
    {A : Type ℓ} (P Q : A → Type 0) (xs : List A) → All P xs → All Q xs → All (λ x. P x × Q x) xs
All-both P Q [] hp hq = tt
All-both P Q (x ∷ xs) hp hq = ((hp.0, hq.0), All-both P Q xs hp.1 hq.1)

module _ (now : Time) (running : 0 < now) (known disk : Table Text Entry) (kk : IsKeyed known)
    (kd : IsDisk disk) where
  abbrev pub found : List Change
  found = each (disk_change now known) disk

  abbrev pub gone : List Change
  gone = each (index_change now disk) known

  abbrev pub middle : Table Text Entry
  middle = (apply_changes found known).0

  disk_phase :
      AllTaken found known
      × ((q : Text)
          → get q middle
            ≡ left_by known
                (disk_change now known)
                (λ p v. Present (p, v))
                (disk_round now running known disk)
                disk
                known
                q)
  disk_phase =
      each_taken known (disk_change now known) (λ p v. Present (p, v))
        (disk_round now running known disk) disk known kd.0 kd.1 (λ q v h. inr refl)

  -- Where the disk has no file, the first loop leaves the index alone.
  middle_gone : (q : Text) → get q disk ≡ none → get q middle ≡ get q known
  middle_gone q absent = disk_phase.1 q ∙ rw (absent, left_by)

  index_idle :
      (q : Text) (prev de : Entry) → get q disk ≡ some de → index_change now disk q prev ≡ []
  unfolding index_change
  index_idle q prev de there = ground (arith, there)

  index_phase :
      AllTaken gone middle
      × ((q : Text)
          → get q (apply_changes gone middle).0
            ≡ left_by known
                (index_change now disk)
                (λ p v. (v.path ≡ p) × (get p known ≡ some v))
                (index_round now running known disk)
                known
                middle
                q)
  index_phase =
      each_taken known (index_change now disk) (λ p v. (v.path ≡ p) × (get p known ≡ some v))
        (index_round now running known disk) known middle kk.0
        (All-both (λ kv. kv.1.path ≡ kv.0) (λ kv. get kv.0 known ≡ some kv.1) known kk.1
          (All-get known kk.0))
        (λ q v h. elim (Option-cases (get q disk)) [
          | inl absent ↦ inr (middle_gone q absent)
          | inr (de, there) ↦ inl (index_idle q v de there)
        ])

  -- Every change is taken, and the map at the end is that after the second loop.
  pub changes_taken :
      AllTaken (changes now known disk) known
      × ((apply_changes (changes now known disk) known).0 ≡ (apply_changes gone middle).0)
  unfolding changes
  changes_taken =
      let split = apply_changes-append found gone known in
      (
        (
          ap (λ t. t.1) split
              ∙ ap₂ ◌+◌ disk_phase.0.0 index_phase.0.0
              ∙ sym (length-append found gone),
          ap (λ t. t.2) split
              ∙ ap₂ ◌++◌ disk_phase.0.1 index_phase.0.1
              ∙ sym (entries-append found gone),
        ),
        ap (λ t. t.0) split,
      )

  gone_match :
      (q : Text) (prev : Entry)
      → get q disk ≡ none
      → Matches (outcome (index_change now disk q prev) (some prev)) none
  unfolding index_change
  gone_match q prev absent = elim (Bool-cases prev.deleted) [
    | inl dead ↦ rw (dead, index_change) refl
    | inr alive ↦ rw (alive, absent, index_change) refl
  ]

  new_match :
      (q : Text) (de : Entry)
      → get q known ≡ none
      → de.deleted ≡ false
      → Matches (outcome (disk_change now known q de) none) (some de)
  unfolding disk_change
  new_match q de new live = rw (new, disk_change) (live, refl, refl, refl, refl)

  old_match :
      (q : Text) (de prev : Entry)
      → get q known ≡ some prev
      → de.deleted ≡ false
      → Matches (outcome (disk_change now known q de) (some prev)) (some de)
  unfolding disk_change
  old_match q de prev old live = elim (Bool-cases prev.deleted) [
    | inl dead ↦ rw (old, disk_change) (rw dead (live, refl, refl, refl, refl))
    | inr alive ↦
        elim (Bool-cases (
          not (text_eqb prev.hash de.hash)
          || (not (nat_eqb prev.size de.size)
              || (not (nat_eqb prev.mode de.mode) || not (nat_eqb prev.mod_time de.mod_time))))) [
                | inl differs ↦
                    rw (old, disk_change)
                      (rw
                        (alive, differs, keep_content_lem now prev (stamped now de prev.updated_at))
                        (live, refl, refl, refl, refl))
                | inr same ↦
                    rw (old, disk_change)
                      (rw (same, alive)
                        (
                          refl,
                          ground (arith, same, text_eqb_iff prev.hash de.hash),
                          ground (arith, same),
                          ground (arith, same),
                          ground (arith, same),
                        ))
              ]
  ]

  pub changes_match :
      (q : Text) → Matches (get q (apply_changes (changes now known disk) known).0) (get q disk)
  changes_match q =
      rw (ap (get q) changes_taken.1, index_phase.1 q)
        (elim (Option-cases (get q disk)) [
          | inl absent ↦ elim (Option-cases (get q known)) [
            | inl new ↦ rw (new, left_by, absent, middle_gone q absent ∙ new) tt
            | inr (prev, old) ↦
                rw (old, left_by, absent, middle_gone q absent ∙ old) (gone_match q prev absent)
          ]
          | inr (de, there) ↦
              let live : de.deleted ≡ false = (get-All Present q de disk kd.1 there).1 in
              elim (Option-cases (get q known)) [
                | inl new ↦
                    let at : get q middle ≡ outcome (disk_change now known q de) none =
                      disk_phase.1 q ∙ rw (there, left_by, new) refl in
                    rw (new, left_by, there, at) (new_match q de new live)
                | inr (prev, old) ↦
                    let at : get q middle ≡ outcome (disk_change now known q de) (some prev) =
                      disk_phase.1 q ∙ rw (there, left_by, old) refl in
                    rw (old, left_by, there, index_idle q prev de there, at)
                      (old_match q de prev old live)
              ]
        ])
