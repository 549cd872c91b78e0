-- ===== src/Scan/Listed.antt =====
-- What the walk of `Scan` has to find, said without it: the regular files below the directory that no
-- reserved name hides, each with its `Info`, and the hash that an entry for it may carry.
use mathlib.Core.Path.{subst}
use tailsync.Common.{
  ◌≡◌, refl, sym, ap, ◌∙◌, ◌⊎◌, inl, inr, Bool, true, false, ◌&&◌, ◌||◌, not, Option, none, some,
  [], Text, text_eqb, text_eqb→eq, text_eqb_refl, nat_eqb, arith, text_key, Bool-cases,
  Option-cases, if◌then◌else◌,
}
use tailsync.Common.Table.{Table, get, put, get-put}
use tailsync.PathUtil.{is_reserved_component}
use tailsync.Index.{Entry, Time}
use tailsync.Scan.{
  FileInfo, Forest, done, file, dir, broken, walk, visit_file, hash_of, join_path, disk_entry,
  Result, scan, changes,
}
use tailsync.Scan.Reconcile.{Matches}

-- `q` is the path of a regular file of the forest, with this `Info`.
abbrev pub Lists : Text → Forest → Text → FileInfo → Type 0
Lists prefix done q fi = ⊥
Lists prefix (broken name rest) q fi = Lists prefix rest q fi
Lists prefix (file name regular info rest) q fi =
    ((regular ≡ true)
      × (is_reserved_component name ≡ false)
      × (join_path prefix name ≡ q)
      × (info ≡ some fi))
    ⊎ Lists prefix rest q fi
Lists prefix (dir name children rest) q fi =
    ((is_reserved_component name ≡ false) × Lists (join_path prefix name) children q fi)
    ⊎ Lists prefix rest q fi

abbrev pub IsFound : Forest → Text → Type 0
IsFound forest q = (fi : FileInfo) × Lists [] forest q fi

module _ (force : Bool) (hash : Text → Option Text) (files : Table Text Entry) where
  -- The hash of the contents, or the one that the index has for a live file of this size and time.
  abbrev pub Hashed : Text → FileInfo → Text → Type 0
  Hashed q fi h =
      (hash q ≡ some h)
      ⊎ ((force ≡ false)
          × ((prev : Entry) × (get q files ≡ some prev)
              × (prev.deleted ≡ false)
              × (prev.size ≡ fi.size)
              × (prev.mod_time ≡ fi.mod_time)
              × (prev.hash ≡ h)))

  abbrev pub DescribesFile : Text → FileInfo → Entry → Type 0
  DescribesFile q fi e =
      (e.size ≡ fi.size) × (e.mode ≡ fi.mode) × (e.mod_time ≡ fi.mod_time) × Hashed q fi e.hash

  -- What an index in step with the directory has under a path.
  abbrev pub Follows : Forest → Text → Option Entry → Type 0
  Follows forest q none = ¬ IsFound forest q
  Follows forest q (some e) =
      ((e.deleted ≡ true) × (¬ IsFound forest q))
      ⊎ ((e.deleted ≡ false) × ((fi : FileInfo) × Lists [] forest q fi × DescribesFile q fi e))

  module _ (now : Time) where
    hash_of-Hashed :
        (q : Text) (fi : FileInfo) (h : Text)
        → hash_of force hash files now q fi ≡ some h
        → Hashed q fi h
    unfolding hash_of
    hash_of-Hashed q fi h e = elim (Option-cases (get q files)) [
      | inl new ↦ inl (ground (arith, e, new))
      | inr (prev, old) ↦
          elim (Bool-cases (
            not force
            && (not prev.deleted
                && (nat_eqb prev.size fi.size
                    && (nat_eqb prev.mod_time fi.mod_time && not (text_eqb prev.hash [])))))) [
                      | inr slow ↦ inl (ground (arith, e, old, slow))
                      | inl fast ↦ inr (
                        ground (arith, fast),
                        (
                          prev,
                          old,
                          ground (arith, fast),
                          ground (arith, fast),
                          ground (arith, fast),
                          ground (arith, e, old, fast),
                        ),
                      )
                    ]
    ]

    -- What a visited file adds.
    visit_sound :
        (rel name q : Text) (regular : Bool) (info : Option FileInfo)
        (disk disk' : Table Text Entry) (de : Entry)
        → visit_file force hash files now rel name regular info disk ≡ some disk'
        → get q disk' ≡ some de
        → (get q disk ≡ some de)
          ⊎ ((fi : FileInfo) × (regular ≡ true)
              × (is_reserved_component name ≡ false)
              × (rel ≡ q)
              × (info ≡ some fi)
              × DescribesFile q fi de)
    unfolding visit_file
    visit_sound rel name q regular info disk disk' de e there =
        elim (Bool-cases (not regular || is_reserved_component name)) [
          | inl skip ↦
              let same : disk ≡ disk' = ground (arith, skip, e) in inl (ap (get q) same ∙ there)
          | inr take ↦ elim (Option-cases info) [
            | inl bad ↦ absurd (ground (arith, take, bad, e))
            | inr (fi, stat) ↦ elim (Option-cases (hash_of force hash files now rel fi)) [
              | inl bad ↦ absurd (ground (arith, take, stat, bad, e))
              | inr (h, hashed) ↦
                  let new : Entry = disk_entry force hash files now rel fi h in
                  let same : put rel new disk ≡ disk' = ground (arith, take, stat, hashed, e) in
                  let at : (if text_eqb rel q then some new else get q disk) ≡ some de =
                    sym (get-put rel q new disk) ∙ ap (get q) same ∙ there in
                  elim (Bool-cases (text_eqb rel q)) [
                    | inr apart ↦ inl (ground (arith, at, apart))
                    | inl here ↦
                        let path : rel ≡ q = text_eqb→eq rel q here in
                        let is_new : new ≡ de = ground (arith, at, here) in
                        inr (
                          fi,
                          ground (arith, take),
                          ground (arith, take),
                          path,
                          stat,
                          subst (λ (x : Entry). DescribesFile q fi x) is_new
                              (
                                refl,
                                refl,
                                refl,
                                subst (λ t. Hashed t fi h) path (hash_of-Hashed rel fi h hashed),
                              ),
                        )
                  ]
            ]
          ]
        ]

    walk_sound :
        (prefix q : Text) (forest : Forest) (disk disk' : Table Text Entry) (de : Entry)
        → walk force hash files now prefix forest disk ≡ some disk'
        → get q disk' ≡ some de
        → (get q disk ≡ some de)
          ⊎ ((fi : FileInfo) × Lists prefix forest q fi × DescribesFile q fi de)
    unfolding walk
    walk_sound prefix q done disk disk' de e there =
        let same : disk ≡ disk' = ground (arith, e) in inl (ap (get q) same ∙ there)
    walk_sound prefix q (broken name rest) disk disk' de e there = absurd (ground (arith, e))
    walk_sound prefix q (file name regular info rest) disk disk' de e there =
        elim (Option-cases
          (visit_file force hash files now (join_path prefix name) name regular info disk)) [
            | inl bad ↦ absurd (ground (arith, bad, e))
            | inr (d, visited) ↦
                elim (walk_sound prefix q rest d disk' de (ground (arith, visited, e)) there) [
                  | inr (fi, later, says) ↦ inr (fi, inr later, says)
                  | inl here ↦
                      elim (visit_sound (join_path prefix name) name q regular info disk d de
                        visited here) [
                          | inl before ↦ inl before
                          | inr (fi, plain, free, path, stat, says) ↦
                              inr (fi, inl (plain, free, path, stat), says)
                        ]
                ]
          ]
    walk_sound prefix q (dir name children rest) disk disk' de e there =
        elim (Bool-cases (is_reserved_component name)) [
          | inl skip ↦
              elim (walk_sound prefix q rest disk disk' de (ground (arith, skip, e)) there) [
                | inl before ↦ inl before
                | inr (fi, later, says) ↦ inr (fi, inr later, says)
              ]
          | inr enter ↦
              elim (Option-cases
                (walk force hash files now (join_path prefix name) children disk)) [
                  | inl bad ↦ absurd (ground (arith, enter, bad, e))
                  | inr (d, walked) ↦
                      elim (walk_sound prefix q rest d disk' de (ground (arith, enter, walked, e))
                        there) [
                          | inr (fi, later, says) ↦ inr (fi, inr later, says)
                          | inl here ↦
                              elim (walk_sound (join_path prefix name) q children disk d de walked
                                here) [
                                  | inl before ↦ inl before
                                  | inr (fi, below, says) ↦ inr (fi, inl (enter, below), says)
                                ]
                        ]
                ]
        ]

    -- What a visit leaves without an entry had none, and is not the path of a file to be found.
    visit_complete :
        (rel name q : Text) (regular : Bool) (info : Option FileInfo)
        (disk disk' : Table Text Entry)
        → visit_file force hash files now rel name regular info disk ≡ some disk'
        → get q disk' ≡ none
        → (get q disk ≡ none)
          × (¬ ((regular ≡ true) × (is_reserved_component name ≡ false) × (rel ≡ q)))
    unfolding visit_file
    visit_complete rel name q regular info disk disk' e gone =
        elim (Bool-cases (not regular || is_reserved_component name)) [
          | inl skip ↦
              let same : disk ≡ disk' = ground (arith, skip, e) in
              (
                ap (get q) same ∙ gone,
                λ (plain, free, path). absurd (ground (arith, skip, plain, free)),
              )
          | inr take ↦ elim (Option-cases info) [
            | inl bad ↦ absurd (ground (arith, take, bad, e))
            | inr (fi, stat) ↦ elim (Option-cases (hash_of force hash files now rel fi)) [
              | inl bad ↦ absurd (ground (arith, take, stat, bad, e))
              | inr (h, hashed) ↦
                  let new : Entry = disk_entry force hash files now rel fi h in
                  let same : put rel new disk ≡ disk' = ground (arith, take, stat, hashed, e) in
                  let at : (if text_eqb rel q then some new else get q disk) ≡ none =
                    sym (get-put rel q new disk) ∙ ap (get q) same ∙ gone in
                  (
                    ground (arith, at),
                    λ (plain, free, path).
                        absurd (ground (arith, at, ap (text_eqb rel) path, text_eqb_refl rel)),
                  )
            ]
          ]
        ]

    walk_complete :
        (prefix q : Text) (forest : Forest) (disk disk' : Table Text Entry)
        → walk force hash files now prefix forest disk ≡ some disk'
        → get q disk' ≡ none
        → (get q disk ≡ none) × ((fi : FileInfo) → ¬ Lists prefix forest q fi)
    unfolding walk
    walk_complete prefix q done disk disk' e gone =
        let same : disk ≡ disk' = ground (arith, e) in (ap (get q) same ∙ gone, λ fi l. l)
    walk_complete prefix q (broken name rest) disk disk' e gone = absurd (ground (arith, e))
    walk_complete prefix q (file name regular info rest) disk disk' e gone =
        elim (Option-cases
          (visit_file force hash files now (join_path prefix name) name regular info disk)) [
            | inl bad ↦ absurd (ground (arith, bad, e))
            | inr (d, visited) ↦
                let (none_here, later) =
                  walk_complete prefix q rest d disk' (ground (arith, visited, e)) gone in
                let (before, other) =
                  visit_complete (join_path prefix name) name q regular info disk d visited
                    none_here in
                (
                  before,
                  λ fi l. elim l [
                    | inl (plain, free, path, stat) ↦ other (plain, free, path)
                    | inr l' ↦ later fi l'
                  ],
                )
          ]
    walk_complete prefix q (dir name children rest) disk disk' e gone =
        elim (Bool-cases (is_reserved_component name)) [
          | inl skip ↦
              let (before, later) =
                walk_complete prefix q rest disk disk' (ground (arith, skip, e)) gone in
              (
                before,
                λ fi l. elim l [
                  | inl (free, below) ↦ absurd (ground (arith, skip, free))
                  | inr l' ↦ later fi l'
                ],
              )
          | inr enter ↦
              elim (Option-cases
                (walk force hash files now (join_path prefix name) children disk)) [
                  | inl bad ↦ absurd (ground (arith, enter, bad, e))
                  | inr (d, walked) ↦
                      let (none_here, later) =
                        walk_complete prefix q rest d disk' (ground (arith, enter, walked, e))
                          gone in
                      let (before, below) =
                        walk_complete (join_path prefix name) q children disk d walked none_here in
                      (
                        before,
                        λ fi l. elim l [ inl (free, l') ↦ below fi l' | inr l' ↦ later fi l' ],
                      )
                ]
        ]

    -- An entry that matches what the walk collected is one that follows the directory.
    walk-Follows :
        (forest : Forest) (disk : Table Text Entry) (q : Text) (o : Option Entry)
        → walk force hash files now [] forest [] ≡ some disk
        → Matches o (get q disk)
        → Follows forest q o
    unfolding get
    walk-Follows forest disk q none walked m = elim (Option-cases (get q disk)) [
      | inr (de, there) ↦ absurd (subst (Matches none) there m)
      | inl gone ↦
          let (before, apart) = walk_complete [] q forest [] disk walked gone in
          λ (fi, l). apart fi l
    ]
    walk-Follows forest disk q (some e) walked m = elim (Option-cases (get q disk)) [
      | inl gone ↦
          let (before, apart) = walk_complete [] q forest [] disk walked gone in
          inl (subst (Matches (some e)) gone m, λ (fi, l). apart fi l)
      | inr (de, there) ↦
          let (live, h, size, mode, time) = subst (Matches (some e)) there m in
          elim (walk_sound [] q forest [] disk de walked there) [
            | inl before ↦ absurd (ground (arith, before))
            | inr (fi, l, (size', mode', time', h')) ↦ inr (
              live,
              (fi, l, (size ∙ size', mode ∙ mode', time ∙ time', subst (Hashed q fi) (sym h) h')),
            )
          ]
    ]

    pub scan-Follows :
        (forest : Forest) (res : Result) (q : Text) (o : Option Entry)
        → scan force hash forest files now ≡ some res
        → Matches o (get q res.disk)
        → Follows forest q o
    unfolding scan
    scan-Follows forest res q o e m = elim (Option-cases (walk force hash files now [] forest [])) [
      | inl bad ↦ absurd (ground (arith, bad, e))
      | inr (disk, walked) ↦
          let same : record { changes = changes now files disk; disk = disk } ≡ res =
            ground (arith, walked, e) in
          let match : Matches o (get q disk) =
            subst (λ (r : Result). Matches o (get q r.disk)) (sym same) m in
          walk-Follows forest disk q o walked match
    ]
