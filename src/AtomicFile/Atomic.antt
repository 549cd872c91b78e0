-- ===== src/AtomicFile/Atomic.antt =====
-- All or nothing: what `WriteFile` and `WriteFileRoot` leave, on every path through them.
use tailsync.Common.{
  ℕ, ◌≡◌, ◌≢◌, refl, sym, ap, ◌∙◌, Bool, true, false, ◌&&◌, ◌||◌, not, Option, none, some, List, [],
  ◌∷◌, Text, text_eqb, text_eqb→eq, if◌then◌else◌, All, arith, Bool-cases, inl, inr, ◌⊎◌,
  text_eqb_iff, text_key,
}
use tailsync.AtomicFile.{
  FileOps, Opened, opened, already_exists, open_error, Paths, this_dir, give_up, renamed, closed,
  synced, moded, written, fill_and_rename, create_temp_root, with_temp, in_dir, mode_or_default,
  write_file, write_clean, write_file_root,
}

-- What the operations promise of the contents of files.
pub record Lawful (ops : FileOps) : Type 0 where
  pub mkdir_keeps :
      (fs : ops.Fs) (p q : Text) → ops.content (ops.mkdir_all fs p).0 q ≡ ops.content fs q
  pub open_keeps :
      (fs : ops.Fs) (t q : Text) → t ≢ q → ops.content (ops.open_excl fs t).0 q ≡ ops.content fs q
  pub write_keeps :
      (fs : ops.Fs) (t q : Text) (b : List ℕ)
      → t ≢ q
      → ops.content (ops.write fs t b).0 q ≡ ops.content fs q
  pub writes :
      (fs : ops.Fs) (t : Text) (b : List ℕ)
      → (ops.write fs t b).1 ≡ true
      → ops.content (ops.write fs t b).0 t ≡ some b
  pub chmod_keeps :
      (fs : ops.Fs) (t q : Text) (m : ℕ) → ops.content (ops.chmod fs t m).0 q ≡ ops.content fs q
  pub sync_keeps : (fs : ops.Fs) (t q : Text) → ops.content (ops.sync fs t).0 q ≡ ops.content fs q
  pub close_keeps : (fs : ops.Fs) (t q : Text) → ops.content (ops.close fs t).0 q ≡ ops.content fs q
  pub remove_keeps :
      (fs : ops.Fs) (t q : Text) → t ≢ q → ops.content (ops.remove fs t).0 q ≡ ops.content fs q
  pub renames :
      (fs : ops.Fs) (t n : Text)
      → (ops.rename fs t n).1 ≡ true
      → ops.content (ops.rename fs t n).0 n ≡ ops.content fs t
  pub rename_keeps :
      (fs : ops.Fs) (t n q : Text)
      → t ≢ q
      → ((ops.rename fs t n).1 ≡ false) ⊎ (n ≢ q)
      → ops.content (ops.rename fs t n).0 q ≡ ops.content fs q

text_differs : (a b : Text) → text_eqb a b ≡ false → a ≢ b
text_differs a b e same = ground (arith, e, (text_eqb_iff a b).1 same)

module _ (ops : FileOps) (laws : Lawful ops) (name : Text) (bytes : List ℕ) (q : Text)
    (before : Option (List ℕ)) where
  open ops use {Fs, content}

  -- What a path holds when a call returns: the new bytes if it is the one that was written and the call
  -- succeeded, and what it held before otherwise.
  abbrev pub AllOrNothing : Fs × Bool → Type 0
  AllOrNothing (fs, ok) = content fs q ≡ (if ok && text_eqb name q then some bytes else before)

  module _ (tmp : Text) (aside : tmp ≢ q) where
    give_up-AllOrNothing :
        (is_open : Bool) (fs : Fs)
        → content fs q ≡ before
        → AllOrNothing (give_up ops is_open fs tmp)
    give_up-AllOrNothing true fs h =
        laws.remove_keeps (ops.close fs tmp).0 tmp q aside ∙ (laws.close_keeps fs tmp q ∙ h)
    give_up-AllOrNothing false fs h = laws.remove_keeps fs tmp q aside ∙ h

    renamed-AllOrNothing :
        (fs : Fs) (r : Fs × Bool)
        → content fs q ≡ before
        → content fs tmp ≡ some bytes
        → ops.rename fs tmp name ≡ r
        → AllOrNothing (renamed ops tmp r)
    renamed-AllOrNothing fs (fs', false) h full e = give_up-AllOrNothing false fs' (
        ap (λ (r : Fs × Bool). content r.0 q) (sym e)
        ∙ (laws.rename_keeps fs tmp name q aside (inl (ap (λ (r : Fs × Bool). r.1) e)) ∙ h))
    renamed-AllOrNothing fs (fs', true) h full e = elim (Bool-cases (text_eqb name q)) [
      | inl here ↦
          let moved : content fs' name ≡ some bytes =
            ap (λ (r : Fs × Bool). content r.0 name) (sym e)
            ∙ (laws.renames fs tmp name (ap (λ (r : Fs × Bool). r.1) e) ∙ full) in
          rw here (ap (content fs') (sym (text_eqb→eq name q here)) ∙ moved)
      | inr there ↦ rw there (
          ap (λ (r : Fs × Bool). content r.0 q) (sym e)
          ∙ (laws.rename_keeps fs tmp name q aside (inr (text_differs name q there)) ∙ h))
    ]

    closed-AllOrNothing :
        (r : Fs × Bool)
        → content r.0 q ≡ before
        → content r.0 tmp ≡ some bytes
        → AllOrNothing (closed ops tmp name r)
    closed-AllOrNothing (fs, true) h full =
        renamed-AllOrNothing fs (ops.rename fs tmp name) h full refl
    closed-AllOrNothing (fs, false) h full = give_up-AllOrNothing false fs h

    synced-AllOrNothing :
        (r : Fs × Bool)
        → content r.0 q ≡ before
        → content r.0 tmp ≡ some bytes
        → AllOrNothing (synced ops tmp name r)
    synced-AllOrNothing (fs, true) h full =
        closed-AllOrNothing (ops.close fs tmp) (laws.close_keeps fs tmp q ∙ h)
          (laws.close_keeps fs tmp tmp ∙ full)
    synced-AllOrNothing (fs, false) h full = give_up-AllOrNothing true fs h

    moded-AllOrNothing :
        (r : Fs × Bool)
        → content r.0 q ≡ before
        → content r.0 tmp ≡ some bytes
        → AllOrNothing (moded ops tmp name r)
    moded-AllOrNothing (fs, true) h full =
        synced-AllOrNothing (ops.sync fs tmp) (laws.sync_keeps fs tmp q ∙ h)
          (laws.sync_keeps fs tmp tmp ∙ full)
    moded-AllOrNothing (fs, false) h full = give_up-AllOrNothing true fs h

    written-AllOrNothing :
        (mode : ℕ) (fs : Fs) (r : Fs × Bool)
        → content fs q ≡ before
        → ops.write fs tmp bytes ≡ r
        → AllOrNothing (written ops tmp name mode r)
    written-AllOrNothing mode fs (fs', false) h e = give_up-AllOrNothing true fs' (
        ap (λ (r : Fs × Bool). content r.0 q) (sym e) ∙ (laws.write_keeps fs tmp q bytes aside ∙ h))
    written-AllOrNothing mode fs (fs', true) h e =
        let kept : content fs' q ≡ before =
          ap (λ (r : Fs × Bool). content r.0 q) (sym e)
          ∙ (laws.write_keeps fs tmp q bytes aside ∙ h) in
        let full : content fs' tmp ≡ some bytes =
          ap (λ (r : Fs × Bool). content r.0 tmp) (sym e)
          ∙ laws.writes fs tmp bytes (ap (λ (r : Fs × Bool). r.1) e) in
        moded-AllOrNothing (ops.chmod fs' tmp mode) (laws.chmod_keeps fs' tmp q mode ∙ kept)
          (laws.chmod_keeps fs' tmp tmp mode ∙ full)

  -- What `createTempRoot` leaves at a path that is none of its names.
  abbrev Temp : Fs × Option Text → Type 0
  Temp (fs, none) = content fs q ≡ before
  Temp (fs, some tmp) = (content fs q ≡ before) × (tmp ≢ q)

  Opened-cases : (r : Opened) → (r ≡ opened) ⊎ ((r ≡ already_exists) ⊎ (r ≡ open_error))
  Opened-cases opened = inl refl
  Opened-cases already_exists = inr (inl refl)
  Opened-cases open_error = inr (inr refl)

  create_temp_root-Temp :
      (fs : Fs) (names : List Text)
      → All (λ t. t ≢ q) names
      → content fs q ≡ before
      → Temp (create_temp_root ops fs names)
  unfolding create_temp_root
  create_temp_root-Temp fs [] h same = same
  create_temp_root-Temp fs (t ∷ names) h same =
      let r : Fs × Opened = ops.open_excl fs t in
      let kept : content r.0 q ≡ before = laws.open_keeps fs t q h.0 ∙ same in
      let rest = create_temp_root-Temp r.0 names h.1 kept in
      elim (Opened-cases r.1) [
        | inl fresh ↦ rw (fresh, create_temp_root) (kept, h.0)
        | inr (inl taken) ↦ rw (taken, create_temp_root) rest
        | inr (inr bad) ↦ rw (bad, create_temp_root) kept
      ]

  with_temp-AllOrNothing :
      (mode : ℕ) (r : Fs × Option Text) → Temp r → AllOrNothing (with_temp ops name bytes mode r)
  unfolding fill_and_rename
  with_temp-AllOrNothing mode (fs, none) h = h
  with_temp-AllOrNothing mode (fs, some tmp) (same, aside) =
      written-AllOrNothing tmp aside mode fs (ops.write fs tmp bytes) same refl

  in_dir-AllOrNothing :
      (names : List Text) (mode : ℕ) (r : Fs × Bool)
      → All (λ t. t ≢ q) names
      → content r.0 q ≡ before
      → AllOrNothing (in_dir ops name names bytes mode r)
  in_dir-AllOrNothing names mode (fs, false) h same = same
  in_dir-AllOrNothing names mode (fs, true) h same =
      with_temp-AllOrNothing mode (create_temp_root ops fs names)
        (create_temp_root-Temp fs names h same)

module _ (ops : FileOps) (laws : Lawful ops) (paths : Paths) (names : Text → List Text) where
  open ops use {Fs, content}

  -- `WriteFile` is all or nothing: however its steps fail, a path that is none of the temporary names
  -- holds the new bytes if it is the one that was written and no error is returned, and otherwise what
  -- it held before.
  pub write_file-AllOrNothing :
      (fs : Fs) (name q : Text) (bytes : List ℕ) (mode : ℕ)
      → All (λ t. t ≢ q) (names (paths.dir name))
      → AllOrNothing ops laws name bytes q
          (content fs q)
          (write_file ops paths names fs name bytes mode)
  unfolding write_file
  write_file-AllOrNothing fs name q bytes mode h =
      in_dir-AllOrNothing ops laws name bytes q (content fs q) (names (paths.dir name))
        (mode_or_default ops mode) (ops.mkdir_all fs (paths.dir name)) h
        (laws.mkdir_keeps fs (paths.dir name) q)

  write_clean-AllOrNothing :
      (fs : Fs) (name q : Text) (bytes : List ℕ) (mode : ℕ)
      → All (λ t. t ≢ q) (names (paths.dir name))
      → AllOrNothing ops laws name bytes q
          (content fs q)
          (write_clean ops paths names fs name bytes mode)
  unfolding write_clean
  write_clean-AllOrNothing fs name q bytes mode h =
      elim (Bool-cases (text_eqb (paths.dir name) this_dir)) [
        | inl here ↦
            rw (here, write_clean)
              (with_temp-AllOrNothing ops laws name bytes q (content fs q) mode
                (create_temp_root ops fs (names (paths.dir name)))
                (create_temp_root-Temp ops laws name bytes q (content fs q) fs
                  (names (paths.dir name)) h refl))
        | inr below ↦
            rw (below, write_clean)
              (in_dir-AllOrNothing ops laws name bytes q (content fs q) (names (paths.dir name))
                mode (ops.mkdir_all fs (paths.dir name)) h (laws.mkdir_keeps fs (paths.dir name) q))
      ]

  -- `WriteFileRoot` is all or nothing: whatever the name and however its steps fail, a path that is none
  -- of the temporary names holds the new bytes if it is the cleaned name and no error is returned, and
  -- otherwise what it held before.
  pub write_file_root-AllOrNothing :
      (fs : Fs) (name q : Text) (bytes : List ℕ) (mode : ℕ)
      → All (λ t. t ≢ q) (names (paths.dir (paths.clean name)))
      → AllOrNothing ops laws
          (paths.clean name)
          bytes
          q
          (content fs q)
          (write_file_root ops paths names fs name bytes mode)
  unfolding write_file_root
  write_file_root-AllOrNothing fs name q bytes mode h =
      let cleaned : Text = paths.clean name in
      elim (Bool-cases
        (text_eqb cleaned this_dir || (paths.is_abs cleaned || not (paths.valid_path cleaned)))) [
          | inl bad ↦ rw (bad, write_file_root) refl
          | inr fine ↦ elim (Bool-cases (paths.is_local cleaned)) [
            | inr outside ↦ rw (fine, outside, write_file_root) refl
            | inl local ↦
                rw (fine, local, write_file_root)
                  (write_clean-AllOrNothing fs cleaned q bytes (mode_or_default ops mode) h)
          ]
        ]
