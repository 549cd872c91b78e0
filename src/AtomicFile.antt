-- ===== src/AtomicFile.antt =====
-- internal/atomicfile/atomicfile.go: writing a file by way of a temporary one. The operations of
-- `os.Root` and of an open file are those of `FileOps`; an open file is known by its name. The
-- standard library's path functions and the random names are arguments.
pub mod Atomic
mod Runs
use tailsync.Common.{
  ℕ, ◌≡◌, ◌≢◌, Bool, true, false, ◌||◌, not, Option, none, some, List, [], ◌∷◌, Text, nat_eqb,
  text_eqb, if◌then◌else◌,
}

-- What `OpenFile` with `O_CREATE|O_EXCL` gives.
pub data Opened : Type 0 where
  opened already_exists open_error : Opened

-- Each operation returns the files as it leaves them, and whether it succeeded.
pub record FileOps : Type 1 where
  pub Fs : Type 0
  pub content : Fs → Text → Option (List ℕ)
  pub mkdir_all : Fs → Text → Fs × Bool
  pub open_excl : Fs → Text → Fs × Opened
  pub write : Fs → Text → List ℕ → Fs × Bool
  pub chmod : Fs → Text → ℕ → Fs × Bool
  pub sync : Fs → Text → Fs × Bool
  pub close : Fs → Text → Fs × Bool
  pub rename : Fs → Text → Text → Fs × Bool
  pub remove : Fs → Text → Fs × Bool

-- What the path functions make of a name.
pub record Paths : Type 0 where
  pub clean : Text → Text
  pub is_abs : Text → Bool
  pub valid_path : Text → Bool
  pub is_local : Text → Bool
  pub dir : Text → Text
  pub join : Text → Text → Text

abbrev pub this_dir : Text
this_dir = b'.' ∷ []

-- 0o644
abbrev pub default_mode : ℕ
default_mode = 420

module _ (ops : FileOps) where
  open ops use {Fs, mkdir_all, open_excl, write, chmod, sync, close, rename, remove}

  -- A step that failed: the temporary file is closed where it is open, and removed.
  abbrev pub give_up : Bool → Fs → Text → Fs × Bool
  give_up true fs tmp = ((remove (close fs tmp).0 tmp).0, false)
  give_up false fs tmp = ((remove fs tmp).0, false)

  abbrev pub renamed : Text → Fs × Bool → Fs × Bool
  renamed tmp (fs, true) = (fs, true)
  renamed tmp (fs, false) = give_up false fs tmp

  abbrev pub closed : Text → Text → Fs × Bool → Fs × Bool
  closed tmp name (fs, true) = renamed tmp (rename fs tmp name)
  closed tmp name (fs, false) = give_up false fs tmp

  abbrev pub synced : Text → Text → Fs × Bool → Fs × Bool
  synced tmp name (fs, true) = closed tmp name (close fs tmp)
  synced tmp name (fs, false) = give_up true fs tmp

  abbrev pub moded : Text → Text → Fs × Bool → Fs × Bool
  moded tmp name (fs, true) = synced tmp name (sync fs tmp)
  moded tmp name (fs, false) = give_up true fs tmp

  abbrev pub written : Text → Text → ℕ → Fs × Bool → Fs × Bool
  written tmp name mode (fs, true) = moded tmp name (chmod fs tmp mode)
  written tmp name mode (fs, false) = give_up true fs tmp

  -- Both functions once the temporary file is open.
  unfoldable pub fill_and_rename : Fs → Text → Text → List ℕ → ℕ → Fs × Bool
  fill_and_rename fs tmp name bytes mode = written tmp name mode (write fs tmp bytes)

  -- `createTempRoot` over the names that it would draw; `none` is an error.
  unfoldable pub create_temp_root : Fs → List Text → Fs × Option Text
  create_temp_root fs [] = (fs, none)
  create_temp_root fs (name ∷ names) =
      let (fs', got) = open_excl fs name in
      elim got [
        | opened ↦ (fs', some name)
        | already_exists ↦ create_temp_root fs' names
        | open_error ↦ (fs', none)
      ]

  abbrev pub with_temp : Text → List ℕ → ℕ → Fs × Option Text → Fs × Bool
  with_temp name bytes mode (fs, none) = (fs, false)
  with_temp name bytes mode (fs, some tmp) = fill_and_rename fs tmp name bytes mode

  abbrev pub in_dir : Text → List Text → List ℕ → ℕ → Fs × Bool → Fs × Bool
  in_dir name names bytes mode (fs, false) = (fs, false)
  in_dir name names bytes mode (fs, true) = with_temp name bytes mode (create_temp_root fs names)

  abbrev pub mode_or_default : ℕ → ℕ
  mode_or_default mode = if nat_eqb mode 0 then default_mode else mode

  -- `WriteFile`; `names` are the names that `os.CreateTemp` would draw.
  unfoldable pub write_file : Paths → (Text → List Text) → Fs → Text → List ℕ → ℕ → Fs × Bool
  write_file paths names fs name bytes mode =
      in_dir name (names (paths.dir name)) bytes (mode_or_default mode)
        (mkdir_all fs (paths.dir name))

  -- `WriteFileRoot` from the directory on; `name` is clean.
  unfoldable pub write_clean : Paths → (Text → List Text) → Fs → Text → List ℕ → ℕ → Fs × Bool
  write_clean paths names fs name bytes mode =
      if text_eqb (paths.dir name) this_dir
      then with_temp name bytes mode (create_temp_root fs (names (paths.dir name)))
      else in_dir name (names (paths.dir name)) bytes mode (mkdir_all fs (paths.dir name))

  -- `WriteFileRoot`
  unfoldable pub write_file_root : Paths → (Text → List Text) → Fs → Text → List ℕ → ℕ → Fs × Bool
  write_file_root paths names fs name bytes mode =
      let cleaned : Text = paths.clean name in
      if text_eqb cleaned this_dir || (paths.is_abs cleaned || not (paths.valid_path cleaned))
      then (fs, false)
      else (if not (paths.is_local cleaned)
          then (fs, false)
          else write_clean paths names fs cleaned bytes (mode_or_default mode))
