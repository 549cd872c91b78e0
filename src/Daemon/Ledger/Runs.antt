-- ===== src/Daemon/Ledger/Runs.antt =====
-- Runs of the ledger of a small daemon.
use tailsync.Common.{ℕ, ◌≤◌, ◌≡◌, refl, true, false, none, some, List, [], ◌∷◌, Text, text_key}
use tailsync.Common.Table.{get}
use tailsync.Index.{Entry}
use tailsync.Index.Disk.{FileIo, ReadResult, missing}
use tailsync.Index.Merge.{IsKeyed}
use tailsync.Proto.{Message, new_manifest}
use tailsync.Daemon.{Tree, Stat, absent, Removal}
use tailsync.Daemon.Apply.{State}
use tailsync.Daemon.Apply.Remote.{pulled, commit_pulled}
use tailsync.Daemon.Exchange.{Exchange, answered, not_opened}
use tailsync.Daemon.Pull.{Around, pull_from_session}
use tailsync.Daemon.Ledger.{Moves}
use tailsync.Daemon.Ledger.Reached.{commits, shown, Step-Moves}
use tailsync.Daemon.Ledger.Whole.{Keeps-refl, pull_from_session-Kept}

abbrev empty_tree : Tree
empty_tree = record {
  Fs = Stat;
  stat = λ fs p. fs;
  read_file = λ fs p. none;
  remove = λ fs p. (absent, Removal.already_gone);
  chtimes = λ fs p t. (fs, true);
  chmod = λ fs p m. (fs, true);
  write_file_root = λ fs p b m. (fs, true);
}

abbrev no_disk : FileIo
no_disk = record {
  Disk = ReadResult;
  read_file = λ d p. d;
  write_file = λ d p b m. none;
  marshal = λ df. none;
  unmarshal = λ b. none;
}

abbrev file_a : Text
file_a = b'a' ∷ []

abbrev live_a : Entry
live_a = record {
  path = file_a;
  size = 0;
  mod_time = 5;
  mode = 420;
  hash = b'x' ∷ [];
  deleted = false;
  deleted_at = 0;
  updated_at = 10;
}

-- The same file, deleted later.
abbrev dead_a : Entry
dead_a = record live_a { deleted = true; deleted_at = 20; updated_at = 20; hash = [] }

abbrev known : Entry → State empty_tree no_disk
known e = record {
  idx = record { version = 1; files = (file_a, e) ∷ []; path = [] };
  fs = absent;
  disk = missing;
  applies_since_save = 0;
}

one-IsKeyed : (e : Entry) → e.path ≡ file_a → IsKeyed ((file_a, e) ∷ [])
unfolding get
one-IsKeyed e own = ((refl, tt), (own, tt))

Step-Moves_example :
    IsKeyed
      (commit_pulled empty_tree no_disk
        (λ b. b'y' ∷ [])
        9
        false
        30
        (known live_a)
        (record live_a { hash = b'y' ∷ []; updated_at = 12 })
        (pulled (1 ∷ []))).0.idx.files
    × ((q : Text)
        → Moves (shown (known live_a).idx q) (
            shown
              (commit_pulled empty_tree no_disk
                (λ b. b'y' ∷ [])
                9
                false
                30
                (known live_a)
                (record live_a { hash = b'y' ∷ []; updated_at = 12 })
                (pulled (1 ∷ []))).0.idx
              q))
Step-Moves_example =
    Step-Moves empty_tree no_disk (known live_a)
      (commit_pulled empty_tree no_disk (λ b. b'y' ∷ []) 9 false 30 (known live_a)
        (record live_a { hash = b'y' ∷ []; updated_at = 12 }) (pulled (1 ∷ []))).0
      (commits (λ b. b'y' ∷ []) 9 false 30 (record live_a { hash = b'y' ∷ []; updated_at = 12 })
        (pulled (1 ∷ [])) (known live_a))
      (one-IsKeyed live_a refl)

-- A peer that sends a manifest with the deletion and nothing else.
abbrev manifest_of : List Entry → Message → Exchange
manifest_of es req = answered (new_manifest es)

abbrev alone : ℕ → Around (State empty_tree no_disk)
alone i = record {
  ended_loop = false;
  ended_begin = false;
  ended_pull = false;
  ended_commit = false;
  slot = true;
  before = λ s. s;
  meanwhile = λ s. s;
  delta_peer = λ req. not_opened;
  full_peer = λ req. not_opened;
  retry_peer = λ req. not_opened;
  now = 30;
}

found_a : shown (known live_a).idx file_a ≡ some live_a
unfolding get
found_a = refl

abbrev pulled_state : State empty_tree no_disk
pulled_state =
    (pull_from_session empty_tree no_disk (λ b. b) (λ b. b) some 9 256 false false
      (manifest_of (dead_a ∷ [])) alone (known live_a)).state

pull_from_session-Kept_example :
    IsKeyed pulled_state.idx.files
    × ((e' : Entry) × (shown pulled_state.idx file_a ≡ some e')
        × (live_a.updated_at ≤ e'.updated_at))
pull_from_session-Kept_example =
    pull_from_session-Kept empty_tree no_disk (λ b. b) (λ b. b) some 9 256 false false
      (manifest_of (dead_a ∷ [])) alone (known live_a) file_a live_a
      (λ k t. Keeps-refl empty_tree no_disk t) (one-IsKeyed live_a refl) found_a
