-- ===== src/Daemon/Exchange/Runs.antt =====
-- A run of the delta exchange.
use tailsync.Common.{
  ℕ, zero, suc, ◌*◌, ◌≡◌, refl, sym, ap, ◌∙◌, true, false, some, List, [], ◌∷◌, Text, length, take,
  drop, arith, drop_all, ◌⊎◌, inl, inr,
}
use tailsync.Common.Table.{get}
use tailsync.Index.{Entry, Index}
use tailsync.Proto.{MsgType, Header}
use tailsync.Delta.Expand.{chunk, NoCollision}
use tailsync.Daemon.{Tree, Stat, present, absent, Removal}
use tailsync.Daemon.Serve.{ServeError, serve_entry, serves, serve_stat, check_file_size}
use tailsync.Daemon.Stream.{serve_msg}
use tailsync.Daemon.Apply.Remote.{pulled}
use tailsync.Daemon.Exchange.{pull_delta, read_file_limited}
use tailsync.Daemon.Exchange.PullDelta.{reaching, pull_delta-serve_msg}

-- A directory with one file of these contents, whatever the path.
abbrev holding : List ℕ → Tree
holding bytes = record {
  Fs = Stat;
  stat = λ fs p. fs;
  read_file = λ fs p. some bytes;
  remove = λ fs p. (absent, Removal.removed);
  chtimes = λ fs p t. (fs, true);
  chmod = λ fs p m. (fs, true);
  write_file_root = λ fs p b m. (fs, true);
}

abbrev old_bytes : List ℕ
old_bytes = 5 ∷ []

abbrev new_bytes : List ℕ
new_bytes = 7 ∷ 5 ∷ []

abbrev file_a : Text
file_a = b'a' ∷ []

abbrev entry_a : Entry
entry_a = record {
  path = file_a;
  size = 2;
  mod_time = 5;
  mode = 420;
  hash = b'x' ∷ [];
  deleted = false;
  deleted_at = 0;
  updated_at = 10;
}

abbrev index_a : Index
index_a = record { version = 1; files = (file_a, entry_a) ∷ []; path = [] }

-- A sum of 16 bytes that tells contents of different lengths below 256 apart.
abbrev length_sum : List ℕ → Text
length_sum b = length b ∷ 0 ∷ 0 ∷ 0 ∷ 0 ∷ 0 ∷ 0 ∷ 0 ∷ 0 ∷ 0 ∷ 0 ∷ 0 ∷ 0 ∷ 0 ∷ 0 ∷ 0 ∷ []

abbrev first : Text → ℕ
first [] = 0
first (c ∷ t) = c

old_chunks : (k : ℕ) → (chunk old_bytes 256 k ≡ old_bytes) ⊎ (chunk old_bytes 256 k ≡ [])
old_chunks zero = inl refl
old_chunks (suc k) = inr (ap (take 256) (drop_all (suc k * 256) old_bytes (omega arith)))

new_windows :
    (j : ℕ)
    → (take 256 (drop j new_bytes) ≡ new_bytes)
      ⊎ (take 256 (drop j new_bytes) ≡ old_bytes)
      ⊎ (take 256 (drop j new_bytes) ≡ [])
new_windows zero = inl refl
new_windows (suc zero) = inr (inl refl)
new_windows (suc (suc j)) =
    inr (inr (ap (take 256) (drop_all (suc (suc j)) new_bytes (omega arith))))

no_collision : NoCollision length_sum old_bytes 256 new_bytes
no_collision j k e = elim (old_chunks k) [
  | inl a ↦ elim (new_windows j) [
    | inl w ↦ absurd (omega (arith, sym (ap length a) ∙ (ap first e ∙ ap length w)))
    | inr (inl w) ↦ a ∙ sym w
    | inr (inr w) ↦ absurd (omega (arith, sym (ap length a) ∙ (ap first e ∙ ap length w)))
  ]
  | inr a ↦ elim (new_windows j) [
    | inl w ↦ absurd (omega (arith, sym (ap length a) ∙ (ap first e ∙ ap length w)))
    | inr (inl w) ↦ absurd (omega (arith, sym (ap length a) ∙ (ap first e ∙ ap length w)))
    | inr (inr w) ↦ a ∙ sym w
  ]
]

abbrev old_stat : Stat
old_stat = present (record { size = 1; mod_time = 3; mode = 420 })

abbrev new_stat : Stat
new_stat = present (record { size = 2; mod_time = 5; mode = 420 })

abbrev rendered : ServeError → Text
rendered x = []

abbrev unexpected : MsgType → Text
unexpected t = []

reads_basis :
    read_file_limited (holding old_bytes) length_sum 9 256 old_stat file_a ≡ some old_bytes
unfolding read_file_limited check_file_size
reads_basis = refl

serves_a :
    serve_entry (holding new_bytes) length_sum some 9 false index_a new_stat file_a
    ≡ serves entry_a file_a
unfolding serve_entry serve_stat check_file_size get
serves_a = refl

-- Headers of 200 bytes.
abbrev short_header : Header → ℕ
short_header h = 200

pull_delta-serve_msg_example :
    pull_delta
      (holding old_bytes)
      length_sum
      9
      256
      (reaching short_header (
        serve_msg (holding new_bytes) length_sum some 9 false rendered unexpected index_a new_stat))
      false
      true
      old_stat
      file_a
      entry_a.hash
    ≡ some (pulled new_bytes)
pull_delta-serve_msg_example =
    pull_delta-serve_msg (holding old_bytes) (holding new_bytes) length_sum some 9 9 rendered
      unexpected short_header index_a old_stat new_stat file_a entry_a.hash file_a entry_a old_bytes
      new_bytes 256 reads_basis serves_a refl (omega arith) (omega arith) (omega arith)
      (omega arith) (λ raw. omega arith) (λ raw. omega arith) (λ b. refl) no_collision
