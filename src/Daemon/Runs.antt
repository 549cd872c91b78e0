-- ===== src/Daemon/Runs.antt =====
-- Runs of the daemon's decisions on small inputs, and its theorems at concrete inputs.
use tailsync.Common.{
  All, ℕ, ◌+◌, ◌*◌, ◌^◌, ◌≤◌, ◌≡◌, ◌≢◌, ◌↔◌, ◌⊎◌, inl, inr, refl, ap, true, false, Text, none, some,
  List, [], ◌∷◌, length, arith, text_key,
}
use tailsync.Common.Table.{get}
use tailsync.Index.{set_if_wins, Entry, Index, wins}
use tailsync.Index.Disk.{FileIo, ReadResult, missing}
use tailsync.Scan.{FileInfo}
use tailsync.Delta.{Signature, Delta}
use tailsync.Delta.Encode.{encode_bytes, encode_with, encode_loop, finish, flush_lit}
use tailsync.Delta.Wire.{ok, marshal_delta, unmarshal_signature, unmarshal_blocks, get_le}
use tailsync.Daemon.{Tree, Stat, present, absent, Removal, Outcome, finished}
use tailsync.Daemon.Decide.{decide_apply, noop, decide_apply-ne-noop, second}
use tailsync.Daemon.Apply.{
  State, commit_content, set_times, file_mode, disk_unsynced, write_content,
}
use tailsync.Daemon.Apply.Remote.{
  pulled, pull_and_verify, pull_content, commit_pulled, decide_locked,
}
use tailsync.Daemon.Apply.Safe.{fs_after, decide_locked-Drifted}
use tailsync.Daemon.Apply.Verified.{commit_pulled-pull_and_verify}
use tailsync.Daemon.MeshTrust.{
  MeshIdentity, MeshGate, gate, new_mesh_gate, allows, Ordinary, Related, allows-new_mesh_gate,
  check_self_mesh_tag_config, tagged, contains, is_mullvad_identity, is_mullvad_dns_name,
  trim_suffix, has_suffix,
}
use tailsync.Daemon.Serve.{
  serve_entry, serve_delta, delta_data, serve_stat, check_signature, validate_block_size,
  check_file_size,
}
use tailsync.Daemon.Serve.Answers.{serve_delta-bounded}
use tailsync.Daemon.Notify.{
  NotifyTracker, content_key_from, content_key, claim, claim_loop, free_locked, gc_locked, offers,
  on_notify, already_have_all,
}
use tailsync.Daemon.Notify.Once.{
  Event, claims, releases, run_events, Spares, claim-claim, on_notify-set_if_wins,
}

abbrev file_a : Text
file_a = b'a' ∷ []

abbrev file_b : Text
file_b = b'b' ∷ []

abbrev first_byte : Text → ℕ
first_byte [] = 0
first_byte (c ∷ t) = c

abbrev known : Entry
known = record {
  path = file_a;
  size = 0;
  mod_time = 5;
  mode = 420;
  hash = b'x' ∷ [];
  deleted = false;
  deleted_at = 0;
  updated_at = 10;
}

abbrev newer : Entry
newer = record known { hash = b'y' ∷ []; updated_at = 20 }

abbrev older : Entry
older = record known { hash = b'y' ∷ []; updated_at = 3 }

older_loses : wins known older ≡ false
unfolding wins
older_loses = refl

newer-wins : wins known newer ≡ true
unfolding wins
newer-wins = refl

decide_apply-ne-noop_example :
    ((decide_apply known true newer true).kind ≢ noop)
    ⊎ ((known.deleted ≡ false)
        × (newer.deleted ≡ false)
        × (known.hash ≡ newer.hash)
        × (known.mode ≡ newer.mode)
        × (known.updated_at ≡ newer.updated_at)
        × (second known.mod_time ≡ second newer.mod_time))
decide_apply-ne-noop_example = decide_apply-ne-noop known newer true newer-wins

-- A directory with one file, whatever the path, that is written without a failure.
abbrev one_file : Tree
one_file = record {
  Fs = Stat;
  stat = λ fs p. fs;
  read_file = λ fs p. some [];
  remove = λ fs p. (absent, Removal.removed);
  chtimes = λ fs p t. (fs, true);
  chmod = λ fs p m. (fs, true);
  write_file_root = λ fs p bytes mode.
      (present (record { size = length bytes; mod_time = 7; mode = mode }), true);
}

abbrev no_disk : FileIo
no_disk = record {
  Disk = ReadResult;
  read_file = λ d p. d;
  write_file = λ d p b m. none;
  marshal = λ df. none;
  unmarshal = λ b. none;
}

abbrev drifted_info : FileInfo
drifted_info = record { size = 4; mod_time = 6; mode = 420 }

abbrev known_info : FileInfo
known_info = record { size = 0; mod_time = 5; mode = 420 }

abbrev known_index : Index
known_index = record { version = 1; files = (file_a, known) ∷ []; path = [] }

abbrev known_state : FileInfo → State one_file no_disk
known_state fi = record {
  idx = known_index;
  fs = present fi;
  disk = missing;
  applies_since_save = 0;
}

found_a : get file_a known_index.files ≡ some known
unfolding get
found_a = refl

decide_locked-Drifted_example :
    (fs_after one_file no_disk
        (known_state drifted_info)
        (decide_locked one_file no_disk (known_state drifted_info) newer)
      ≡ present drifted_info)
    × (commit_content one_file no_disk 30 (known_state drifted_info) newer [] []
        ≡ (known_state drifted_info, finished false))
unfolding get
decide_locked-Drifted_example =
    decide_locked-Drifted one_file no_disk (known_state drifted_info) newer drifted_info refl
      (inr (inl (λ e. omega (arith, e)))) 30 [] []

-- A sum that every content shares.
abbrev one_sum : List ℕ → Text
one_sum b = b'y' ∷ []

verified :
    pull_and_verify one_sum (pulled (1 ∷ [])) (pulled []) (pulled []) (b'y' ∷ []) true
    ≡ pulled (1 ∷ [])
unfolding pull_and_verify pull_content
verified = refl

abbrev committed : State one_file no_disk × Outcome
committed =
    commit_pulled one_file no_disk one_sum 9 false 30 (known_state known_info) newer
      (pull_and_verify one_sum (pulled (1 ∷ [])) (pulled []) (pulled []) newer.hash true)

commits : committed.1 ≡ finished true
unfolding commit_pulled pull_and_verify pull_content commit_content disk_unsynced write_content get
    wins
commits = refl

commit_pulled-pull_and_verify_example :
    (bytes : List ℕ) × (e : Entry) × (one_sum bytes ≡ newer.hash)
    × (length bytes ≤ 9)
    × ((one_file.write_file_root (present known_info) file_a bytes (file_mode 420)).1 ≡ true)
    × (committed.0.fs
        ≡ (set_times one_file no_disk
            (one_file.write_file_root (present known_info) file_a bytes (file_mode 420)).0
            file_a
            newer.mod_time).0)
    × (get file_a committed.0.idx.files ≡ some e)
    × (e.hash ≡ newer.hash)
    × (e.size ≡ length bytes)
    × (e.deleted ≡ newer.deleted)
    × (e.updated_at ≡ newer.updated_at)
    × (get file_b committed.0.idx.files ≡ get file_b known_index.files)
commit_pulled-pull_and_verify_example =
    commit_pulled-pull_and_verify one_file no_disk one_sum 9 false true 30 (known_state known_info)
      newer (pulled (1 ∷ [])) (pulled []) (pulled []) file_b (λ e. omega arith)
      (λ e. omega (arith, ap first_byte e)) commits

abbrev plain_md5 : List ℕ → Text
plain_md5 b = b

-- The signature of an empty file with blocks of 256 bytes.
abbrev bare_signature : Signature
bare_signature = record { block_size = 256; blocks = [] }

abbrev served_raw : List ℕ
served_raw = marshal_delta (record { block_size = 256; ops = []; output_size = 0 })

-- The bytes of that signature on the wire.
abbrev wire_signature : List ℕ
wire_signature = b'T' ∷ b'S' ∷ b'S' ∷ b'1' ∷ 0 ∷ 1 ∷ 0 ∷ 0 ∷ 0 ∷ 0 ∷ 0 ∷ 0 ∷ []

reads_signature : unmarshal_signature wire_signature ≡ ok bare_signature
unfolding unmarshal_signature get_le unmarshal_blocks
reads_signature = refl

sends_delta :
    serve_delta one_file plain_md5 some 9 false known_index
      (present known_info)
      file_a
      256
      wire_signature
    ≡ delta_data file_a known served_raw
unfolding serve_delta serve_entry serve_stat check_file_size check_signature validate_block_size get
    encode_bytes encode_with encode_loop finish flush_lit unmarshal_signature get_le
    unmarshal_blocks
sends_delta = refl

serve_delta-bounded_example :
    (sig : Signature) × (d : Delta) × (bytes : List ℕ) × (unmarshal_signature wire_signature
      ≡ ok sig)
    × (256 ≤ sig.block_size)
    × (sig.block_size ≤ 2 ^ 20)
    × (one_file.read_file (present known_info) file_a ≡ some bytes)
    × (encode_bytes plain_md5 bytes (some sig) ≡ some d)
    × (served_raw ≡ marshal_delta d)
    × (length d.ops * sig.block_size ≤ 2 * length bytes + 3 * sig.block_size)
serve_delta-bounded_example =
    serve_delta-bounded one_file plain_md5 some 9 false known_index (present known_info) file_a
      file_a 256 wire_signature served_raw known (λ e. omega (arith, ap first_byte e)) sends_delta

abbrev owned : MeshIdentity
owned = record { user = 4; sharee = false; tags = []; dns = file_a }

abbrev owned_gate : MeshGate
owned_gate = record { require_tag = []; user = 4 }

abbrev same_case : Text → Text
same_case t = t

owned_builds : new_mesh_gate owned [] ≡ gate owned_gate
unfolding new_mesh_gate check_self_mesh_tag_config tagged
owned_builds = refl

owned-Ordinary : Ordinary same_case owned
unfolding is_mullvad_identity is_mullvad_dns_name contains trim_suffix has_suffix
owned-Ordinary = (refl, refl)

allows-new_mesh_gate_example :
    (allows same_case owned_gate owned ≡ true)
    ↔ (Ordinary same_case owned × Related same_case owned [] owned)
allows-new_mesh_gate_example = allows-new_mesh_gate same_case owned owned [] owned_gate owned_builds

abbrev fresh_tracker : NotifyTracker
fresh_tracker = record { seen = []; inflight = [] }

hands_out : offers (content_key_from known) (claim 5 (known ∷ []) fresh_tracker).1 ≡ true
unfolding claim claim_loop free_locked gc_locked content_key_from get
hands_out = refl

-- Another version is claimed and released in between.
abbrev meanwhile : List Event
meanwhile = claims 6 (newer ∷ known ∷ []) ∷ releases (newer ∷ []) ∷ []

meanwhile-Spares : All (Spares (content_key_from known)) meanwhile
unfolding content_key_from
meanwhile-Spares = (tt, (refl, tt))

claim-claim_example :
    offers
      (content_key_from known)
      (claim 9 (newer ∷ known ∷ []) (run_events meanwhile (claim 5 (known ∷ []) fresh_tracker).0)).1
    ≡ false
claim-claim_example =
    claim-claim 5 9 (content_key_from known) (known ∷ []) (newer ∷ known ∷ []) meanwhile
      fresh_tracker hands_out meanwhile-Spares

ignores : (on_notify 5 known_index (older ∷ known ∷ []) fresh_tracker).1 ≡ false
unfolding on_notify already_have_all get wins
ignores = refl

on_notify-set_if_wins_example :
    All (λ h. set_if_wins known_index h ≡ (known_index, false)) (older ∷ known ∷ [])
on_notify-set_if_wins_example =
    on_notify-set_if_wins 5 known_index (older ∷ known ∷ []) fresh_tracker ignores
