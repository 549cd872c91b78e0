-- ===== src/Index/Disk.antt =====
-- `Load` and `Save` of internal/index/index.go. `FileIo` is what they use: reading a file, the JSON
-- codec, and `atomicfile.WriteFile`, with which `atomic_io` fills the interface.
use tailsync.Common.{
  ℕ, Bool, true, false, ◌≡◌, ◌≢◌, refl, ap, ◌∙◌, inl, inr, Text, arith, Option-cases, Option, none,
  some, List, [], ◌∷◌, ◌++◌, All, if◌then◌else◌, text_key, text_eqb→eq, text_eqb, nat_eqb,
}
use tailsync.Common.Table.{Table}
use tailsync.AtomicFile as AtomicFile
use tailsync.AtomicFile.{FileOps, Paths}
use tailsync.Index.{Entry, Index, new, index_version}

-- The JSON shape of the file.
pub record DiskFormat : Type 0 where
  pub version : ℕ
  pub files : Table Text Entry

-- What `os.ReadFile` finds.
pub data ReadResult : Type 0 where
  content : List ℕ → ReadResult
  missing : ReadResult
  unreadable : ReadResult

pub record FileIo : Type 1 where
  pub Disk : Type 0
  pub read_file : Disk → Text → ReadResult
  pub write_file : Disk → Text → List ℕ → ℕ → Option Disk
  pub marshal : DiskFormat → Option (List ℕ)
  pub unmarshal : List ℕ → Option DiskFormat

-- 0o644
abbrev pub index_mode : ℕ
index_mode = 420

-- `WriteFile` of internal/atomicfile as the write of an index; what it leaves behind when it fails is
-- left out.
abbrev whole : {D : Type 0} → D × Bool → Option D
whole (d, true) = some d
whole (d, false) = none

abbrev pub atomic_io :
    (ops : FileOps)
    → Paths
    → (Text → List Text)
    → (ops.Fs → Text → ReadResult)
    → (DiskFormat → Option (List ℕ))
    → (List ℕ → Option DiskFormat)
    → FileIo
atomic_io ops paths names read encode decode = record {
  Disk = ops.Fs;
  read_file = read;
  write_file = λ d p b mode. whole (AtomicFile.write_file ops paths names d p b mode);
  marshal = encode;
  unmarshal = decode;
}

pub data LoadResult : Type 0 where
  loaded : Index → LoadResult
  read_error : LoadResult
  decode_error : LoadResult

pub data SaveResult (D : Type 0) : Type 0 where
  saved : D → SaveResult D
  no_path : SaveResult D
  encode_error : SaveResult D
  write_error : SaveResult D

-- The loop that fills an empty `Path` from the key.
unfoldable pub fill_paths : Table Text Entry → Table Text Entry
fill_paths [] = []
fill_paths ((p, e) ∷ m) =
    (p, if text_eqb e.path [] then record e { path = p } else e) ∷ fill_paths m

module _ (io : FileIo) where
  open io use {Disk, read_file, write_file, marshal, unmarshal}

  unfoldable pub load : Disk → Text → LoadResult
  unfolding fill_paths new
  load d p = elim (read_file d p) [
    | missing ↦ loaded (record new { path = p })
    | unreadable ↦ read_error
    | content b ↦ elim (unmarshal b) [
      | none ↦ decode_error
      | some df ↦ loaded (record {
        version = if nat_eqb df.version 0 then index_version else df.version;
        files = fill_paths df.files;
        path = p;
      })
    ]
  ]

  unfoldable pub write_index_file : Disk → Text → ℕ → Table Text Entry → SaveResult Disk
  write_index_file d p version files =
      elim (marshal (record { version = version; files = files })) [
        | none ↦ encode_error
        | some b ↦ elim (write_file d p (b ++ (b'\n' ∷ [])) index_mode) [
          | none ↦ write_error
          | some d' ↦ saved d'
        ]
      ]

  unfoldable pub save : Disk → Index → SaveResult Disk
  unfolding write_index_file
  save d idx =
      if text_eqb idx.path [] then no_path else write_index_file d idx.path idx.version idx.files

fill_paths_keyed : (m : Table Text Entry) → All (λ kv. kv.1.path ≡ kv.0) m → fill_paths m ≡ m
unfolding fill_paths
fill_paths_keyed [] h = refl
fill_paths_keyed ((p, e) ∷ m) h = ground (arith, text_eqb→eq e.path [], fill_paths_keyed m h.1, h.0)

-- An index that was saved is loaded back whole: where every entry stands under its own path and the
-- version is set, a successful `Save` followed by `Load` of the same path gives the same index. It
-- relies on a written file being read back, and on the JSON codec reading back what it wrote for this
-- index, with the newline behind it.
pub load-save :
    (io : FileIo) (idx : Index) (d d' : io.Disk)
    → ((b : List ℕ)
        → io.write_file d idx.path b index_mode ≡ some d'
        → io.read_file d' idx.path ≡ content b)
    → ((b : List ℕ)
        → io.marshal (record { version = idx.version; files = idx.files }) ≡ some b
        → io.unmarshal (b ++ (b'\n' ∷ []))
          ≡ some (record { version = idx.version; files = idx.files }))
    → All (λ kv. kv.1.path ≡ kv.0) idx.files
    → idx.version ≢ 0
    → save io d idx ≡ saved d'
    → load io d' idx.path ≡ loaded idx
unfolding save load
load-save io idx d d' reads parses own v h =
    elim (Option-cases (io.marshal (record { version = idx.version; files = idx.files }))) [
      | inl bad ↦ ground (arith, bad)
      | inr (b, done) ↦
          elim (Option-cases (io.write_file d idx.path (b ++ (b'\n' ∷ [])) index_mode)) [
            | inl bad ↦ ground (arith, bad, done)
            | inr (d'', wrote) ↦
                let same : d'' ≡ d' = ground (arith, done, wrote) in
                ground (
                  arith,
                  done,
                  wrote,
                  reads (b ++ (b'\n' ∷ [])) (wrote ∙ ap some same),
                  parses b done,
                  fill_paths_keyed idx.files own,
                )
          ]
    ]
