-- ===== src/Daemon/Serve.antt =====
-- daemon/serve.go: the answers to requests for a file and for a delta. `relPath`, the context and the
-- MD5 sum are parameters; a block size below zero in a request counts as none, as in the code.
pub mod Answers
use tailsync.Common.{
  ℕ, ◌+◌, ◌*◌, ◌^◌, ◌≤◌, ◌<◌, ◌≡◌, ◌≢◌, ◌↔◌, ◌⊎◌, inl, inr, refl, sym, ap, ◌∙◌, Bool, true, false,
  ◌&&◌, ◌||◌, not, Option, none, some, List, [], Text, ltb, nat_eqb, text_eqb, text_eqb→eq,
  if◌then◌else◌, length, text_key, arith, Bool-cases, Option-cases,
}
use tailsync.Common.Table.{get}
use tailsync.Index.{Entry, Index}
use tailsync.Scan.{FileInfo}
use tailsync.Delta.{Signature, Delta}
use tailsync.Delta.Encode.{encode_bytes}
use tailsync.Delta.Size.{encode_bytes_few}
use tailsync.Delta.Wire.{Decoded, ok, err, WireError, marshal_delta, unmarshal_signature}
use tailsync.Daemon.{Tree, Stat, present, absent, stat_error}

pub data ServeError : Type 0 where
  bad_path not_found stat_failed too_large drifted cancelled read_failed bad_signature
        block_size_mismatch block_size_range encode_failed :
      ServeError

-- What `serveEntry` returns.
pub data Served : Type 0 where
  serves : Entry → Text → Served
  refuses : ServeError → Served

-- The answer on the stream, with the payload of a data message.
pub data Reply : Type 0 where
  file_data : Text → Entry → List ℕ → Reply
  delta_data : Text → Entry → List ℕ → Reply
  error_reply : ServeError → Reply

-- Whether `checkFileSize` lets a size pass.
unfoldable pub check_file_size : ℕ → ℕ → Bool
check_file_size max_file_bytes size = not (ltb max_file_bytes size)

abbrev pub min_delta_block_size : ℕ
min_delta_block_size = 256

abbrev pub max_delta_block_size : ℕ
max_delta_block_size = 2 ^ 20

-- Whether `validateBlockSize` lets a block size pass.
unfoldable pub validate_block_size : ℕ → Bool
validate_block_size bs = not (ltb bs min_delta_block_size || ltb max_delta_block_size bs)

module _ (tree : Tree) (md5 : List ℕ → Text) (rel_path : Text → Option Text) (max_file_bytes : ℕ)
    (ended : Bool) where
  open tree use {Fs, stat, read_file}

  unfoldable pub serve_stat : Fs → Text → Entry → Served
  unfolding check_file_size
  serve_stat fs p e = elim (stat fs p) [
    | absent ↦ refuses stat_failed
    | stat_error ↦ refuses stat_failed
    | present fi ↦
        if not (check_file_size max_file_bytes fi.size)
        then refuses too_large
        else (if not (nat_eqb fi.size e.size) || not (nat_eqb fi.mod_time e.mod_time)
            then refuses drifted
            else (if ended then refuses cancelled else serves e p))
  ]

  unfoldable pub serve_entry : Index → Fs → Text → Served
  serve_entry idx fs rel = elim (rel_path rel) [
    | none ↦ refuses bad_path
    | some p ↦ elim (get p idx.files) [
      | none ↦ refuses not_found
      | some e ↦ if e.deleted then refuses not_found else serve_stat fs p e
    ]
  ]

  unfoldable pub serve_file : Index → Fs → Text → Reply
  serve_file idx fs rel = elim (serve_entry idx fs rel) [
    | refuses x ↦ error_reply x
    | serves e p ↦ elim (read_file fs p) [
      | none ↦ error_reply read_failed
      | some bytes ↦ file_data p e bytes
    ]
  ]

  -- The signature of a request once it is decoded and checked, or the error.
  unfoldable pub check_signature : ℕ → List ℕ → Option Signature ⊎ ServeError
  unfolding validate_block_size
  check_signature block_size sig_raw =
      if text_eqb sig_raw []
      then (if ltb 0 block_size && not (validate_block_size block_size)
          then inr block_size_range
          else inl none)
      else elim (unmarshal_signature sig_raw) [
        | err x ↦ inr bad_signature
        | ok sig ↦
            if ltb 0 block_size && (ltb 0 sig.block_size && not (nat_eqb block_size sig.block_size))
            then inr block_size_mismatch
            else (if not (validate_block_size sig.block_size)
                then inr block_size_range
                else inl (some sig))
      ]

  unfoldable pub serve_delta : Index → Fs → Text → ℕ → List ℕ → Reply
  serve_delta idx fs rel block_size sig_raw = elim (serve_entry idx fs rel) [
    | refuses x ↦ error_reply x
    | serves e p ↦ elim (read_file fs p) [
      | none ↦ error_reply read_failed
      | some bytes ↦ elim (check_signature block_size sig_raw) [
        | inr x ↦ error_reply x
        | inl sig ↦ elim (encode_bytes md5 bytes sig) [
          | none ↦ error_reply encode_failed
          | some d ↦ delta_data p e (marshal_delta d)
        ]
      ]
    ]
  ]
