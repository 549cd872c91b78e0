-- ===== src/Daemon/Serve/Answers.antt =====
-- The answers of daemon/serve.go, on every path through it.
use tailsync.Common.{
  ℕ, ◌+◌, ◌*◌, ◌^◌, ◌≤◌, ◌≡◌, ◌≢◌, ◌↔◌, ◌⊎◌, inl, inr, refl, sym, ap, ◌∙◌, Bool, false, Option,
  some, List, [], Text, text_eqb→eq, length, text_key, arith, Bool-cases, Option-cases,
}
use tailsync.Common.Table.{get}
use tailsync.Index.{Entry, Index}
use tailsync.Scan.{FileInfo}
use tailsync.Delta.{Signature, Delta}
use tailsync.Delta.Encode.{encode_bytes}
use tailsync.Delta.Size.{encode_bytes_few}
use tailsync.Delta.Wire.{Decoded, ok, err, WireError, marshal_delta, unmarshal_signature}
use tailsync.Daemon.{Tree, present}
use tailsync.Daemon.Serve.{
  ServeError, Served, serves, refuses, delta_data, serve_stat, serve_entry, check_signature,
  serve_delta, check_file_size,
}

Decoded-cases :
    (r : Decoded Signature) → ((s : Signature) × (r ≡ ok s)) ⊎ ((x : WireError) × (r ≡ err x))
Decoded-cases (ok s) = inl (s, refl)
Decoded-cases (err x) = inr (x, refl)

module _ (tree : Tree) (md5 : List ℕ → Text) (rel_path : Text → Option Text) (max_file_bytes : ℕ)
    (ended : Bool) where
  open tree use {Fs, stat, read_file}

  serve_stat_same :
      (fs : Fs) (p q : Text) (e x : Entry)
      → serve_stat tree md5 rel_path max_file_bytes ended fs p x ≡ serves e q
      → (x ≡ e) × (p ≡ q)
  unfolding serve_stat
  serve_stat_same fs p q e x h = ground (arith, h)

  serve_stat_fresh :
      (fs : Fs) (p q : Text) (e x : Entry) (fi : FileInfo)
      → stat fs p ≡ present fi
      → serve_stat tree md5 rel_path max_file_bytes ended fs p x ≡ serves e q
      → (fi.size ≤ max_file_bytes)
        × (fi.size ≡ x.size)
        × (fi.mod_time ≡ x.mod_time)
        × (ended ≡ false)
  unfolding serve_stat check_file_size
  serve_stat_fresh fs p q e x fi there h = ground (arith, there, h)

  -- An entry is served exactly if the path is accepted, the index has it live, the request has not
  -- ended, and the file on disk is within the limit and has the size and modification time of the
  -- index.
  pub serve_entry_iff :
      (idx : Index) (fs : Fs) (rel p : Text) (e : Entry) (fi : FileInfo)
      → stat fs p ≡ present fi
      → (serve_entry tree md5 rel_path max_file_bytes ended idx fs rel ≡ serves e p) ↔ (
          (rel_path rel ≡ some p)
          × (get p idx.files ≡ some e)
          × (e.deleted ≡ false)
          × (fi.size ≤ max_file_bytes)
          × (fi.size ≡ e.size)
          × (fi.mod_time ≡ e.mod_time)
          × (ended ≡ false))
  unfolding serve_entry serve_stat check_file_size
  serve_entry_iff idx fs rel p e fi there = (
    λ h. elim (Option-cases (rel_path rel)) [
      | inl bad ↦ absurd (ground (arith, bad, h))
      | inr (q, path) ↦ elim (Option-cases (get q idx.files)) [
        | inl bad ↦ absurd (ground (arith, path, bad, h))
        | inr (x, entry) ↦ elim (Bool-cases x.deleted) [
          | inl bad ↦ absurd (ground (arith, path, entry, bad, h))
          | inr live ↦
              let served : serve_stat tree md5 rel_path max_file_bytes ended fs q x ≡ serves e p =
                ground (arith, path, entry, live, h) in
              let (same_entry, same_path) = serve_stat_same fs q p e x served in
              let (small, size, time, going) =
                serve_stat_fresh fs q p e x fi (ap (stat fs) same_path ∙ there) served in
              (
                path ∙ ap some same_path,
                ap (λ (t : Text). get t idx.files) (sym same_path) ∙ entry ∙ ap some same_entry,
                ap (λ (y : Entry). y.deleted) (sym same_entry) ∙ live,
                small,
                size ∙ ap (λ (y : Entry). y.size) same_entry,
                time ∙ ap (λ (y : Entry). y.mod_time) same_entry,
                going,
              )
        ]
      ]
    ],
    λ c. ground (arith, there, c),
  )

  Served-cases :
      (r : Served)
      → ((e : Entry) × (p : Text) × (r ≡ serves e p)) ⊎ ((x : ServeError) × (r ≡ refuses x))
  Served-cases (serves e p) = inl (e, p, refl)
  Served-cases (refuses x) = inr (x, refl)

  Checked-cases :
      (r : Option Signature ⊎ ServeError)
      → ((o : Option Signature) × (r ≡ inl o)) ⊎ ((x : ServeError) × (r ≡ inr x))
  Checked-cases (inl o) = inl (o, refl)
  Checked-cases (inr x) = inr (x, refl)

  check_signature-some :
      (block_size : ℕ) (sig_raw : List ℕ) (o : Option Signature)
      → sig_raw ≢ []
      → check_signature tree md5 rel_path max_file_bytes ended block_size sig_raw ≡ inl o
      → (sig : Signature) × (o ≡ some sig)
        × (unmarshal_signature sig_raw ≡ ok sig)
        × (256 ≤ sig.block_size)
        × (sig.block_size ≤ 2 ^ 20)
  unfolding check_signature
  check_signature-some block_size sig_raw o sent h =
      elim (Decoded-cases (unmarshal_signature sig_raw)) [
        | inr (x, bad) ↦ absurd (ground (arith, bad, h, text_eqb→eq sig_raw [], sent))
        | inl (sig, fine) ↦ (
          sig,
          ground (arith, fine, h, text_eqb→eq sig_raw [], sent),
          fine,
          ground (arith, fine, h, text_eqb→eq sig_raw [], sent),
          ground (arith, fine, h, text_eqb→eq sig_raw [], sent),
        )
      ]

  -- A delta request that carries a signature, whatever that is, is answered with a delta only if the
  -- signature can be read and its block size is between 256 bytes and 1 MiB; the delta is then the one
  -- of the file as read against that signature, with about two operations for each block of the file
  -- at most.
  pub serve_delta-bounded :
      (idx : Index) (fs : Fs) (rel p : Text) (block_size : ℕ) (sig_raw raw : List ℕ) (e : Entry)
      → sig_raw ≢ []
      → serve_delta tree md5 rel_path max_file_bytes ended idx fs rel block_size sig_raw
        ≡ delta_data p e raw
      → (sig : Signature) × (d : Delta) × (bytes : List ℕ) × (unmarshal_signature sig_raw ≡ ok sig)
        × (256 ≤ sig.block_size)
        × (sig.block_size ≤ 2 ^ 20)
        × (read_file fs p ≡ some bytes)
        × (encode_bytes md5 bytes (some sig) ≡ some d)
        × (raw ≡ marshal_delta d)
        × (length d.ops * sig.block_size ≤ 2 * length bytes + 3 * sig.block_size)
  unfolding serve_delta
  serve_delta-bounded idx fs rel p block_size sig_raw raw e sent h =
      elim (Served-cases (serve_entry tree md5 rel_path max_file_bytes ended idx fs rel)) [
        | inr (x, bad) ↦ absurd (ground (arith, bad, h))
        | inl (e', p', entry) ↦ elim (Option-cases (read_file fs p')) [
          | inl bad ↦ absurd (ground (arith, entry, bad, h))
          | inr (bytes, found) ↦
              elim (Checked-cases
                (check_signature tree md5 rel_path max_file_bytes ended block_size sig_raw)) [
                  | inr (x, bad) ↦ absurd (ground (arith, entry, found, bad, h))
                  | inl (o, checked) ↦
                      let (sig, same, decoded, low, high) =
                        check_signature-some block_size sig_raw o sent checked in
                      elim (Option-cases (encode_bytes md5 bytes o)) [
                        | inl bad ↦ absurd (ground (arith, entry, found, checked, bad, h))
                        | inr (d, encoded) ↦
                            let encoded' : encode_bytes md5 bytes (some sig) ≡ some d =
                              ap (encode_bytes md5 bytes) (sym same) ∙ encoded in
                            let path : p' ≡ p = ground (arith, entry, found, checked, encoded, h) in
                            (
                              sig,
                              d,
                              bytes,
                              decoded,
                              low,
                              high,
                              ap (read_file fs) (sym path) ∙ found,
                              encoded',
                              ground (arith, entry, found, checked, encoded, h),
                              encode_bytes_few md5 bytes sig d (omega (arith, low)) encoded',
                            )
                      ]
                ]
        ]
      ]
