-- ===== src/AtomicFile/Runs.antt =====
-- A file system that keeps what it promises, and a write to it.
use tailsync.Common.{
  ℕ, ◌≡◌, ◌≢◌, ◌⊎◌, ◌∙◌, ap, refl, inl, inr, Bool, true, false, none, some, List, [], ◌∷◌, Text,
  arith, text_eqb, text_eqb_refl, text_key, Option-cases, eqb-eq_false,
}
use tailsync.Common.Table.{Table, get, put, del, get-put, get-del}
use tailsync.AtomicFile.{FileOps, Opened, opened, already_exists, Paths, write_file_root}
use tailsync.AtomicFile.Atomic.{Lawful, AllOrNothing, write_file_root-AllOrNothing}

abbrev Files : Type 0
Files = Table Text (List ℕ)

abbrev try_open : Files → Text → Files × Opened
try_open fs t = elim (get t fs) [ none ↦ (put t [] fs, opened) | some b ↦ (fs, already_exists) ]

abbrev try_rename : Files → Text → Text → Files × Bool
try_rename fs t n = elim (get t fs) [ none ↦ (fs, false) | some b ↦ (put n b (del t fs), true) ]

abbrev in_memory : FileOps
in_memory = record {
  Fs = Files;
  content = λ fs t. get t fs;
  mkdir_all = λ fs d. (fs, true);
  open_excl = try_open;
  write = λ fs t b. (put t b fs, true);
  chmod = λ fs t m. (fs, true);
  sync = λ fs t. (fs, true);
  close = λ fs t. (fs, true);
  rename = try_rename;
  remove = λ fs t. (del t fs, true);
}

differs : (t q : Text) → t ≢ q → text_eqb t q ≡ false
differs t q = eqb-eq_false text_key t q

put_aside : (t q : Text) (b : List ℕ) (fs : Files) → t ≢ q → get q (put t b fs) ≡ get q fs
put_aside t q b fs aside = get-put t q b fs ∙ rw (differs t q aside) refl

del_aside : (t q : Text) (fs : Files) → t ≢ q → get q (del t fs) ≡ get q fs
del_aside t q fs aside = get-del t q fs ∙ rw (differs t q aside) refl

open_aside : (fs : Files) (t q : Text) → t ≢ q → get q (try_open fs t).0 ≡ get q fs
open_aside fs t q aside = elim (Option-cases (get t fs)) [
  | inl absent ↦ rw (absent, try_open) (put_aside t q [] fs aside)
  | inr (b, there) ↦ rw (there, try_open) refl
]

rename_moves :
    (fs : Files) (t n : Text)
    → (try_rename fs t n).1 ≡ true
    → get n (try_rename fs t n).0 ≡ get t fs
rename_moves fs t n ok = elim (Option-cases (get t fs)) [
  | inl absent ↦ absurd (ground (arith, ok, absent))
  | inr (b, there) ↦ rw (there, try_rename) (get-put n n b (del t fs) ∙ rw (text_eqb_refl n) refl)
]

rename_aside :
    (fs : Files) (t n q : Text)
    → t ≢ q
    → ((try_rename fs t n).1 ≡ false) ⊎ (n ≢ q)
    → get q (try_rename fs t n).0 ≡ get q fs
rename_aside fs t n q aside why = elim (Option-cases (get t fs)) [
  | inl absent ↦ rw (absent, try_rename) refl
  | inr (b, there) ↦ elim why [
    | inl bad ↦ absurd (ground (arith, bad, there))
    | inr other ↦ rw (there, try_rename) (put_aside n q b (del t fs) other ∙ del_aside t q fs aside)
  ]
]

in_memory-Lawful : Lawful in_memory
in_memory-Lawful = record {
  mkdir_keeps = λ fs p q. refl;
  open_keeps = open_aside;
  write_keeps = λ fs t q b aside. put_aside t q b fs aside;
  writes = λ fs t b ok. get-put t t b fs ∙ rw (text_eqb_refl t) refl;
  chmod_keeps = λ fs t q m. refl;
  sync_keeps = λ fs t q. refl;
  close_keeps = λ fs t q. refl;
  remove_keeps = λ fs t q aside. del_aside t q fs aside;
  renames = rename_moves;
  rename_keeps = rename_aside;
}

abbrev flat : Paths
flat = record {
  clean = λ p. p;
  is_abs = λ p. false;
  valid_path = λ p. true;
  is_local = λ p. true;
  dir = λ p. b'.' ∷ [];
  join = λ d p. p;
}

abbrev file_a : Text
file_a = b'a' ∷ []

abbrev temp : Text
temp = b't' ∷ []

abbrev old_files : Files
old_files = (file_a, 1 ∷ []) ∷ []

abbrev first_byte : Text → ℕ
first_byte [] = 0
first_byte (c ∷ t) = c

temp-ne-file_a : temp ≢ file_a
temp-ne-file_a e = omega (arith, ap first_byte e)

write_file_root-AllOrNothing_example :
    AllOrNothing in_memory in_memory-Lawful file_a
      (2 ∷ [])
      file_a
      (some (1 ∷ []))
      (write_file_root in_memory flat (λ d. temp ∷ []) old_files file_a (2 ∷ []) 0)
unfolding get
write_file_root-AllOrNothing_example =
    write_file_root-AllOrNothing in_memory in_memory-Lawful flat (λ d. temp ∷ []) old_files file_a
      file_a (2 ∷ []) 0 (temp-ne-file_a, tt)
