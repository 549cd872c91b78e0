-- ===== src/Scan/Walk.antt =====
-- What the walk collects: a map of live entries, each under its own path.
use mathlib.Core.Path.{subst}
use tailsync.Common.{
  ◌≡◌, refl, Bool, false, ◌||◌, not, Option, some, Text, arith, All, text_key, Bool-cases,
  Option-cases, inl, inr,
}
use tailsync.Common.Table.{Table, put, Distinct, put-Distinct, put-All}
use tailsync.PathUtil.{is_reserved_component}
use tailsync.Index.{Entry, Time}
use tailsync.Scan.{
  FileInfo, Forest, done, file, dir, broken, walk, visit_file, hash_of, join_path, disk_entry,
}

-- A live entry under its own path.
abbrev pub Present : Text × Entry → Type 0
Present kv = (kv.1.path ≡ kv.0) × (kv.1.deleted ≡ false)

abbrev pub IsDisk : Table Text Entry → Type 0
IsDisk d = Distinct d × All Present d

module _ (force : Bool) (hash : Text → Option Text) (files : Table Text Entry) (now : Time) where
  visit_file-IsDisk :
      (rel name : Text) (regular : Bool) (info : Option FileInfo) (disk disk' : Table Text Entry)
      → IsDisk disk
      → visit_file force hash files now rel name regular info disk ≡ some disk'
      → IsDisk disk'
  unfolding visit_file
  visit_file-IsDisk rel name regular info disk disk' h e =
      elim (Bool-cases (not regular || is_reserved_component name)) [
        | inl skip ↦ let same : disk ≡ disk' = ground (arith, skip) in subst IsDisk same h
        | inr take ↦ elim (Option-cases info) [
          | inl bad ↦ absurd (ground (arith, take, bad))
          | inr (fi, stat) ↦ elim (Option-cases (hash_of force hash files now rel fi)) [
            | inl bad ↦ absurd (ground (arith, take, stat, bad))
            | inr (s, hashed) ↦
                let new : Entry = disk_entry force hash files now rel fi s in
                let same : put rel new disk ≡ disk' = ground (arith, take, stat, hashed) in
                subst IsDisk same
                  (put-Distinct rel new disk h.0, put-All Present rel new disk (refl, refl) h.1)
          ]
        ]
      ]

  pub walk-IsDisk :
      (prefix : Text) (forest : Forest) (disk disk' : Table Text Entry)
      → IsDisk disk
      → walk force hash files now prefix forest disk ≡ some disk'
      → IsDisk disk'
  unfolding walk
  walk-IsDisk prefix done disk disk' h e =
      let same : disk ≡ disk' = ground arith in subst IsDisk same h
  walk-IsDisk prefix (broken name rest) disk disk' h e = absurd (ground arith)
  walk-IsDisk prefix (file name regular info rest) disk disk' h e =
      elim (Option-cases
        (visit_file force hash files now (join_path prefix name) name regular info disk)) [
          | inl bad ↦ absurd (ground (arith, bad))
          | inr (d, visited) ↦
              walk-IsDisk prefix rest d disk'
                (visit_file-IsDisk (join_path prefix name) name regular info disk d h visited)
                (ground (arith, visited))
        ]
  walk-IsDisk prefix (dir name children rest) disk disk' h e =
      elim (Bool-cases (is_reserved_component name)) [
        | inl skip ↦ walk-IsDisk prefix rest disk disk' h (ground (arith, skip))
        | inr enter ↦
            elim (Option-cases (walk force hash files now (join_path prefix name) children disk)) [
              | inl bad ↦ absurd (ground (arith, enter, bad))
              | inr (d, walked) ↦
                  walk-IsDisk prefix rest d disk'
                    (walk-IsDisk (join_path prefix name) children disk d h walked)
                    (ground (arith, enter, walked))
            ]
      ]
