-- ===== src/Index/Gc.antt =====
-- `GCTombstones`: which entries go, and how many.
use mathlib.Core.Path.{subst}
use tailsync.Common.{
  ℕ, ◌↔◌, nat_eqb, ◌+◌, ◌-◌, ◌<◌, ◌≤◌, ◌≡◌, ◌≢◌, refl, ap, ◌⊎◌, inl, inr, false, Text, arith,
  Bool-cases, Option, none, some, [], ◌∷◌, if◌then◌else◌, text_key, text_eqb→eq, text_eqb, length,
}
use tailsync.Common.Table.{Table, get, Distinct}
use tailsync.Index.{Entry, Index, Time, expired, gc_files, gc_tombstones, get_entry, len}
use tailsync.Index.Methods.{get-gc_files-none}

abbrev pub keep : Time → Option Entry → Option Entry
keep cutoff none = none
keep cutoff (some e) = if expired cutoff e then none else some e

pub get-gc_files :
    (cutoff : Time) (p : Text) (m : Table Text Entry)
    → Distinct m
    → get p (gc_files cutoff m).0 ≡ keep cutoff (get p m)
unfolding gc_files get
get-gc_files cutoff p [] d = refl
get-gc_files cutoff p ((k, e) ∷ m) d = elim (Bool-cases (text_eqb k p)) [
  | inl here ↦ ground (
    arith,
    get-gc_files-none cutoff k m d.0,
    ap (λ q. get q (gc_files cutoff m).0) (text_eqb→eq k p here),
  )
  | inr there ↦ ground (arith, get-gc_files cutoff p m d.1)
]

length-gc_files :
    (cutoff : Time) (m : Table Text Entry)
    → length (gc_files cutoff m).0 + (gc_files cutoff m).1 ≡ length m
unfolding gc_files
length-gc_files cutoff [] = refl
length-gc_files cutoff ((k, e) ∷ m) = ground (arith, length-gc_files cutoff m)

-- An entry that a collection at `now` has to leave: a live one, a tombstone without a time, and one
-- whose time, that of the deletion or else of the last update, is at most `ttl` ago.
abbrev pub Stays : Time → ℕ → Entry → Type 0
Stays now ttl e =
    (e.deleted ≡ false)
    ⊎ ((e.deleted_at ≡ 0) × ((e.updated_at ≡ 0) ⊎ (now ≤ e.updated_at + ttl)))
    ⊎ ((0 < e.deleted_at) × (now ≤ e.deleted_at + ttl))

stays : (now : Time) (ttl : ℕ) (e : Entry) → expired (now - ttl) e ≡ false → Stays now ttl e
unfolding expired
stays now ttl e h = ground (arith, h)

Stays-expired : (now : Time) (ttl : ℕ) (e : Entry) → Stays now ttl e → expired (now - ttl) e ≡ false
unfolding expired
Stays-expired now ttl e h = ground (arith, h)

keep_iff :
    (now : Time) (ttl : ℕ) (o : Option Entry) (e : Entry)
    → (keep (now - ttl) o ≡ some e) ↔ ((o ≡ some e) × Stays now ttl e)
keep_iff now ttl none e = (λ h. absurd (ground (arith, h)), λ h. absurd (ground (arith, h)))
keep_iff now ttl (some x) e = (there, λ h. ground (arith, h.0, young h.0 h.1))
  where
    young : some x ≡ some e → Stays now ttl e → expired (now - ttl) x ≡ false
    young same h = ground (arith, same, Stays-expired now ttl e h)

    there : keep (now - ttl) (some x) ≡ some e → (some x ≡ some e) × Stays now ttl e
    there h = elim (Bool-cases (expired (now - ttl) x)) [
      | inl old ↦ absurd (ground (arith, h, old))
      | inr fresh ↦
          let same : x ≡ e = ground (arith, h, fresh) in
          (ap some same, subst (Stays now ttl) same (stays now ttl x fresh))
    ]

-- Where the collection is on (`ttl` is not 0) and no path stands twice, the entries left are those of
-- before, unchanged, that are live, or tombstones without any time, or tombstones whose time of
-- deletion, or of the last update where that is not set, is at most `ttl` ago; and the result counts
-- what went.
pub get-gc_tombstones :
    (idx : Index) (now : Time) (ttl : ℕ) (p : Text) (e : Entry)
    → Distinct idx.files
    → ttl ≢ 0
    → ((get_entry (gc_tombstones idx now ttl).0 p ≡ some e)
        ↔ ((get_entry idx p ≡ some e) × Stays now ttl e))
      × (len (gc_tombstones idx now ttl).0 + (gc_tombstones idx now ttl).1 ≡ len idx)
unfolding gc_tombstones get_entry len
get-gc_tombstones idx now ttl p e d on = elim (Bool-cases (nat_eqb ttl 0)) [
  | inl off ↦ absurd (ground (arith, off, on))
  | inr running ↦
      rw (running, get-gc_files (now - ttl) p idx.files d)
        (keep_iff now ttl (get p idx.files) e, length-gc_files (now - ttl) idx.files)
]

-- A live entry, and a tombstone that is not older than `ttl`, survive every collection.
pub gc_tombstones_safe :
    (idx : Index) (now : Time) (ttl : ℕ) (p : Text) (e : Entry)
    → Distinct idx.files
    → get_entry idx p ≡ some e
    → (e.deleted ≡ false) ⊎ (now ≤ e.deleted_at + ttl × (0 < e.deleted_at))
    → get_entry (gc_tombstones idx now ttl).0 p ≡ some e
unfolding gc_tombstones get_entry expired
gc_tombstones_safe idx now ttl p e d h safe = ground (arith, get-gc_files (now - ttl) p idx.files d)
