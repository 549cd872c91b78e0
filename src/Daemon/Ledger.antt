-- ===== src/Daemon/Ledger.antt =====
-- The daemon's index as a ledger: for each path an entry whose clock only rises, and which goes only
-- when it is a tombstone. Here: the operations of internal/index/index.go under that view.
pub mod Steps
pub mod Reached
pub mod Whole
mod Runs
use mathlib.Core.Path.{subst}
use tailsync.Common.{
  ℕ, ◌-◌, ◌≤◌, ◌≡◌, refl, sym, ap, ◌∙◌, Bool, true, false, Option, none, some, List, [], ◌∷◌, Text,
  arith, inl, inr, Bool-cases, Option-cases, text_key, text_eqb, text_eqb→eq, if◌then◌else◌,
  nat_eqb,
}
use tailsync.Common.Table.{Table, get, put, get-put, Distinct}
use tailsync.Index.{Entry, Index, Time, wins, put_if_wins, gc_files, gc_tombstones, expired}
use tailsync.Index.Gc.{get-gc_files, keep}
use tailsync.Scan.{Change, apply_changes}

-- What may become of an entry while none is dropped.
abbrev pub Raised : Option Entry → Option Entry → Type 0
Raised none o = Unit
Raised (some e) none = ⊥
Raised (some e) (some e') = e.updated_at ≤ e'.updated_at

-- One step of the ledger at a path: nothing happens, an entry is written with a clock that is not
-- earlier than that of the one before, or a tombstone is dropped.
abbrev pub Moves : Option Entry → Option Entry → Type 0
Moves none o = Unit
Moves (some e) none = e.deleted ≡ true
Moves (some e) (some e') = e.updated_at ≤ e'.updated_at

pub Raised-refl : (o : Option Entry) → Raised o o
Raised-refl none = tt
Raised-refl (some e) = omega arith

pub Raised-trans : (a b c : Option Entry) → Raised a b → Raised b c → Raised a c
Raised-trans none b c h k = tt
Raised-trans (some a) none c h k = absurd h
Raised-trans (some a) (some b) none h k = absurd k
Raised-trans (some a) (some b) (some c) h k = omega (arith, h, k)

pub Raised-Moves : (a b : Option Entry) → Raised a b → Moves a b
Raised-Moves none b h = tt
Raised-Moves (some a) none h = absurd h
Raised-Moves (some a) (some b) h = h

pub wins_clock : (l r : Entry) → wins l r ≡ true → l.updated_at ≤ r.updated_at
unfolding wins
wins_clock l r w = ground (arith, w)

-- A write under the entry's own path whose clock is not earlier.
pub put-Raised :
    (e : Entry) (m : Table Text Entry) (q : Text)
    → Raised (get e.path m) (some e)
    → Raised (get q m) (get q (put e.path e m))
put-Raised e m q h = elim (Bool-cases (text_eqb e.path q)) [
  | inl here ↦
      rw (get-put e.path q e m, here)
        (subst (λ (t : Text). Raised (get t m) (some e)) (text_eqb→eq e.path q here) h)
  | inr there ↦ rw (get-put e.path q e m, there) (Raised-refl (get q m))
]

pub put_if_wins-Raised :
    (e : Entry) (m : Table Text Entry) (q : Text) → Raised (get q m) (get q (put_if_wins e m).0)
unfolding put_if_wins
put_if_wins-Raised e m q = elim (Option-cases (get e.path m)) [
  | inl new ↦ rw (new, put_if_wins) (put-Raised e m q (rw new tt))
  | inr (l, old) ↦ elim (Bool-cases (wins l e)) [
    | inl w ↦ rw (old, put_if_wins) (rw w (put-Raised e m q (rw old (wins_clock l e w))))
    | inr w ↦ rw (old, put_if_wins) (rw w (Raised-refl (get q m)))
  ]
]

pub apply_changes-Raised :
    (cs : List Change) (m : Table Text Entry) (q : Text)
    → Raised (get q m) (get q (apply_changes cs m).0)
unfolding apply_changes
apply_changes-Raised [] m q = Raised-refl (get q m)
apply_changes-Raised (c ∷ cs) m q =
    let m' : Table Text Entry = (put_if_wins c.entry m).0 in
    let all : Raised (get q m) (get q (apply_changes cs m').0) =
      Raised-trans (get q m) (get q m') (get q (apply_changes cs m').0)
        (put_if_wins-Raised c.entry m q) (apply_changes-Raised cs m' q) in
    elim (Bool-cases (put_if_wins c.entry m).1) [
      | inl ok ↦ rw ok all
      | inr refused ↦ rw refused all
    ]

keep-Moves : (cutoff : Time) (o : Option Entry) → Moves o (keep cutoff o)
unfolding expired
keep-Moves cutoff none = tt
keep-Moves cutoff (some e) = elim (Bool-cases (expired cutoff e)) [
  | inl old ↦ rw old (ground (arith, old))
  | inr young ↦ rw young (Raised-refl (some e))
]

pub gc_tombstones-Moves :
    (idx : Index) (now : Time) (ttl : ℕ) (q : Text)
    → Distinct idx.files
    → Moves (get q idx.files) (get q (gc_tombstones idx now ttl).0.files)
unfolding gc_tombstones
gc_tombstones-Moves idx now ttl q d = elim (Bool-cases (nat_eqb ttl 0)) [
  | inl off ↦
      rw off (Raised-Moves (get q idx.files) (get q idx.files) (Raised-refl (get q idx.files)))
  | inr on ↦
      rw (on, get-gc_files (now - ttl) q idx.files d) (keep-Moves (now - ttl) (get q idx.files))
]
