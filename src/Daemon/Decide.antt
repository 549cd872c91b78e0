-- ===== src/Daemon/Decide.antt =====
-- `decideApply` of daemon/apply.go: how one entry of a peer's manifest is reconciled.
use tailsync.Common.{
  ℕ, ◌/◌, ◌≡◌, ◌≢◌, ◌<◌, ap, ◌⊎◌, inl, inr, sym, ◌∙◌, Bool, true, false, ◌&&◌, ◌||◌, not, nat_eqb,
  text_eqb, if◌then◌else◌, arith, Bool-cases, [], text_eqb→eq, text_eqb_iff,
}
use tailsync.Common.Cmp.{cmp_text, text-IsOrder}
use tailsync.Index.{Entry, Time, wins, compare_entries, is_zero, after, blank_entry}

pub data ApplyKind : Type 0 where
  noop tombstone delete_live meta_only content : ApplyKind

pub record ApplyDecision : Type 0 where
  pub kind : ApplyKind
  pub remote : Entry
  pub current : Entry
  pub has_local : Bool
  pub use_delta : Bool

-- `t.Unix()` up to a constant: the second of a time.
abbrev pub second : Time → ℕ
second t = t / 1000000000

unfoldable pub mtimes_differ : Time → Time → Bool
mtimes_differ a b =
    if nat_eqb a b
    then false
    else (if not (is_zero a) && (not (is_zero b) && nat_eqb (second a) (second b))
        then false
        else true)

abbrev decision : ApplyKind → Entry → Entry → Bool → Bool → ApplyDecision
decision k local remote has_local use_delta = record {
  kind = k;
  remote = remote;
  current = local;
  has_local = has_local;
  use_delta = use_delta;
}

-- `applyDecision{kind: applyNoop}`
abbrev no_decision : ApplyDecision
no_decision = decision noop (blank_entry []) (blank_entry []) false false

unfoldable pub need_meta : Entry → Entry → Bool
unfolding mtimes_differ
need_meta local remote =
    let mtime_differs : Bool =
      not (is_zero remote.mod_time) && mtimes_differ remote.mod_time local.mod_time in
    let meta_differs : Bool =
      not (nat_eqb remote.mode local.mode)
      || (mtime_differs || after remote.updated_at local.updated_at) in
    meta_differs && wins local remote

unfoldable pub decide_apply : Entry → Bool → Entry → Bool → ApplyDecision
decide_apply local has_local remote disk_present =
    if remote.deleted
    then (if not has_local || local.deleted
        then decision tombstone local remote has_local false
        else (if not (wins local remote)
            then no_decision
            else decision delete_live local remote has_local false))
    else (if has_local && (not local.deleted && text_eqb local.hash remote.hash)
        then (if not (need_meta local remote)
            then no_decision
            else (if not disk_present
                then decision content local remote has_local false
                else decision meta_only local remote has_local false))
        else (if has_local && not (wins local remote)
            then no_decision
            else decision content local remote has_local (has_local && not local.deleted)))

-- An entry that the index has is never deleted, adopted or replaced by content of a remote entry
-- that does not win over it: the decision is then to do nothing, or, between two tombstones, to
-- leave the choice to `SetIfWins`.
pub decide_apply-noop :
    (local remote : Entry) (disk_present : Bool)
    → wins local remote ≡ false
    → ((decide_apply local true remote disk_present).kind ≡ noop)
      ⊎ ((local.deleted ≡ true)
          × (remote.deleted ≡ true)
          × ((decide_apply local true remote disk_present).kind ≡ tombstone))
unfolding decide_apply need_meta
decide_apply-noop local remote disk_present loses = ground arith

wins_meta :
    (local remote : Entry)
    → wins local remote ≡ true
    → local.deleted ≡ remote.deleted
    → local.hash ≡ remote.hash
    → (local.updated_at ≢ remote.updated_at → local.updated_at < remote.updated_at)
      × (local.updated_at ≡ remote.updated_at
          → local.mode ≡ remote.mode
          → local.mod_time < remote.mod_time)
unfolding wins compare_entries
wins_meta local remote w d h =
    ground (arith, text-IsOrder.cmp_refl remote.hash, ap (λ t. cmp_text remote.hash t) h)

need_meta_idle :
    (local remote : Entry)
    → wins local remote ≡ true
    → local.deleted ≡ remote.deleted
    → local.hash ≡ remote.hash
    → need_meta local remote ≡ false
    → (local.mode ≡ remote.mode)
      × (local.updated_at ≡ remote.updated_at)
      × (second local.mod_time ≡ second remote.mod_time)
unfolding need_meta
need_meta_idle local remote w d h idle =
    let (clock, meta) = wins_meta local remote w d h in ground (arith, w, idle, clock, meta)

-- A remote entry that wins is acted on, with one exception: between two live entries of the same
-- hash, mode and clock, modification times within one second do not count.
pub decide_apply-ne-noop :
    (local remote : Entry) (disk_present : Bool)
    → wins local remote ≡ true
    → ((decide_apply local true remote disk_present).kind ≢ noop)
      ⊎ ((local.deleted ≡ false)
          × (remote.deleted ≡ false)
          × (local.hash ≡ remote.hash)
          × (local.mode ≡ remote.mode)
          × (local.updated_at ≡ remote.updated_at)
          × (second local.mod_time ≡ second remote.mod_time))
unfolding decide_apply
decide_apply-ne-noop local remote disk_present w = elim (Bool-cases remote.deleted) [
  | inl r ↦ elim (Bool-cases local.deleted) [
    | inl l ↦ inl (λ e. ground (arith, r, l))
    | inr l ↦ inl (λ e. ground (arith, r, l, w))
  ]
  | inr r ↦ elim (Bool-cases (not local.deleted && text_eqb local.hash remote.hash)) [
    | inr other ↦ inl (λ e. ground (arith, r, other, w))
    | inl same ↦ elim (Bool-cases (need_meta local remote)) [
      | inl need ↦ inl (λ e. ground (arith, r, same, need))
      | inr idle ↦
          let live : local.deleted ≡ false = ground (arith, same) in
          let hash : local.hash ≡ remote.hash =
            text_eqb→eq local.hash remote.hash (ground (arith, same)) in
          let (mode, clock, time) = need_meta_idle local remote w (live ∙ sym r) hash idle in
          inr (live, r, hash, mode, clock, time)
    ]
  ]
]

pub decide_apply-hash :
    (local remote : Entry) (has_local disk_present : Bool)
    → ((decide_apply local has_local remote disk_present).kind ≡ meta_only
        → (has_local ≡ true)
          × (local.deleted ≡ false)
          × (local.hash ≡ remote.hash)
          × (disk_present ≡ true))
      × ((decide_apply local has_local remote disk_present).use_delta ≡ true
          → (has_local ≡ true) × (local.deleted ≡ false) × (local.hash ≢ remote.hash))
unfolding decide_apply need_meta
decide_apply-hash local remote has_local disk_present =
    ground (arith, text_eqb_iff local.hash remote.hash)
