-- ===== src/Index/Order.antt =====
-- `Wins` of internal/index/index.go as an order: entries are compared by one key.
use tailsync.Common.{
  ℕ, ◌≡◌, refl, ap, ◌↔◌, ◌⊎◌, inl, inr, Bool, true, false, Text, Ordering, compare, arith,
  text_eqb_iff,
}
use tailsync.Common.Cmp.{
  IsOrder, cmp_bool, cmp_text, cmp_pair, nat-IsOrder, bool-IsOrder, text-IsOrder, pair-IsOrder,
}
use tailsync.Index.{Entry, wins}

-- What the order looks at: the clock, then deletion, hash, mode and modification time.
abbrev pub LwwKey : Type 0
LwwKey = ℕ × (Bool × (Text × (ℕ × ℕ)))

abbrev pub lww_key : Entry → LwwKey
lww_key e = (e.updated_at, (e.deleted, (e.hash, (e.mode, e.mod_time))))

unfoldable pub cmp_key : LwwKey → LwwKey → Ordering
cmp_key = cmp_pair compare (cmp_pair cmp_bool (cmp_pair cmp_text (cmp_pair compare compare)))

pub key-IsOrder : IsOrder cmp_key
unfolding cmp_key
key-IsOrder =
    pair-IsOrder nat-IsOrder
      (pair-IsOrder bool-IsOrder (pair-IsOrder text-IsOrder (pair-IsOrder nat-IsOrder nat-IsOrder)))

wins_gt : (l r : Entry) → wins l r ≡ true → cmp_key (lww_key r) (lww_key l) ≡ Ordering.gt
unfolding wins cmp_key
wins_gt l r h = ground (arith, text-IsOrder.eq_of_cmp r.hash l.hash, text-IsOrder.cmp_refl l.hash)

gt_wins : (l r : Entry) → cmp_key (lww_key r) (lww_key l) ≡ Ordering.gt → wins l r ≡ true
unfolding wins cmp_key
gt_wins l r h = ground (arith, text_eqb_iff l.hash r.hash, text-IsOrder.cmp_refl l.hash)

-- `wins` is the comparison of the keys.
pub wins_iff : (l r : Entry) → (wins l r ≡ true) ↔ (cmp_key (lww_key l) (lww_key r) ≡ Ordering.lt)
wins_iff l r = (
  λ h. key-IsOrder.lt_of_gt (lww_key r) (lww_key l) (wins_gt l r h),
  λ h. gt_wins l r (key-IsOrder.gt_of_lt (lww_key l) (lww_key r) h),
)

pub wins_asymm : (l r : Entry) → wins l r ≡ true → wins r l ≡ false
wins_asymm l r h =
    ground
      (arith, (wins_iff l r).0 h, key-IsOrder.gt_of_lt (lww_key l) (lww_key r), (wins_iff r l).0)

pub wins_trans : (a b c : Entry) → wins a b ≡ true → wins b c ≡ true → wins a c ≡ true
wins_trans a b c h k = (wins_iff a c).1 (
    key-IsOrder.lt_trans (lww_key a) (lww_key b) (lww_key c) ((wins_iff a b).0 h)
      ((wins_iff b c).0 k))

key_cases :
    (l r : Entry) (d : Ordering)
    → cmp_key (lww_key l) (lww_key r) ≡ d
    → (wins l r ≡ true) ⊎ (wins r l ≡ true) ⊎ (lww_key l ≡ lww_key r)
key_cases l r Ordering.lt e = inl ((wins_iff l r).1 e)
key_cases l r Ordering.gt e =
    inr (inl ((wins_iff r l).1 (key-IsOrder.lt_of_gt (lww_key l) (lww_key r) e)))
key_cases l r Ordering.eq e = inr (inr (key-IsOrder.eq_of_cmp (lww_key l) (lww_key r) e))

-- For any two entries one replaces the other, or they agree in clock, deletion, hash, mode and
-- modification time.
pub wins_total : (l r : Entry) → (wins l r ≡ true) ⊎ (wins r l ≡ true) ⊎ (lww_key l ≡ lww_key r)
wins_total l r = key_cases l r (cmp_key (lww_key l) (lww_key r)) refl

same_key_no_win : (l r : Entry) → lww_key l ≡ lww_key r → wins l r ≡ false
same_key_no_win l r e =
    ground
      (arith, (wins_iff l r).0, key-IsOrder.cmp_refl (lww_key r), ap (λ k. cmp_key k (lww_key r)) e)

-- Replacing is a strict order: where `b` replaces `a` and `c` replaces `b`, `c` replaces `a`, and no
-- earlier one of the three replaces a later one.
pub wins-strict_order :
    (a b c : Entry)
    → wins a b ≡ true
    → wins b c ≡ true
    → (wins a c ≡ true) × (wins b a ≡ false) × (wins c b ≡ false) × (wins c a ≡ false)
wins-strict_order a b c h k =
    let w : wins a c ≡ true = wins_trans a b c h k in
    (w, wins_asymm a b h, wins_asymm b c k, wins_asymm a c w)

pub wins_refl : (e : Entry) → wins e e ≡ false
wins_refl e = same_key_no_win e e refl
