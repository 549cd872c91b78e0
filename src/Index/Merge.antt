-- ===== src/Index/Merge.antt =====
-- Sequences of `SetIfWins`: what stands under a path afterwards is the greatest of what was there
-- and what came, in whatever order it came.
use mathlib.Core.Logic.{∥∥₁_elim}
use mathlib.Core.List.{Perm, Permᴰ}
use tailsync.Common.{
  ◌≡◌, refl, sym, ap, ap₂, ◌∙◌, inl, inr, false, Text, Ordering, arith, Bool-cases, Option-cases,
  text_eqb, text_eqb_iff, text_eqb_refl, Option, none, some, List, [], ◌∷◌, ◌++◌, All,
  if◌then◌else◌, text_key, text_eqb→eq,
}
use tailsync.Common.Table.{Table, get, Distinct, get-put}
use tailsync.Index.{Entry, wins, put_if_wins, values}
use tailsync.Index.Order.{LwwKey, lww_key, cmp_key, key-IsOrder, wins_iff}

abbrev pub pick : Ordering → LwwKey → LwwKey → LwwKey
pick Ordering.lt x y = y
pick Ordering.gt x y = x
pick Ordering.eq x y = x

-- The greater of two keys, where there are any.
abbrev pub join : Option LwwKey → Option LwwKey → Option LwwKey
join none b = b
join (some x) none = some x
join (some x) (some y) = some (pick (cmp_key x y) x y)

pick_comm : (x y : LwwKey) (d : Ordering) → cmp_key x y ≡ d → pick d x y ≡ pick (cmp_key y x) y x
pick_comm x y Ordering.lt e = rw (key-IsOrder.gt_of_lt x y e)
pick_comm x y Ordering.gt e = rw (key-IsOrder.lt_of_gt x y e)
pick_comm x y Ordering.eq e = rw (key-IsOrder.eq_of_cmp x y e, key-IsOrder.cmp_refl y)

pub join_comm : (a b : Option LwwKey) → join a b ≡ join b a
join_comm none none = refl
join_comm none (some y) = refl
join_comm (some x) none = refl
join_comm (some x) (some y) = ap some (pick_comm x y (cmp_key x y) refl)

pick_assoc :
    (x y z : LwwKey) (d e : Ordering)
    → cmp_key x y ≡ d
    → cmp_key y z ≡ e
    → pick (cmp_key (pick d x y) z) (pick d x y) z ≡ pick (cmp_key x (pick e y z)) x (pick e y z)
pick_assoc x y z d e h k = ground (
  arith,
  key-IsOrder.lt_trans x y z,
  key-IsOrder.gt_of_lt x y,
  key-IsOrder.lt_of_gt x y,
  key-IsOrder.lt_of_gt y z,
  key-IsOrder.lt_trans z y x,
  key-IsOrder.eq_of_cmp x y,
  key-IsOrder.eq_of_cmp y z,
  key-IsOrder.gt_of_lt z x,
  key-IsOrder.cmp_refl x,
  key-IsOrder.cmp_refl y,
  key-IsOrder.cmp_refl z,
)

pub join_assoc : (a b c : Option LwwKey) → join (join a b) c ≡ join a (join b c)
join_assoc none b c = refl
join_assoc (some x) none c = refl
join_assoc (some x) (some y) none = refl
join_assoc (some x) (some y) (some z) =
    ap some (pick_assoc x y z (cmp_key x y) (cmp_key y z) refl refl)

abbrev pub key_at : Text → Table Text Entry → Option LwwKey
key_at p m = elim (get p m) [ none ↦ none | some e ↦ some (lww_key e) ]

-- What an entry says about a path.
abbrev pub offer : Text → Entry → Option LwwKey
offer p e = if text_eqb e.path p then some (lww_key e) else none

-- The greatest key that a list of entries offers for a path.
abbrev pub best : Text → List Entry → Option LwwKey
best p [] = none
best p (e ∷ es) = join (offer p e) (best p es)

-- `SetIfWins` of each entry in turn.
unfoldable pub merge : List Entry → Table Text Entry → Table Text Entry
merge [] m = m
merge (e ∷ es) m = merge es (put_if_wins e m).0

winner :
    (l e : Entry)
    → (if wins l e then some (lww_key e) else some (lww_key l))
      ≡ join (some (lww_key l)) (some (lww_key e))
winner l e =
    ground
      (arith, (wins_iff l e).0, (wins_iff l e).1, key-IsOrder.eq_of_cmp (lww_key l) (lww_key e))

pub key_at-put_if_wins :
    (p : Text) (e : Entry) (m : Table Text Entry)
    → key_at p (put_if_wins e m).0 ≡ join (key_at p m) (offer p e)
unfolding put_if_wins
key_at-put_if_wins p e m = elim (Option-cases (get e.path m)) [
  | inl new ↦ elim (Bool-cases (text_eqb e.path p)) [
    | inl here ↦ ground (
      arith,
      text_eqb→eq e.path p,
      get-put e.path p e m,
      ap (λ q. get q m) (text_eqb→eq e.path p here),
    )
    | inr there ↦ ground (arith, get-put e.path p e m, join_comm none (key_at p m))
  ]
  | inr (l, old) ↦ elim (Bool-cases (text_eqb e.path p)) [
    | inl here ↦
        ground
          (arith, get-put e.path p e m, ap (λ q. get q m) (text_eqb→eq e.path p here), winner l e)
    | inr there ↦ ground (arith, get-put e.path p e m, join_comm none (key_at p m))
  ]
]

pub key_at-merge :
    (p : Text) (es : List Entry) (m : Table Text Entry)
    → key_at p (merge es m) ≡ join (key_at p m) (best p es)
unfolding merge
key_at-merge p [] m = join_comm none (key_at p m)
key_at-merge p (e ∷ es) m =
    key_at-merge p es (put_if_wins e m).0
    ∙ rw (key_at-put_if_wins p e m) (join_assoc (key_at p m) (offer p e) (best p es))

best-swap : (p : Text) (e f : Entry) (es : List Entry) → best p (e ∷ f ∷ es) ≡ best p (f ∷ e ∷ es)
best-swap p e f es =
    sym (join_assoc (offer p e) (offer p f) (best p es))
    ∙ ap (λ a. join a (best p es)) (join_comm (offer p e) (offer p f))
    ∙ join_assoc (offer p f) (offer p e) (best p es)

best-perm : (p : Text) {es fs : List Entry} → Permᴰ es fs → best p es ≡ best p fs
best-perm p Permᴰ.nil = refl
best-perm p (Permᴰ.cons {a} {b} {l₁} {l₂} e d) = ap₂ (λ x r. join (offer p x) r) e (best-perm p d)
best-perm p (Permᴰ.swap {a} {b} {a'} {b'} {l} e f) =
    best-swap p a b l ∙ ap₂ (λ x y. join (offer p x) (join (offer p y) (best p l))) f e
best-perm p (Permᴰ.trans d e) = best-perm p d ∙ best-perm p e

LwwKey-set : IsSet (Option LwwKey)
LwwKey-set = hlevel

-- The order of arrival does not matter: merging two arrangements of the same entries into the same
-- index leaves every path with the same clock, deletion, hash, mode and modification time.
pub merge-perm :
    {es fs : List Entry} (p : Text) (m : Table Text Entry)
    → Perm es fs
    → key_at p (merge es m) ≡ key_at p (merge fs m)
merge-perm {es} {fs} p m d = ∥∥₁_elim d (LwwKey-set _ _) (λ perm.
    key_at-merge p es m ∙ ap (join (key_at p m)) (best-perm p perm) ∙ sym (key_at-merge p fs m))

-- Nothing that has been merged would be merged again.
join_idem : (a : Option LwwKey) → join a a ≡ a
join_idem none = refl
join_idem (some x) = ground (arith, key-IsOrder.cmp_refl x)

best_absorbs :
    (p : Text) (es fs : List Entry) (e : Entry)
    → join (best p (es ++ (e ∷ fs))) (offer p e) ≡ best p (es ++ (e ∷ fs))
best_absorbs p [] fs e =
    ap (λ a. join a (offer p e)) (join_comm (offer p e) (best p fs))
    ∙ join_assoc (best p fs) (offer p e) (offer p e)
    ∙ ap (join (best p fs)) (join_idem (offer p e))
    ∙ join_comm (best p fs) (offer p e)
best_absorbs p (x ∷ es) fs e =
    join_assoc (offer p x) (best p (es ++ (e ∷ fs))) (offer p e)
    ∙ ap (join (offer p x)) (best_absorbs p es fs e)

absorbed_refused :
    (e : Entry) (m : Table Text Entry)
    → join (key_at e.path m) (some (lww_key e)) ≡ key_at e.path m
    → (put_if_wins e m).1 ≡ false
unfolding put_if_wins
absorbed_refused e m h = elim (Option-cases (get e.path m)) [
  | inl new ↦ ground arith
  | inr (l, old) ↦ ground (arith, (wins_iff l e).0, key-IsOrder.cmp_refl (lww_key e))
]

-- After a merge no entry of the merged list replaces anything: a second exchange of the same
-- manifest changes no entry.
pub merge_quiet :
    (es fs : List Entry) (e : Entry) (m : Table Text Entry)
    → (put_if_wins e (merge (es ++ (e ∷ fs)) m)).1 ≡ false
merge_quiet es fs e m =
    let all : List Entry = es ++ (e ∷ fs) in
    absorbed_refused e (merge all m) (
      ground (
        arith,
        text_eqb_refl e.path,
        key_at-merge e.path all m,
        join_assoc (key_at e.path m) (best e.path all) (offer e.path e),
        best_absorbs e.path es fs e,
      ))

-- What the entries of a map offer for a path is what stands under the path, where every entry
-- stands under its own path.
abbrev pub IsKeyed : Table Text Entry → Type 0
IsKeyed m = Distinct m × All (λ kv. kv.1.path ≡ kv.0) m

best-values-none :
    (p : Text) (m : Table Text Entry) → IsKeyed m → get p m ≡ none → best p (values m) ≡ none
unfolding values get
best-values-none p [] h n = refl
best-values-none p ((k, e) ∷ m) h n =
    ground (arith, text_eqb_iff e.path p, text_eqb_iff k p, best-values-none p m (h.0.1, h.1.1))

pub best-values : (p : Text) (m : Table Text Entry) → IsKeyed m → best p (values m) ≡ key_at p m
unfolding values get
best-values p [] h = refl
best-values p ((k, e) ∷ m) h = elim (Bool-cases (text_eqb k p)) [
  | inl here ↦
      let same : k ≡ p = text_eqb→eq k p here in
      ground
        (arith, text_eqb_iff e.path p, best-values-none p m (h.0.1, h.1.1), ap (λ q. get q m) same)
  | inr there ↦
      ground (arith, text_eqb_iff e.path p, text_eqb_iff k p, best-values p m (h.0.1, h.1.1))
]

-- Two replicas that merge each other's manifests agree: whatever their indexes, as long as every
-- entry stands under its own path and no path twice, each path ends with the same clock, deletion,
-- hash, mode and modification time on both sides.
pub merge-converges :
    (a b : Table Text Entry) (p : Text)
    → IsKeyed a
    → IsKeyed b
    → key_at p (merge (values b) a) ≡ key_at p (merge (values a) b)
merge-converges a b p ka kb =
    key_at-merge p (values b) a
    ∙ ap (join (key_at p a)) (best-values p b kb)
    ∙ join_comm (key_at p a) (key_at p b)
    ∙ ap (join (key_at p b)) (sym (best-values p a ka))
    ∙ sym (key_at-merge p (values a) b)
