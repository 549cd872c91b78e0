-- ===== src/Scan/Changes.antt =====
-- Every change that a scan finds is taken when it is applied to the index that was scanned, and what
-- then stands under a path.
use mathlib.Core.Path.{subst}
use tailsync.Common.{
  suc, ◌<◌, ◌≡◌, refl, sym, ap, ◌∙◌, true, false, Option, none, some, List, [], ◌∷◌, Text, arith,
  text_eqb, text_eqb→eq, text_eqb_refl, text_key, Bool-cases, Option-cases, inl, inr, map, length,
  All, ◌⊎◌,
}
use tailsync.Common.Table.{Table, get, put, Distinct, get-put, get-cons_ne}
use tailsync.Index.{Entry, wins, put_if_wins}
use tailsync.Scan.{Change, each, apply_changes}

-- A later clock replaces.
wins_later : (l r : Entry) → l.updated_at < r.updated_at → wins l r ≡ true
unfolding wins
wins_later l r h = ground arith

-- What holds of a change that fits an index: it is for its entry's path, and it replaces what stands
-- there.
abbrev pub Fresh : Table Text Entry → Change → Type 0
Fresh m c = (put_if_wins c.entry m ≡ (put c.entry.path c.entry m, true))

put_if_wins_fresh :
    (e : Entry) (m : Table Text Entry)
    → ((l : Entry) → get e.path m ≡ some l → l.updated_at < e.updated_at)
    → put_if_wins e m ≡ (put e.path e m, true)
unfolding put_if_wins
put_if_wins_fresh e m h = elim (Option-cases (get e.path m)) [
  | inl none_there ↦ ground (arith, none_there)
  | inr (l, there) ↦ ground (arith, there, wins_later l e (h l there))
]

nil≢one : {c : Change} → [] ≡ c ∷ [] → ⊥
nil≢one h = cc

abbrev pub entries : List Change → List Entry
entries cs = map (λ c. c.entry) cs

-- What a round of a loop leaves under its path.
abbrev pub outcome : List Change → Option Entry → Option Entry
outcome [] o = o
outcome (c ∷ cs) o = some c.entry

-- A round yields nothing, or one change: for its path, and later than what the index has there.
abbrev pub Round : Table Text Entry → Text → List Change → Type 0
Round known path cs =
    (cs ≡ [])
    ⊎ ((c : Change) × (cs ≡ c ∷ [])
        × (c.entry.path ≡ path)
        × ((l : Entry) → get path known ≡ some l → l.updated_at < c.entry.updated_at))

abbrev pub AllTaken : List Change → Table Text Entry → Type 0
AllTaken cs m = ((apply_changes cs m).1 ≡ length cs) × ((apply_changes cs m).2 ≡ entries cs)

module _ (known : Table Text Entry) (f : Text → Entry → List Change) (R : Text → Entry → Type 0)
    (round : (p : Text) (v : Entry) → R p v → Round known p (f p v)) where
  -- The index still has under a path what it had when its round found a change.
  abbrev pub Untouched : Table Text Entry → Table Text Entry → Type 0
  Untouched xs m =
      (q : Text) (v : Entry) → get q xs ≡ some v → (f q v ≡ []) ⊎ (get q m ≡ get q known)

  abbrev pub left_by : Table Text Entry → Table Text Entry → Text → Option Entry
  left_by xs m q = elim (get q xs) [ none ↦ get q m | some v ↦ outcome (f q v) (get q m) ]

  apply_step :
      (c : Change) (cs : List Change) (m m' : Table Text Entry)
      → put_if_wins c.entry m ≡ (m', true)
      → AllTaken cs m'
      → AllTaken (c ∷ cs) m × ((apply_changes (c ∷ cs) m).0 ≡ (apply_changes cs m').0)
  unfolding apply_changes
  apply_step c cs m m' e (n, a) =
      let e0 : (put_if_wins c.entry m).0 ≡ m' = ap (λ t. t.0) e in
      let e1 : (put_if_wins c.entry m).1 ≡ true = ap (λ t. t.1) e in
      rw (e0, e1) ((ap suc n, ap (◌∷◌ c.entry) a), refl)

  Untouched-tail :
      (p : Text) (v : Entry) (xs m : Table Text Entry)
      → get p xs ≡ none
      → Untouched ((p, v) ∷ xs) m
      → Untouched xs m
  Untouched-tail p v xs m absent u = λ q w h. u q w (get-cons_ne p q v w xs absent h)

  ne_of_absent :
      (p q : Text) (w : Entry) (xs : Table Text Entry)
      → get p xs ≡ none
      → get q xs ≡ some w
      → text_eqb p q ≡ false
  ne_of_absent p q w xs absent there = elim (Bool-cases (text_eqb p q)) [
    | inl e ↦ absurd (ground (arith, ap (λ t. get t xs) (text_eqb→eq p q e)))
    | inr e ↦ e
  ]

  Untouched-put :
      (p : Text) (v e : Entry) (xs m : Table Text Entry)
      → get p xs ≡ none
      → Untouched ((p, v) ∷ xs) m
      → Untouched xs (put p e m)
  Untouched-put p v e xs m absent u = λ q w h. elim (Untouched-tail p v xs m absent u q w h) [
    | inl idle ↦ inl idle
    | inr same ↦ inr (get-put p q e m ∙ rw (ne_of_absent p q w xs absent h) same)
  ]

  -- What the head's round leaves, over what the rest of the loop leaves.
  outcome_idle :
      (p q : Text) (v : Entry) (xs m : Table Text Entry)
      → get p xs ≡ none
      → f p v ≡ []
      → left_by xs m q ≡ left_by ((p, v) ∷ xs) m q
  unfolding get
  outcome_idle p q v xs m absent idle = elim (Bool-cases (text_eqb p q)) [
    | inl e ↦
        let same : p ≡ q = text_eqb→eq p q e in
        let none_there : get q xs ≡ none = ap (λ t. get t xs) (sym same) ∙ absent in
        let quiet : f q v ≡ [] = ap (λ t. f t v) (sym same) ∙ idle in
        ground (arith, e, none_there, quiet)
    | inr e ↦ ground (arith, e)
  ]

  outcome_change :
      (p q : Text) (v : Entry) (c : Change) (xs m : Table Text Entry)
      → get p xs ≡ none
      → f p v ≡ c ∷ []
      → left_by xs (put p c.entry m) q ≡ left_by ((p, v) ∷ xs) m q
  unfolding get
  outcome_change p q v c xs m absent change = elim (Bool-cases (text_eqb p q)) [
    | inl e ↦
        let same : p ≡ q = text_eqb→eq p q e in
        let none_there : get q xs ≡ none = ap (λ t. get t xs) (sym same) ∙ absent in
        let this : f q v ≡ c ∷ [] = ap (λ t. f t v) (sym same) ∙ change in
        ground (arith, e, none_there, this, get-put p q c.entry m)
    | inr e ↦ ground (arith, e, get-put p q c.entry m)
  ]

  pub each_taken :
      (xs m : Table Text Entry)
      → Distinct xs
      → All (λ kv. R kv.0 kv.1) xs
      → Untouched xs m
      → AllTaken (each f xs) m
        × ((q : Text) → get q (apply_changes (each f xs) m).0 ≡ left_by xs m q)
  unfolding each get
  each_taken [] m d r u = unfold apply_changes in ((refl, refl), λ q. refl)
  each_taken ((p, v) ∷ xs) m d r u = elim (round p v r.0) [
    | inl idle ↦
        let (taken, after) = each_taken xs m d.1 r.1 (Untouched-tail p v xs m d.0 u) in
        rw idle (taken, λ q. after q ∙ outcome_idle p q v xs m d.0 idle)
    | inr (c, change, own, later) ↦
        let here : get p ((p, v) ∷ xs) ≡ some v = rw (text_eqb_refl p) refl in
        let step : put_if_wins c.entry m ≡ (put p c.entry m, true) =
          subst (λ t. put_if_wins c.entry m ≡ (put t c.entry m, true)) own
            (put_if_wins_fresh c.entry m (λ l h. elim (u p v here) [
              | inl idle ↦ absurd (nil≢one (sym idle ∙ change))
              | inr same ↦ later l (sym same ∙ ap (λ t. get t m) (sym own) ∙ h)
            ])) in
        let (taken, after) =
          each_taken xs (put p c.entry m) d.1 r.1 (Untouched-put p v c.entry xs m d.0 u) in
        let (all, files) = apply_step c (each f xs) m (put p c.entry m) step taken in
        rw change (all, λ q. ap (get q) files ∙ after q ∙ outcome_change p q v c xs m d.0 change)
  ]
