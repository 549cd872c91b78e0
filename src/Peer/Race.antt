-- ===== src/Peer/Race.antt =====
-- Two nodes that dial each other at the same time.
use mathlib.Core.Path.{subst}
use tailsync.Common.{
  ◌≡◌, ◌≢◌, ◌⊎◌, inl, inr, refl, sym, ap, ap₂, ◌∙◌, Bool, true, false, not, none, some, [], Text,
  text_eqb, text_eqb_refl, text_eqb→eq, text_eqb_iff, if◌then◌else◌, text_key, nat_key, nat_eqb,
  nat_eqb_refl, arith, Bool-cases, eqb-eq_false,
}
use tailsync.Common.Cmp.{text-IsOrder}
use tailsync.Common.Table.{get, get-put}
use tailsync.Peer.Roster.{
  Session, healthy, Ref, Roster, close_loser, rejected, replaced, preferred_dialer, dialer_node_id,
  prefer_new_session, mapped, set_mapped, install, close_session, decide_inbound, install_and_close,
}

pub preferred_dialer_sym : (a b : Text) → preferred_dialer a b ≡ preferred_dialer b a
unfolding preferred_dialer
preferred_dialer_sym a b = ground (
  arith,
  text-IsOrder.gt_of_lt a b,
  text-IsOrder.lt_of_gt a b,
  text-IsOrder.gt_of_lt b a,
  text-IsOrder.lt_of_gt b a,
  text-IsOrder.eq_of_cmp b a,
  text-IsOrder.eq_of_cmp a b,
)

preferred_dialer_or : (a b : Text) → preferred_dialer a b ≢ a → preferred_dialer a b ≡ b
unfolding preferred_dialer
preferred_dialer_or a b h = ground arith

close_session_sessions : (r : Roster) (ref : Ref) → (close_session r ref).sessions ≡ r.sessions
unfolding close_session
close_session_sessions r ref = ground arith

abbrev pub shut : Session → Session
shut s = record s { closed = true; healthy_flag = false }

get-close_session :
    (r : Roster) (i k : Ref) (s : Session)
    → get i r.store ≡ some s
    → get k (close_session r i).store ≡ (if nat_eqb i k then some (shut s) else get k r.store)
unfolding close_session
get-close_session r i k s at = rw (at, close_session) (get-put i k (shut s) r.store)

module _ (a b : Text) (a_set : a ≢ []) (b_set : b ≢ []) (a-ne-b : a ≢ b) where
  -- An open session of `a` with `b`, dialled by `a` or not.
  abbrev pub IsOpen : Bool → Session → Type 0
  IsOpen dialed s =
      (s.node_id ≡ b)
      × (s.local_id ≡ a)
      × (s.dialer ≡ dialed)
      × (s.healthy_flag ≡ true)
      × (s.closed ≡ false)

  install_fresh :
      (r : Roster) (i : Ref) (s : Session) (dialed : Bool)
      → get i r.store ≡ some s
      → IsOpen dialed s
      → get b r.sessions ≡ none
      → (install_and_close r i).0 ≡ set_mapped r b i
  unfolding install_and_close close_loser install mapped
  install_fresh r i s dialed at o free = ground (arith, at, o, free, text_eqb→eq b [], b_set)

  install_second :
      (r : Roster) (i j : Ref) (s t : Session) (d e : Bool)
      → get i r.store ≡ some s
      → get j r.store ≡ some t
      → IsOpen d s
      → IsOpen e t
      → get b r.sessions ≡ some i
      → install r (some j) ≡ (
          if prefer_new_session t s
          then (set_mapped r t.node_id j, (replaced, some i))
          else (r, (rejected, none)))
  unfolding install mapped healthy
  install_second r i j s t d e at at' o o' here =
      let here' : get t.node_id r.sessions ≡ some i =
        ap (λ (q : Text). get q r.sessions) o'.0 ∙ here in
      ground (arith, at, at', o, here', text_eqb→eq t.node_id [], o'.0, b_set)

  get-install_and_close :
      (r : Roster) (i j : Ref) (s t : Session) (d e : Bool)
      → get i r.store ≡ some s
      → get j r.store ≡ some t
      → IsOpen d s
      → IsOpen e t
      → get b r.sessions ≡ some i
      → get b (install_and_close r j).0.sessions ≡ some (if prefer_new_session t s then j else i)
  unfolding install_and_close close_loser
  get-install_and_close r i j s t d e at at' o o' here =
      elim (Bool-cases (prefer_new_session t s)) [
        | inl new ↦
            rw (install_second r i j s t d e at at' o o' here, new, install_and_close)
              (ap (get b) (close_session_sessions (set_mapped r t.node_id j) i)
                ∙ get-put t.node_id b j r.sessions
                ∙ rw (o'.0, text_eqb_refl b) refl)
        | inr old ↦
            rw (install_second r i j s t d e at at' o o' here, old, install_and_close)
              (ap (get b) (close_session_sessions r j) ∙ here)
      ]

  preferred_cases : (preferred_dialer a b ≡ a) ⊎ (preferred_dialer a b ≡ b)
  unfolding preferred_dialer
  preferred_cases = ground arith

  prefer_dialed :
      (s t : Session)
      → IsOpen true s
      → IsOpen false t
      → (prefer_new_session s t ≡ text_eqb (preferred_dialer a b) a)
        × (prefer_new_session t s ≡ not (text_eqb (preferred_dialer a b) a))
  unfolding prefer_new_session dialer_node_id
  prefer_dialed s t o o' =
      let ps : preferred_dialer s.local_id s.node_id ≡ preferred_dialer a b =
        ap₂ preferred_dialer o.1 o.0 in
      let pt : preferred_dialer t.local_id t.node_id ≡ preferred_dialer a b =
        ap₂ preferred_dialer o'.1 o'.0 in
      ground (
        arith,
        ps,
        pt,
        o,
        o',
        eqb-eq_false text_key a [] a_set,
        eqb-eq_false text_key b [] b_set,
        eqb-eq_false text_key a b a-ne-b,
        eqb-eq_false text_key b a (λ e. a-ne-b (sym e)),
        text_eqb_refl a,
        text_eqb_refl b,
        preferred_cases,
      )

  -- The roster after two installs, each with what it closes.
  abbrev pub race : Roster → Ref → Ref → Roster
  race r i j = (install_and_close (install_and_close r i).0 j).0

  settle :
      (r : Roster) (i j : Ref) (s t : Session) (d e : Bool)
      → get i r.store ≡ some s
      → get j r.store ≡ some t
      → IsOpen d s
      → IsOpen e t
      → get b r.sessions ≡ none
      → get b (race r i j).sessions ≡ some (if prefer_new_session t s then j else i)
  settle r i j s t d e at at' o o' free =
      ap (λ (x : Roster). get b (install_and_close x j).0.sessions)
        (install_fresh r i s d at o free)
      ∙ get-install_and_close (set_mapped r b i) i j s t d e at at' o o'
          (get-put b b i r.sessions ∙ rw (text_eqb_refl b) refl)

  -- What the store holds after the second install: the one that lost is closed, the other as before.
  store-install_and_close :
      (r : Roster) (i j : Ref) (s t : Session) (d e : Bool)
      → i ≢ j
      → get i r.store ≡ some s
      → get j r.store ≡ some t
      → IsOpen d s
      → IsOpen e t
      → get b r.sessions ≡ some i
      → (get i (install_and_close r j).0.store
          ≡ some (if prefer_new_session t s then shut s else s))
        × (get j (install_and_close r j).0.store
            ≡ some (if prefer_new_session t s then t else shut t))
  unfolding install_and_close close_loser
  store-install_and_close r i j s t d e apart at at' o o' here =
      let ij : nat_eqb i j ≡ false = eqb-eq_false nat_key i j apart in
      let ji : nat_eqb j i ≡ false = eqb-eq_false nat_key j i (λ q. apart (sym q)) in
      elim (Bool-cases (prefer_new_session t s)) [
        | inl new ↦
            rw (install_second r i j s t d e at at' o o' here, new, install_and_close)
              (
                get-close_session (set_mapped r t.node_id j) i i s at ∙ rw (nat_eqb_refl i) refl,
                get-close_session (set_mapped r t.node_id j) i j s at ∙ rw ij at',
              )
        | inr old ↦
            rw (install_second r i j s t d e at at' o o' here, old, install_and_close)
              (
                get-close_session r j i t at' ∙ rw ji at,
                get-close_session r j j t at' ∙ rw (nat_eqb_refl j) refl,
              )
      ]

  settle_store :
      (r : Roster) (i j : Ref) (s t : Session) (d e : Bool)
      → i ≢ j
      → get i r.store ≡ some s
      → get j r.store ≡ some t
      → IsOpen d s
      → IsOpen e t
      → get b r.sessions ≡ none
      → (get i (race r i j).store ≡ some (if prefer_new_session t s then shut s else s))
        × (get j (race r i j).store ≡ some (if prefer_new_session t s then t else shut t))
  settle_store r i j s t d e apart at at' o o' free =
      subst
        (λ (x : Roster).
          (get i (install_and_close x j).0.store
            ≡ some (if prefer_new_session t s then shut s else s))
          × (get j (install_and_close x j).0.store
              ≡ some (if prefer_new_session t s then t else shut t)))
        (sym (install_fresh r i s d at o free))
        (store-install_and_close (set_mapped r b i) i j s t d e apart at at' o o'
          (get-put b b i r.sessions ∙ rw (text_eqb_refl b) refl))

  -- The roster has one of two sessions, which is open, and the other one is closed.
  abbrev pub Settles : Roster → Ref → Session → Ref → Session → Type 0
  Settles r winner w loser l =
      (get b r.sessions ≡ some winner)
      × (get winner r.store ≡ some w)
      × (get loser r.store ≡ some (shut l))

  -- A choice of the first session of two, or else of the second.
  abbrev pub SettlesOn : Bool → Roster → Ref → Session → Ref → Session → Type 0
  SettlesOn true r i s j t = Settles r i s j t
  SettlesOn false r i s j t = Settles r j t i s

  both :
      (p : Bool) (r : Roster) (i j : Ref) (s t : Session)
      → get b r.sessions ≡ some (if p then i else j)
      → get i r.store ≡ some (if p then s else shut s)
      → get j r.store ≡ some (if p then shut t else t)
      → SettlesOn p r i s j t
  both true r i j s t here at at' = (here, at, at')
  both false r i j s t here at at' = (here, at', at)

  flip {ℓ} :
      {A : Type ℓ} (p : Bool) (x y : A) → some (if not p then x else y) ≡ some (if p then y else x)
  flip true x y = refl
  flip false x y = refl

  -- Two nodes that dial each other end up with the same one of the two connections: where neither
  -- had a session with the other and both connections are open, node `a` keeps the one that it dialled
  -- itself if `a` is the preferred dialler of the two, and the other one else, whichever of the two is
  -- installed first: that session stands in the roster and is as open as before, and the other one is
  -- closed. Both ends agree on the preferred dialler.
  pub race_winner :
      (r : Roster) (i j : Ref) (s t : Session)
      → i ≢ j
      → get i r.store ≡ some s
      → get j r.store ≡ some t
      → IsOpen true s
      → IsOpen false t
      → get b r.sessions ≡ none
      → SettlesOn (text_eqb (preferred_dialer a b) a) (race r i j) i s j t
        × SettlesOn (text_eqb (preferred_dialer a b) a) (race r j i) i s j t
        × (preferred_dialer a b ≡ preferred_dialer b a)
  race_winner r i j s t apart at at' o o' free =
      let p : Bool = text_eqb (preferred_dialer a b) a in
      let (new_s, new_t) = prefer_dialed s t o o' in
      let (ri, rj) = settle_store r i j s t true false apart at at' o o' free in
      let (lj, li) = settle_store r j i t s false true (λ q. apart (sym q)) at' at o' o free in
      (
        both p (race r i j) i j s t
            (settle r i j s t true false at at' o o' free ∙ rw new_t (flip p j i))
            (ri ∙ rw new_t (flip p (shut s) s)) (rj ∙ rw new_t (flip p t (shut t))),
        both p (race r j i) i j s t (settle r j i t s false true at' at o' o free ∙ rw new_s refl)
            (li ∙ rw new_s refl) (lj ∙ rw new_s refl),
        preferred_dialer_sym a b,
      )

  -- A connection that the handshake turns away is one that the roster would not have taken: where
  -- `decide` refuses node `b`, installing an open session that `b` dialled is rejected.
  pub decide_inbound-install :
      (r : Roster) (j : Ref) (t : Session)
      → get j r.store ≡ some t
      → IsOpen false t
      → decide_inbound a r b ≡ false
      → install r (some j) ≡ (r, (rejected, none))
  unfolding decide_inbound install prefer_new_session dialer_node_id
  decide_inbound-install r j t at o refused =
      let pt : preferred_dialer t.local_id t.node_id ≡ preferred_dialer a b =
        ap₂ preferred_dialer o.1 o.0 in
      let same : mapped r t.node_id ≡ mapped r b = ap (mapped r) o.0 in
      let not_b : text_eqb t.node_id (preferred_dialer t.local_id t.node_id)
          ≡ text_eqb b (preferred_dialer a b) =
        ap₂ text_eqb o.0 pt in
      ground (
        arith,
        at,
        o,
        same,
        not_b,
        refused,
        text_eqb_iff b (preferred_dialer a b),
        text_eqb_iff (preferred_dialer a b) b,
        text_eqb→eq t.node_id [],
        b_set,
      )
