-- ===== src/Peer/Manager/Settled.antt =====
-- What is left when `installAndActivate` and its callers return.
use tailsync.Common.{
  ◌≡◌, ◌≢◌, refl, sym, ap, ◌∙◌, Bool, true, false, not, Option, none, some, [], ◌⊎◌, Text, nat_eqb,
  nat_eqb→eq, nat_eqb_refl, text_key, nat_key, arith, inl, inr, Bool-cases, Option-cases, ℤ,
}
use tailsync.Common.Table.{get, get-put}
use tailsync.Proto.{Message}
use tailsync.Peer.Roster.{
  Ref, Roster, InstallResult, rejected, accepted, replaced, mapped, get_session, install,
  install_and_close, close_loser, close_session, remove_if_current, discard_session, decide_inbound,
}
use tailsync.Peer.Handshake.{
  HandshakeError, Inbound, inbound_handshake, inbound_handshake-accepted, verified,
}
use tailsync.Peer.Manager.{
  is_closed, still_current, activate_if_current, activate_installed, install_and_activate, up,
  up_if, handle_inbound, new_session,
}

-- What a call did with the session under a reference: it is the roster's own and open, or closed.
abbrev pub Settled : Ref → Roster × Bool → Type 0
Settled ref (r, ok) = (still_current r ref ≡ ok) × (is_closed r ref ≡ not ok)

close_session_closed : (r : Roster) (ref : Ref) → is_closed (close_session r ref) ref ≡ true
unfolding is_closed close_session
close_session_closed r ref = elim (Option-cases (get ref r.store)) [
  | inl missing ↦ rw (missing, close_session) (ground (arith, missing))
  | inr (s, there) ↦
      rw (there, close_session)
        (ground (
          arith,
          get-put ref ref (record s { closed = true; healthy_flag = false }) r.store,
          nat_eqb_refl ref,
        ))
]

closed_not_current : (r : Roster) (ref : Ref) → is_closed r ref ≡ true → still_current r ref ≡ false
unfolding is_closed still_current get_session mapped
closed_not_current r ref c = elim (Option-cases (get ref r.store)) [
  | inl missing ↦ ground (arith, missing)
  | inr (s, there) ↦ elim (Option-cases (get s.node_id r.sessions)) [
    | inl unmapped ↦ ground (arith, there, unmapped)
    | inr (cur, at) ↦ elim (Bool-cases (nat_eqb cur ref)) [
      | inl same ↦
          let there' : get cur r.store ≡ some s =
            ap (λ (k : Ref). get k r.store) (nat_eqb→eq cur ref same) ∙ there in
          ground (arith, c, there, at, there')
      | inr other ↦ elim (Option-cases (get cur r.store)) [
        | inl lost ↦ ground (arith, there, at, lost)
        | inr (t, found) ↦ ground (arith, there, at, found, other)
      ]
    ]
  ]
]

closed-Settled : (r : Roster) (ref : Ref) → Settled ref (close_session r ref, false)
closed-Settled r ref = (
  closed_not_current (close_session r ref) ref (close_session_closed r ref),
  close_session_closed r ref,
)

activate_if_current-Settled :
    (ended : Bool) (meanwhile : Roster → Roster) (r : Roster) (ref : Ref)
    → Settled ref (activate_if_current ended meanwhile r ref)
unfolding activate_if_current discard_session
activate_if_current-Settled ended meanwhile r ref = ground (
  arith,
  closed-Settled (remove_if_current r ref).0 ref,
  closed-Settled (remove_if_current (meanwhile r) ref).0 ref,
)

activate_installed-Settled :
    (ended : Bool) (meanwhile : Roster → Roster) (ref : Ref)
    (p : Roster × (InstallResult × Option Ref))
    → Settled ref (activate_installed ended meanwhile ref (close_loser ref p))
unfolding activate_installed close_loser
activate_installed-Settled ended meanwhile ref (r, (rejected, old)) = closed-Settled r ref
activate_installed-Settled ended meanwhile ref (r, (accepted, old)) =
    activate_if_current-Settled ended meanwhile r ref
activate_installed-Settled ended meanwhile ref (r, (replaced, none)) =
    activate_if_current-Settled ended meanwhile r ref
activate_installed-Settled ended meanwhile ref (r, (replaced, some o)) =
    activate_if_current-Settled ended meanwhile (close_session r o) ref

-- Whatever other goroutines do while the session's loops are started, when an installation returns
-- with no error its session is the one that the roster gives for its node, and open; and when it
-- returns an error, the session is closed and not the roster's.
pub install_and_activate-Settled :
    (ended : Bool) (meanwhile : Roster → Roster) (r : Roster) (ref : Ref)
    → Settled ref (install_and_activate ended meanwhile r ref)
unfolding install_and_activate install_and_close
install_and_activate-Settled ended meanwhile r ref =
    activate_installed-Settled ended meanwhile ref (install r (some ref))

up_if_up :
    (id id' : Text) (p : Roster × Bool)
    → (up_if id p).1 ≡ up id'
    → (id ≡ id') × (p.1 ≡ true) × ((up_if id p).0 ≡ p.0)
up_if_up id id' (r, true) e = ground (arith, e)
up_if_up id id' (r, false) e = absurd (ground (arith, e))

module _ (render : HandshakeError → Text) (local_id : Text) (local_port : ℤ) where
  Inbound-cases :
      (x : Inbound)
      → ((id : Text) × (port : ℤ) × (x ≡ Inbound.accepted id port))
        ⊎ (((e : HandshakeError) × (x ≡ Inbound.rejected e))
            ⊎ ((id : Text) × (port : ℤ) × (x ≡ Inbound.turned_away id port)))
  Inbound-cases (Inbound.accepted id port) = inl (id, port, refl)
  Inbound-cases (Inbound.rejected e) = inr (inl (e, refl))
  Inbound-cases (Inbound.turned_away id port) = inr (inr (id, port, refl))

  -- When a connection that came in counts as up for a node, that node is another one, its name was
  -- not refused by the roster of the moment and was verified where names are, and its session is the
  -- roster's own for it and open.
  pub handle_inbound-up :
      (ended : Bool) (meanwhile : Roster → Roster) (verify : Option (Text → Bool)) (sent : Bool)
      (r r' : Roster) (ref : Ref) (back : ℤ → Text) (first : Option Message) (id : Text)
      → (handle_inbound render local_id local_port ended meanwhile verify sent r r' ref back
          first).1
        ≡ up id
      → (id ≢ [])
        × (id ≢ local_id)
        × (decide_inbound local_id r id ≡ true)
        × (verified verify id ≡ true)
        × (still_current
              (handle_inbound render local_id local_port ended meanwhile verify sent r r' ref back
                first).0
              ref
            ≡ true)
        × (is_closed
              (handle_inbound render local_id local_port ended meanwhile verify sent r r' ref back
                first).0
              ref
            ≡ false)
  unfolding handle_inbound
  handle_inbound-up ended meanwhile verify sent r r' ref back first id e =
      elim (Inbound-cases
        (inbound_handshake render local_id local_port (decide_inbound local_id r) verify sent
          first).1) [
            | inr (inl (x, bad)) ↦ absurd (ground (arith, bad, e))
            | inr (inr (i, port, bad)) ↦ absurd (ground (arith, bad, e))
            | inl (i, port, let_in) ↦
                let made : Roster = new_session r' ref local_id i (back port) false in
                let p : Roster × Bool = install_and_activate ended meanwhile made ref in
                let opened : (up_if i p).1 ≡ up id = ground (arith, let_in, e) in
                let (same, ok, left) = up_if_up i id p opened in
                let (named, other, fair, holds, reply, sent_msg) =
                  inbound_handshake-accepted render local_id local_port (decide_inbound local_id r)
                    verify sent first i port let_in in
                let (current, open_still) = install_and_activate-Settled ended meanwhile made ref in
                let end : (handle_inbound render local_id local_port ended meanwhile verify sent r
                      r' ref back first).0
                    ≡ p.0 =
                  ground (arith, let_in, left) in
                (
                  λ z. named (same ∙ z),
                  λ z. other (same ∙ z),
                  ap (decide_inbound local_id r) (sym same) ∙ fair,
                  ap (verified verify) (sym same) ∙ holds,
                  ap (λ (x : Roster). still_current x ref) end ∙ current ∙ ok,
                  ap (λ (x : Roster). is_closed x ref) end ∙ open_still ∙ ap not ok,
                )
          ]
