-- ===== src/Peer/Manager.antt =====
-- internal/peer/manager.go: how a connection becomes a session, from either end. What other
-- goroutines do to the roster in between is an argument, as are the handshake's message, the dial and
-- the addresses.
pub mod Settled
use tailsync.Common.{
  ℕ, ◌≡◌, ◌≢◌, ◌⊎◌, inl, inr, refl, sym, ap, ◌∙◌, Bool, true, false, ◌&&◌, ◌||◌, not, Option, none,
  some, List, [], ◌∷◌, Text, text_eqb, text_eqb_refl, text_eqb_iff, nat_eqb, nat_eqb_refl, text_key,
  nat_key, if◌then◌else◌, arith, Bool-cases, Option-cases, ℤ, clamp,
}
use tailsync.Common.Table.{Table, get, put, del, get-put, get-del}
use tailsync.Proto.{Message}
use tailsync.Peer.Roster.{
  Session, Ref, Roster, InstallResult, healthy, get_session, mapped, install_and_close,
  close_session, remove_if_current, discard_session, decide_inbound,
}
use tailsync.Peer.Roster.{rejected, accepted, replaced}
use tailsync.Peer.Handshake.{
  HandshakeError, Inbound, Outbound, inbound_handshake, outbound_handshake, connected, refused,
  already_connected, verified,
}
use tailsync.Peer.Handshake as Handshake

-- `newSession`, under a reference that is new.
unfoldable pub new_session : Roster → Ref → Text → Text → Text → Bool → Roster
new_session r ref local_id node_id addr dialer = record r {
  store =
      put ref
        (record {
          node_id = node_id;
          local_id = local_id;
          addr = addr;
          dialer = dialer;
          healthy_flag = true;
          closed = false;
        })
        r.store;
}

abbrev pub opt_eqb : Option Ref → Ref → Bool
opt_eqb none ref = false
opt_eqb (some r) ref = nat_eqb r ref

-- `Closed` of a session in the store; a missing one is nil.
unfoldable pub is_closed : Roster → Ref → Bool
is_closed r ref = elim (get ref r.store) [ none ↦ true | some s ↦ s.closed ]

unfoldable pub still_current : Roster → Ref → Bool
still_current r ref = elim (get ref r.store) [
  | none ↦ false
  | some s ↦ opt_eqb (get_session r s.node_id) ref
]

-- `ended` is whether the run is over; `meanwhile` is what happens to the roster between the start of
-- the session's loops and the second look at it.
unfoldable pub activate_if_current : Bool → (Roster → Roster) → Roster → Ref → Roster × Bool
activate_if_current ended meanwhile r ref =
    if not (still_current r ref)
    then (discard_session r ref, false)
    else (if ended || is_closed r ref
        then (discard_session r ref, false)
        else (let r' : Roster = meanwhile r in
            if not (still_current r' ref) || is_closed r' ref
            then (discard_session r' ref, false)
            else (r', true)))

-- What `installAndActivate` does behind the installation.
unfoldable pub activate_installed :
    Bool → (Roster → Roster) → Ref → Roster × InstallResult → Roster × Bool
activate_installed ended meanwhile ref (r, rejected) = (r, false)
activate_installed ended meanwhile ref (r, accepted) = activate_if_current ended meanwhile r ref
activate_installed ended meanwhile ref (r, replaced) = activate_if_current ended meanwhile r ref

-- `installAndActivate`, with no error on `true`.
unfoldable pub install_and_activate : Bool → (Roster → Roster) → Roster → Ref → Roster × Bool
install_and_activate ended meanwhile r ref =
    activate_installed ended meanwhile ref (install_and_close r ref)

-- What is left of a connection: the node whose session is up, or none.
pub data Up : Type 0 where
  up : Text → Up
  down : Up

abbrev pub up_if : Text → Roster × Bool → Roster × Up
up_if id (r, true) = (r, up id)
up_if id (r, false) = (r, down)

module _ (render : HandshakeError → Text) (local_id : Text) (local_port : ℤ) where
  -- `handleInbound`. `decide` looks at the roster `r` of its moment, and the session is installed in
  -- the roster `r'` that is there after the handshake.
  unfoldable pub handle_inbound :
      Bool
      → (Roster → Roster)
      → Option (Text → Bool)
      → Bool
      → Roster
      → Roster
      → Ref
      → (ℤ → Text)
      → Option Message
      → Roster × Up
  handle_inbound ended meanwhile verify sent r r' ref back first =
      elim (inbound_handshake render local_id local_port (decide_inbound local_id r) verify sent
        first).1 [
          | Inbound.rejected e ↦ (r', down)
          | Inbound.turned_away id port ↦ (r', down)
          | Inbound.accepted id port ↦ up_if id (
              install_and_activate ended meanwhile
                (new_session r' ref local_id id (back port) false) ref)
        ]

-- What `dialAndInstall` returns: nothing was to be done, an error, or a session.
pub data Dialed : Type 0 where
  skipped : Dialed
  dial_failed : Dialed
  dial_refused : HandshakeError → Dialed
  dialed : Text → Dialed

-- Whether the healthy session of a node makes a dial needless.
unfoldable pub has_healthy : Roster → Text → Bool
has_healthy r id = if text_eqb id [] then false else elim (get_session r id) [
  | none ↦ false
  | some ref ↦ elim (get ref r.store) [ none ↦ false | some s ↦ healthy s ]
]

-- Whether `ConnectedAddrs` has an address.
unfoldable pub has_addr : Table Text Ref → Table ℕ Session → Text → Bool
has_addr [] store addr = false
has_addr ((id, ref) ∷ m) store addr =
    let rest = has_addr m store addr in
    elim (get ref store) [
      | none ↦ rest
      | some s ↦
          if not s.closed && (healthy s && (not (text_eqb s.addr []) && text_eqb s.addr addr))
          then true
          else rest
    ]

module _ (local_id : Text) where
  -- `dialAndInstall` from the answer to the Hello on. `claims` is the check of the answered name
  -- against the address that was dialled, `back` the address to keep for the answered port.
  unfoldable pub install_dialed :
      Bool
      → (Roster → Roster)
      → Option (Text → Bool)
      → Roster
      → Ref
      → (ℤ → Text)
      → Outbound
      → Roster × Dialed
  install_dialed ended meanwhile claims r ref back (already_connected id port) = (r, dial_failed)
  install_dialed ended meanwhile claims r ref back (refused e) = (r, dial_refused e)
  install_dialed ended meanwhile claims r ref back (connected id port) =
      if text_eqb id local_id
      then (r, dial_refused HandshakeError.connected_to_self)
      else (if not (verified claims id)
          then (r, dial_refused HandshakeError.identity_mismatch)
          else (let (r', ok) =
                install_and_activate ended meanwhile
                  (new_session r ref local_id id (back port) true) ref in
              (r', (if ok then dialed id else dial_failed))))

  -- `dialAndInstall` for an address and the node that is expected there, if any. The tests look at
  -- the roster `r`; the answer comes when it is `r'`. `dials` is whether the dial succeeds.
  unfoldable pub dial_and_install :
      Bool
      → (Roster → Roster)
      → Option (Text → Bool)
      → Roster
      → Roster
      → Ref
      → (ℤ → Text)
      → Text
      → Text
      → Bool
      → Option Message
      → Roster × Dialed
  dial_and_install ended meanwhile claims r r' ref back addr node_id dials answer =
      if has_healthy r node_id || has_addr r.sessions r.store addr
      then (r', skipped)
      else (if not dials
          then (r', dial_failed)
          else install_dialed ended meanwhile claims r' ref back
              (outbound_handshake local_id answer))
