-- ===== src/Peer/Roster.antt =====
-- internal/peer/roster.go with the parts of internal/peer/session.go and internal/peer/manager.go
-- that decide which session with a node stays. Sessions are shared objects, so the roster holds
-- references into a store of sessions; closing one shows wherever the reference is held.
use tailsync.Common.{
  ℕ, Bool, true, false, ◌&&◌, ◌||◌, not, Option, none, some, [], Text, nat_eqb, text_eqb,
  if◌then◌else◌, text_key, nat_key, Ordering,
}
use tailsync.Common.Cmp.{cmp_text}
use tailsync.Common.Table.{Table, get, put, del}

pub record Session : Type 0 where
  pub node_id : Text
  pub local_id : Text
  pub addr : Text
  pub dialer : Bool
  pub healthy_flag : Bool
  pub closed : Bool

-- `Healthy`
unfoldable pub healthy : Session → Bool
healthy s = s.healthy_flag && not s.closed

-- A reference to a session.
abbrev pub Ref : Type 0
Ref = ℕ

-- A roster and the sessions of the process.
pub record Roster : Type 0 where
  pub sessions : Table Text Ref
  pub store : Table ℕ Session

pub data InstallResult : Type 0 where
  accepted rejected replaced : InstallResult

-- `min(localID, remoteID)`
unfoldable pub preferred_dialer : Text → Text → Text
preferred_dialer local_id remote_id = elim (cmp_text remote_id local_id) [
  | Ordering.lt ↦ remote_id
  | _ ↦ local_id
]

unfoldable pub dialer_node_id : Session → Text
dialer_node_id s = if s.dialer then s.local_id else s.node_id

unfoldable pub prefer_new_session : Session → Session → Bool
unfolding dialer_node_id
prefer_new_session new_s cur =
    if text_eqb new_s.local_id [] || text_eqb new_s.node_id []
    then false
    else (let preferred : Text = preferred_dialer new_s.local_id new_s.node_id in
        text_eqb (dialer_node_id new_s) preferred && not (text_eqb (dialer_node_id cur) preferred))

-- The session that stands under a node ID, whatever its condition.
unfoldable pub mapped : Roster → Text → Option (Ref × Session)
mapped r id = elim (get id r.sessions) [
  | none ↦ none
  | some ref ↦ elim (get ref r.store) [ none ↦ none | some s ↦ some (ref, s) ]
]

-- `Get`: the session under a node ID unless it is closed.
unfoldable pub get_session : Roster → Text → Option Ref
unfolding mapped
get_session r id = elim (mapped r id) [
  | none ↦ none
  | some (ref, s) ↦ if s.closed then none else some ref
]

abbrev pub set_mapped : Roster → Text → Ref → Roster
set_mapped r id ref = record r { sessions = put id ref r.sessions }

-- The roster, the result, and the session that was replaced. The argument `nil` is the missing
-- reference.
unfoldable pub install : Roster → Option Ref → Roster × (InstallResult × Option Ref)
unfolding mapped healthy
install r none = (r, (rejected, none))
install r (some ref) = elim (get ref r.store) [
  | none ↦ (r, (rejected, none))
  | some sess ↦
      if text_eqb sess.node_id [] then (r, (rejected, none)) else elim (mapped r sess.node_id) [
        | none ↦ (set_mapped r sess.node_id ref, (accepted, none))
        | some (old, cur) ↦
            if cur.closed
            then (set_mapped r sess.node_id ref, (replaced, some old))
            else (if not (healthy cur)
                then (set_mapped r sess.node_id ref, (replaced, some old))
                else (if prefer_new_session sess cur
                    then (set_mapped r sess.node_id ref, (replaced, some old))
                    else (r, (rejected, none))))
      ]
]

unfoldable pub remove_if_current : Roster → Ref → Roster × Bool
remove_if_current r ref = elim (get ref r.store) [
  | none ↦ (r, false)
  | some sess ↦ elim (get sess.node_id r.sessions) [
    | none ↦ (r, false)
    | some cur ↦
        if nat_eqb cur ref
        then (record r { sessions = del sess.node_id r.sessions }, true)
        else (r, false)
  ]
]

-- The two flags that `Close` sets.
unfoldable pub close_session : Roster → Ref → Roster
close_session r ref = elim (get ref r.store) [
  | none ↦ r
  | some s ↦ record r { store = put ref (record s { closed = true; healthy_flag = false }) r.store }
]

-- `decide` of `handleInbound`: whether a node that dialled is let in.
unfoldable pub decide_inbound : Text → Roster → Text → Bool
unfolding mapped healthy
decide_inbound local_id r remote_id = elim (mapped r remote_id) [
  | none ↦ true
  | some (ref, cur) ↦
      if cur.closed || not (healthy cur)
      then true
      else text_eqb (preferred_dialer local_id remote_id) remote_id
]

-- What `installAndActivate` does with the result of `Install`: the rejected or the replaced session
-- is closed, with its callback cleared.
unfoldable pub close_loser : Ref → Roster × (InstallResult × Option Ref) → Roster × InstallResult
close_loser ref (r, (rejected, old)) = (close_session r ref, rejected)
close_loser ref (r, (accepted, old)) = (r, accepted)
close_loser ref (r, (replaced, none)) = (r, replaced)
close_loser ref (r, (replaced, some o)) = (close_session r o, replaced)

unfoldable pub install_and_close : Roster → Ref → Roster × InstallResult
install_and_close r ref = close_loser ref (install r (some ref))

-- `discardSession`
unfoldable pub discard_session : Roster → Ref → Roster
discard_session r ref = close_session (remove_if_current r ref).0 ref
