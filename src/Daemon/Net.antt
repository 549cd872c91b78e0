-- ===== src/Daemon/Net.antt =====
-- daemon/net.go, and the adapters of daemon/meshtrust.go: what is made of the answers of Tailscale's
-- LocalAPI. The client is a parameter, as are `strings.ToLower`, `strings.EqualFold` and
-- `net.JoinHostPort` (with the port in decimal) and `net.SplitHostPort`; an IP address is its text.
pub mod Hello
pub mod Listed
mod Runs
use tailsync.Common.{
  ℕ, ◌-◌, ◌≡◌, Bool, true, false, ◌&&◌, ◌||◌, not, Option, none, some, List, [], ◌∷◌, ◌++◌, Text,
  leb, nat_eqb, text_eqb, if◌then◌else◌, length, take,
}
use tailsync.Daemon.MeshTrust.{
  MeshIdentity, MeshGate, GateResult, gate, refused, new_mesh_gate, allows, trim_suffix,
}

pub data NetMode : Type 0 where
  host tsnet plain other : NetMode

-- `ipnstate.PeerStatus`
pub record PeerStatus : Type 0 where
  pub stable_id : Text
  pub dns_name : Text
  pub host_name : Text
  pub ips : List Text
  pub online : Bool
  pub user : ℕ
  pub sharee : Bool
  pub tags : List Text

-- `ipnstate.Status`; the peers in the order in which the loop meets them.
pub record Status : Type 0 where
  pub self : Option PeerStatus
  pub peers : List (Option PeerStatus)

pub record Hostinfo : Type 0 where
  pub hostname : Text
  pub sharee_node : Bool

-- The node of a `WhoIs` answer; an invalid `Hostinfo` is `none`.
pub record WhoNode : Type 0 where
  pub name : Text
  pub stable_id : Text
  pub computed_name : Text
  pub user : ℕ
  pub tags : List Text
  pub hostinfo : Option Hostinfo

-- `strings.HasPrefix`
unfoldable pub has_prefix : Text → Text → Bool
has_prefix s prefix = leb (length prefix) (length s) && text_eqb (take (length prefix) s) prefix

abbrev pub dot : Text
dot = b'.' ∷ []

unfoldable pub bind_addrs_from_tailscale_ips : (Text → Bool) → (Text → Text) → List Text → List Text
bind_addrs_from_tailscale_ips is_valid join [] = []
bind_addrs_from_tailscale_ips is_valid join (ip ∷ ips) =
    let rest = bind_addrs_from_tailscale_ips is_valid join ips in
    if not (is_valid ip) then rest else join ip ∷ rest

unfoldable pub node_id_from_self : Option PeerStatus → Text
node_id_from_self none = []
node_id_from_self (some self) =
    let dns : Text = trim_suffix self.dns_name dot in
    if not (text_eqb dns [])
    then dns
    else (if not (text_eqb self.host_name []) then self.host_name else self.stable_id)

unfoldable pub mesh_identity_from_peer_status : Option PeerStatus → MeshIdentity
mesh_identity_from_peer_status none = record { user = 0; sharee = false; tags = []; dns = [] }
mesh_identity_from_peer_status (some p) = record {
  user = p.user;
  sharee = p.sharee;
  tags = p.tags;
  dns = p.dns_name;
}

-- The argument is the node of the answer, if there is one.
unfoldable pub mesh_identity_from_who_is : Option WhoNode → Option MeshIdentity
mesh_identity_from_who_is none = none
mesh_identity_from_who_is (some n) = elim n.hostinfo [
  | none ↦ none
  | some h ↦ some (record { user = n.user; sharee = h.sharee_node; tags = n.tags; dns = n.name })
]

-- `tailcfg.CheckTag` as `check_tag`; `none` is its error.
unfoldable pub parse_mesh_tag : (Text → Text) → (Text → Text) → (Text → Bool) → Text → Option Text
parse_mesh_tag to_lower trim_space check_tag s =
    let t : Text = to_lower (trim_space s) in
    if text_eqb t [] then some [] else (if not (check_tag t) then none else some t)

-- The names under which a node may present itself.
unfoldable pub candidates : WhoNode → List Text
candidates n =
    let named : List Text = elim n.hostinfo [
      | none ↦ []
      | some h ↦ if not (text_eqb h.hostname []) then h.hostname ∷ [] else []
    ] in
    let computed : List Text =
      if not (text_eqb n.computed_name []) then n.computed_name ∷ [] else [] in
    trim_suffix n.name dot ∷ n.stable_id ∷ (named ++ computed)

module _ (to_lower : Text → Text) where
  unfoldable pub match_candidates : Text → List Text → Bool
  match_candidates want [] = false
  match_candidates want (c ∷ cs) =
      let name : Text = to_lower (trim_suffix c dot) in
      let rest = match_candidates want cs in
      if text_eqb name []
      then rest
      else (if text_eqb name want || has_prefix name (want ++ dot) then true else rest)

  unfoldable pub claimed_matches_who_is : Text → Option WhoNode → Bool
  unfolding match_candidates
  claimed_matches_who_is claimed none = false
  claimed_matches_who_is claimed (some n) =
      if text_eqb claimed []
      then false
      else match_candidates (to_lower (trim_suffix claimed dot)) (candidates n)

-- The cache of the gate: `meshGate` and `hasMeshGate`.
pub record GateCache : Type 0 where
  pub mesh_gate : MeshGate
  pub has_mesh_gate : Bool

abbrev pub no_gate : MeshGate
no_gate = record { require_tag = []; user = 0 }

unfoldable pub store_mesh_gate : GateCache → MeshGate → GateCache
store_mesh_gate c g = record { mesh_gate = g; has_mesh_gate = true }

unfoldable pub clear_mesh_gate : GateCache → GateCache
clear_mesh_gate c = record { mesh_gate = no_gate; has_mesh_gate = false }

unfoldable pub load_mesh_gate : GateCache → Option MeshGate
load_mesh_gate c = if not c.has_mesh_gate then none else some c.mesh_gate

-- `localClient`: whether there is a client. `started` is whether the tsnet server runs and hands one
-- out.
unfoldable pub local_client : NetMode → Bool → Bool
local_client tsnet started = started
local_client host started = true
local_client plain started = false
local_client other started = false

-- `none` for an error; the gate is stored once it is built.
unfoldable pub build_gate : GateCache → MeshIdentity → Text → GateCache × Option MeshGate
build_gate c self mesh_tag = elim (new_mesh_gate self mesh_tag) [
  | refused e ↦ (c, none)
  | gate g ↦ (store_mesh_gate c g, some g)
]

-- `status` is what `StatusWithoutPeers` gives.
unfoldable pub mesh_gate_for_hello : GateCache → Option Status → Text → GateCache × Option MeshGate
mesh_gate_for_hello c status mesh_tag = elim (load_mesh_gate c) [
  | some g ↦ (c, some g)
  | none ↦ elim status [
    | none ↦ (c, none)
    | some st ↦ elim st.self [
      | none ↦ (c, none)
      | some self ↦ build_gate c (mesh_identity_from_peer_status (some self)) mesh_tag
    ]
  ]
]

module _ (to_lower : Text → Text) where
  -- The last look of `verifyPeerNodeID`.
  unfoldable pub passes_gate : Option MeshGate → Option MeshIdentity → Bool
  passes_gate none id = false
  passes_gate (some g) none = false
  passes_gate (some g) (some id) = allows to_lower g id

  -- `who_is` is `none` for an error, and `some none` for an answer with no node. `true` is no error.
  unfoldable pub verify_peer_node_id :
      GateCache → Bool → Option (Option WhoNode) → Option Status → Text → Text → GateCache × Bool
  verify_peer_node_id c client who_is status mesh_tag claimed =
      if not client then (c, false) else elim who_is [
        | none ↦ (c, false)
        | some none ↦ (c, false)
        | some (some n) ↦
            if not (claimed_matches_who_is to_lower claimed (some n))
            then (c, false)
            else (let (c', g) = mesh_gate_for_hello c status mesh_tag in
                (c', passes_gate g (mesh_identity_from_who_is (some n))))
      ]

  module _ (equal_fold : Text → Text → Bool) (join : Text → Text) where
    -- The host to dial: the first address, or else the MagicDNS name.
    abbrev pub dial_host : PeerStatus → Text
    dial_host p =
        let first : Text = elim p.ips [ [] ↦ [] | ip ∷ rest ↦ ip ] in
        if text_eqb first [] then trim_suffix p.dns_name dot else first

    -- Whether a name is that of this node, or below it.
    abbrev pub named_like : Text → Text → Bool
    named_like self_dns dns =
        not (text_eqb self_dns [])
        && (not (text_eqb dns [])
            && (equal_fold dns self_dns || has_prefix (to_lower dns) (to_lower self_dns ++ dot)))

    -- One round of the loop of `peersFromStatus`.
    unfoldable pub peer_addr : PeerStatus → MeshGate → Option PeerStatus → Option Text
    peer_addr self g none = none
    peer_addr self g (some p) =
        if not p.online
        then none
        else (if not (text_eqb self.stable_id []) && text_eqb p.stable_id self.stable_id
            then none
            else (if not (allows to_lower g (mesh_identity_from_peer_status (some p)))
                then none
                else (if text_eqb (dial_host p) []
                    then none
                    else (if named_like (trim_suffix self.dns_name dot) (trim_suffix p.dns_name dot)
                        then none
                        else some (join (dial_host p))))))

    unfoldable pub peer_addrs : PeerStatus → MeshGate → List (Option PeerStatus) → List Text
    unfolding peer_addr
    peer_addrs self g [] = []
    peer_addrs self g (p ∷ ps) =
        let rest = peer_addrs self g ps in
        elim (peer_addr self g p) [ none ↦ rest | some addr ↦ addr ∷ rest ]

    unfoldable pub peers_from_status : Option Status → MeshGate → List Text
    peers_from_status none g = []
    peers_from_status (some st) g = elim st.self [
      | none ↦ []
      | some self ↦ peer_addrs self g st.peers
    ]

    -- `split_host` gives the host of an address, or nothing.
    module _ (split_host : Text → Option Text) where
      abbrev pub host_of : Text → Text
      host_of a = elim (split_host a) [ none ↦ a | some h ↦ h ]

      unfoldable pub drop_self : Text → List Text → List Text
      drop_self self [] = []
      drop_self self (a ∷ addrs) =
          let rest = drop_self self addrs in
          let h : Text = to_lower (host_of a) in
          if text_eqb h self || has_prefix h (self ++ dot) then rest else a ∷ rest

      unfoldable pub filter_self_hostname : List Text → Text → List Text
      filter_self_hostname addrs hostname =
          if text_eqb hostname [] then addrs else drop_self (to_lower hostname) addrs

      -- `refreshMeshGateFromSelf`
      unfoldable pub refresh_mesh_gate_from_self :
          GateCache → Option PeerStatus → Text → GateCache × Option MeshGate
      refresh_mesh_gate_from_self c self mesh_tag =
          elim (new_mesh_gate (mesh_identity_from_peer_status self) mesh_tag) [
            | refused e ↦ (clear_mesh_gate c, none)
            | gate g ↦ (store_mesh_gate c g, some g)
          ]

      -- The rest of `listPeers`, behind the refresh of the gate; in tsnet mode the configured hostname
      -- is left out too.
      abbrev pub list_with :
          NetMode → Status → Text → GateCache × Option MeshGate → GateCache × Option (List Text)
      list_with mode st hostname (c, none) = (c, none)
      list_with tsnet st hostname (c, some g) =
          (c, some (filter_self_hostname (peers_from_status (some st) g) hostname))
      list_with host st hostname (c, some g) = (c, some (peers_from_status (some st) g))
      list_with plain st hostname (c, some g) = (c, some (peers_from_status (some st) g))
      list_with other st hostname (c, some g) = (c, some (peers_from_status (some st) g))

      -- `listPeers` for a status that was fetched; `none` is an error.
      unfoldable pub list_status :
          NetMode → GateCache → Status → Text → Text → GateCache × Option (List Text)
      list_status mode c st mesh_tag hostname =
          list_with mode st hostname (refresh_mesh_gate_from_self c st.self mesh_tag)

      -- `started` is whether the tsnet server runs, `client` whether it hands out a client.
      unfoldable pub list_peers :
          NetMode
          → Bool
          → Bool
          → GateCache
          → Option Status
          → Text
          → Text
          → GateCache × Option (List Text)
      list_peers plain started client c status mesh_tag hostname = (c, some [])
      list_peers tsnet started client c status mesh_tag hostname =
          if not started
          then (c, some [])
          else (if not client then (c, none) else elim status [
            | none ↦ (c, none)
            | some st ↦ list_status tsnet c st mesh_tag hostname
          ])
      list_peers host started client c status mesh_tag hostname = elim status [
        | none ↦ (c, none)
        | some st ↦ list_status host c st mesh_tag hostname
      ]
      list_peers other started client c status mesh_tag hostname = elim status [
        | none ↦ (c, none)
        | some st ↦ list_status other c st mesh_tag hostname
      ]
