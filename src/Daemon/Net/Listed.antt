-- ===== src/Daemon/Net/Listed.antt =====
-- Which nodes discovery gets to see: `listPeers`.
use mathlib.Core.Path.{subst}
use tailsync.Common.{
  ◌≡◌, ◌≢◌, ◌⊎◌, ◌||◌, inl, inr, refl, sym, Bool, true, Option, none, some, List, [], ◌∷◌, Text,
  arith, Bool-cases, Option-cases, All, text_eqb, text_eqb_iff, ◌++◌,
}
use tailsync.Daemon.MeshTrust.{GateError, refused}
use tailsync.Daemon.MeshTrust.{
  MeshGate, gate, new_mesh_gate, allows, Ordinary, Related, allows-new_mesh_gate,
}
use tailsync.Daemon.Net.{
  NetMode, host, tsnet, plain, other, Status, PeerStatus, GateCache, load_mesh_gate,
  store_mesh_gate, clear_mesh_gate, has_prefix, dot, mesh_identity_from_peer_status, peer_addr,
  peer_addrs, peers_from_status, dial_host, drop_self, filter_self_hostname, host_of,
  refresh_mesh_gate_from_self, list_with, list_status,
}
use tailsync.Daemon.Net.Hello.{GateResult-cases}

-- Membership in a list.
abbrev pub In : {A : Type 0} → A → List A → Type 0
In x [] = ⊥
In x (y ∷ ys) = (y ≡ x) ⊎ In x ys

All-widen {ℓ} :
    {A : Type ℓ} (P Q : A → Type 0) (xs : List A) → ((x : A) → P x → Q x) → All P xs → All Q xs
All-widen P Q [] f h = tt
All-widen P Q (x ∷ xs) f h = (f x h.0, All-widen P Q xs f h.1)

module _ (to_lower : Text → Text) (equal_fold : Text → Text → Bool) (join : Text → Text) where
  -- An address that comes from an online node other than this one that the gate lets in.
  abbrev pub Dialable : PeerStatus → MeshGate → List (Option PeerStatus) → Text → Type 0
  Dialable self g ps addr =
      (p : PeerStatus) × In (some p) ps
      × (addr ≡ join (dial_host to_lower equal_fold join p))
      × (p.online ≡ true)
      × ((self.stable_id ≡ []) ⊎ (p.stable_id ≢ self.stable_id))
      × (allows to_lower g (mesh_identity_from_peer_status (some p)) ≡ true)

  peer_addr_lem :
      (self p : PeerStatus) (g : MeshGate) (addr : Text)
      → peer_addr to_lower equal_fold join self g (some p) ≡ some addr
      → (addr ≡ join (dial_host to_lower equal_fold join p))
        × (p.online ≡ true)
        × ((self.stable_id ≡ []) ⊎ (p.stable_id ≢ self.stable_id))
        × (allows to_lower g (mesh_identity_from_peer_status (some p)) ≡ true)
  unfolding peer_addr
  peer_addr_lem self p g addr e = (
    ground (arith, e),
    ground (arith, e),
    elim (Bool-cases (text_eqb self.stable_id [])) [
      | inl unknown ↦ inl ((text_eqb_iff self.stable_id []).0 unknown)
      | inr known ↦
          inr (λ same. ground (arith, e, known, same, text_eqb_iff p.stable_id self.stable_id))
    ],
    ground (arith, e),
  )

  peer_addr-Dialable :
      (self : PeerStatus) (g : MeshGate) (o : Option PeerStatus) (ps : List (Option PeerStatus))
      (addr : Text)
      → peer_addr to_lower equal_fold join self g o ≡ some addr
      → Dialable self g (o ∷ ps) addr
  unfolding peer_addr
  peer_addr-Dialable self g none ps addr e = absurd (ground (arith, e))
  peer_addr-Dialable self g (some p) ps addr e =
      let (same, online, unlike, fair) = peer_addr_lem self p g addr e in
      (p, inl refl, same, online, unlike, fair)

  peer_addrs-Dialable :
      (self : PeerStatus) (g : MeshGate) (ps : List (Option PeerStatus))
      → All (Dialable self g ps) (peer_addrs to_lower equal_fold join self g ps)
  unfolding peer_addrs
  peer_addrs-Dialable self g [] = tt
  peer_addrs-Dialable self g (o ∷ ps) =
      let rest : All (Dialable self g (o ∷ ps)) (peer_addrs to_lower equal_fold join self g ps) =
        All-widen (Dialable self g ps) (Dialable self g (o ∷ ps))
          (peer_addrs to_lower equal_fold join self g ps)
          (λ addr (p, there, same, online, unlike, fair).
            (p, inr there, same, online, unlike, fair))
          (peer_addrs-Dialable self g ps) in
      elim (Option-cases (peer_addr to_lower equal_fold join self g o)) [
        | inl skipped ↦ rw (skipped, peer_addrs) rest
        | inr (addr, listed) ↦
            rw (listed, peer_addrs) (peer_addr-Dialable self g o ps addr listed, rest)
      ]

  -- What one Self is a gate for.
  abbrev pub Trusted : PeerStatus → Text → List (Option PeerStatus) → Text → Type 0
  Trusted self mesh_tag ps addr =
      (p : PeerStatus) × In (some p) ps
      × (addr ≡ join (dial_host to_lower equal_fold join p))
      × (p.online ≡ true)
      × ((self.stable_id ≡ []) ⊎ (p.stable_id ≢ self.stable_id))
      × Ordinary to_lower (mesh_identity_from_peer_status (some p))
      × Related to_lower (mesh_identity_from_peer_status (some self)) mesh_tag
          (mesh_identity_from_peer_status (some p))

  peers_from_status-Trusted :
      (st : Status) (self : PeerStatus) (mesh_tag : Text) (g : MeshGate)
      → st.self ≡ some self
      → new_mesh_gate (mesh_identity_from_peer_status (some self)) mesh_tag ≡ gate g
      → All
          (Trusted self mesh_tag st.peers)
          (peers_from_status to_lower equal_fold join (some st) g)
  unfolding peers_from_status
  peers_from_status-Trusted st self mesh_tag g here built =
      rw (here, peers_from_status)
        (All-widen (Dialable self g st.peers) (Trusted self mesh_tag st.peers)
          (peer_addrs to_lower equal_fold join self g st.peers)
          (λ addr (p, there, same, online, unlike, fair).
            let (ordinary, related) =
              (allows-new_mesh_gate to_lower (mesh_identity_from_peer_status (some self))
                  (mesh_identity_from_peer_status (some p)) mesh_tag g built).0
                fair in
            (p, there, same, online, unlike, ordinary, related))
          (peer_addrs-Dialable self g st.peers))

  module _ (split_host : Text → Option Text) where
    drop_self-All :
        (P : Text → Type 0) (self : Text) (addrs : List Text)
        → All P addrs
        → All P (drop_self to_lower equal_fold join split_host self addrs)
    unfolding drop_self
    drop_self-All P self [] h = tt
    drop_self-All P self (a ∷ addrs) h =
        let name : Text = to_lower (host_of to_lower equal_fold join split_host a) in
        elim (Bool-cases (text_eqb name self || has_prefix name (self ++ dot))) [
          | inl mine ↦ rw (mine, drop_self) (drop_self-All P self addrs h.1)
          | inr foreign ↦ rw (foreign, drop_self) (h.0, drop_self-All P self addrs h.1)
        ]

    filter_self_hostname-All :
        (P : Text → Type 0) (addrs : List Text) (hostname : Text)
        → All P addrs
        → All P (filter_self_hostname to_lower equal_fold join split_host addrs hostname)
    unfolding filter_self_hostname
    filter_self_hostname-All P addrs hostname h = elim (Bool-cases (text_eqb hostname [])) [
      | inl unset ↦ rw (unset, filter_self_hostname) h
      | inr set ↦ rw (set, filter_self_hostname) (drop_self-All P (to_lower hostname) addrs h)
    ]

    -- What a listing with a status that knows this node gives: trusted addresses and a cache with the
    -- gate of this node's identity, or, where its identity is refused a gate, an error and an empty cache.
    abbrev pub Listing :
        PeerStatus → Text → List (Option PeerStatus) → GateCache × Option (List Text) → Type 0
    Listing self mesh_tag ps (c, none) =
        (load_mesh_gate c ≡ none)
        × ((e : GateError) × (new_mesh_gate (mesh_identity_from_peer_status (some self)) mesh_tag
              ≡ refused e))
    Listing self mesh_tag ps (c, some addrs) =
        All (Trusted self mesh_tag ps) addrs
        × ((g : MeshGate) × (load_mesh_gate c ≡ some g)
            × (new_mesh_gate (mesh_identity_from_peer_status (some self)) mesh_tag ≡ gate g))

    -- What the refresh of the gate leaves.
    abbrev Refreshed : PeerStatus → Text → GateCache × Option MeshGate → Type 0
    Refreshed self mesh_tag (c, none) =
        (load_mesh_gate c ≡ none)
        × ((e : GateError) × (new_mesh_gate (mesh_identity_from_peer_status (some self)) mesh_tag
              ≡ refused e))
    Refreshed self mesh_tag (c, some g) =
        (load_mesh_gate c ≡ some g)
        × (new_mesh_gate (mesh_identity_from_peer_status (some self)) mesh_tag ≡ gate g)

    refresh-Refreshed :
        (c : GateCache) (self : PeerStatus) (mesh_tag : Text)
        → Refreshed self mesh_tag
            (refresh_mesh_gate_from_self to_lower equal_fold join split_host c (some self) mesh_tag)
    unfolding refresh_mesh_gate_from_self load_mesh_gate clear_mesh_gate store_mesh_gate
    refresh-Refreshed c self mesh_tag =
        elim (GateResult-cases
          (new_mesh_gate (mesh_identity_from_peer_status (some self)) mesh_tag)) [
            | inr (e, bad) ↦ rw (bad, refresh_mesh_gate_from_self) (refl, (e, bad))
            | inl (g, built) ↦ rw (built, refresh_mesh_gate_from_self) (refl, built)
          ]

    list_with-Listing :
        (mode : NetMode) (st : Status) (self : PeerStatus) (mesh_tag hostname : Text)
        (r : GateCache × Option MeshGate)
        → st.self ≡ some self
        → Refreshed self mesh_tag r
        → Listing self mesh_tag st.peers
            (list_with to_lower equal_fold join split_host mode st hostname r)
    list_with-Listing mode st self mesh_tag hostname (c, none) here h = h
    list_with-Listing tsnet st self mesh_tag hostname (c, some g) here (kept, built) = (
      filter_self_hostname-All (Trusted self mesh_tag st.peers)
          (peers_from_status to_lower equal_fold join (some st) g) hostname
          (peers_from_status-Trusted st self mesh_tag g here built),
      (g, kept, built),
    )
    list_with-Listing host st self mesh_tag hostname (c, some g) here (kept, built) =
        (peers_from_status-Trusted st self mesh_tag g here built, (g, kept, built))
    list_with-Listing plain st self mesh_tag hostname (c, some g) here (kept, built) =
        (peers_from_status-Trusted st self mesh_tag g here built, (g, kept, built))
    list_with-Listing other st self mesh_tag hostname (c, some g) here (kept, built) =
        (peers_from_status-Trusted st self mesh_tag g here built, (g, kept, built))

    pub list_status-Listing :
        (mode : NetMode) (c : GateCache) (st : Status) (self : PeerStatus)
        (mesh_tag hostname : Text)
        → st.self ≡ some self
        → Listing self mesh_tag st.peers
            (list_status to_lower equal_fold join split_host mode c st mesh_tag hostname)
    unfolding list_status
    list_status-Listing mode c st self mesh_tag hostname here =
        list_with-Listing mode st self mesh_tag hostname
          (refresh_mesh_gate_from_self to_lower equal_fold join split_host c st.self mesh_tag) here
          (subst
            (λ (o : Option PeerStatus).
              Refreshed self mesh_tag
                (refresh_mesh_gate_from_self to_lower equal_fold join split_host c o mesh_tag))
            (sym here) (refresh-Refreshed c self mesh_tag))
