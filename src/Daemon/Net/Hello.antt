-- ===== src/Daemon/Net/Hello.antt =====
-- Who passes the check of a Hello: `verifyPeerNodeID` with the cached gate.
use tailsync.Common.{
  ◌≡◌, ◌≢◌, ◌⊎◌, ◌∙◌, sym, ap, inl, inr, refl, Bool, List, [], ◌∷◌, ◌++◌, text_eqb, text_eqb→eq,
  length, take, drop, take-append-drop, All, All-append, not, if◌then◌else◌, true, false, Option,
  none, some, Text, arith, Bool-cases, Option-cases,
}
use tailsync.Daemon.MeshTrust.{
  MeshIdentity, MeshGate, GateError, GateResult, gate, refused, new_mesh_gate, Ordinary, Related,
  allows-new_mesh_gate, trim_suffix,
}
use tailsync.Daemon.Net.{
  PeerStatus, Hostinfo, has_prefix, dot, candidates, match_candidates, Status, WhoNode, GateCache,
  load_mesh_gate, store_mesh_gate, build_gate, mesh_gate_for_hello, mesh_identity_from_peer_status,
  mesh_identity_from_who_is, claimed_matches_who_is, passes_gate, verify_peer_node_id,
}

-- The cache is empty, or its gate was built from the identity of this node.
abbrev pub Sound : MeshIdentity → Text → GateCache → Type 0
Sound self mesh_tag c = (c.has_mesh_gate ≡ false) ⊎ (new_mesh_gate self mesh_tag ≡ gate c.mesh_gate)

-- A status, if there is one, tells nothing of this node or its identity.
abbrev pub Knows : MeshIdentity → Option Status → Type 0
Knows self none = Unit
Knows self (some st) =
    (st.self ≡ none)
    ⊎ ((me : PeerStatus) × (st.self ≡ some me) × (mesh_identity_from_peer_status (some me) ≡ self))

pub GateResult-cases :
    (r : GateResult) → ((g : MeshGate) × (r ≡ gate g)) ⊎ ((e : GateError) × (r ≡ refused e))
GateResult-cases (gate g) = inl (g, refl)
GateResult-cases (refused e) = inr (e, refl)

-- The cache stays sound, and a gate that comes with it is one.
abbrev SoundGate : MeshIdentity → Text → GateCache × Option MeshGate → Type 0
SoundGate self mesh_tag (c, none) = Sound self mesh_tag c
SoundGate self mesh_tag (c, some g) = Sound self mesh_tag c × (new_mesh_gate self mesh_tag ≡ gate g)

build_gate-SoundGate :
    (c : GateCache) (self : MeshIdentity) (mesh_tag : Text)
    → Sound self mesh_tag c
    → SoundGate self mesh_tag (build_gate c self mesh_tag)
unfolding build_gate store_mesh_gate
build_gate-SoundGate c self mesh_tag sound = elim (GateResult-cases (new_mesh_gate self mesh_tag)) [
  | inl (g, built) ↦ rw (built, build_gate) (inr built, built)
  | inr (e, bad) ↦ rw (bad, build_gate) sound
]

empty_gate-SoundGate :
    (c : GateCache) (status : Option Status) (self : MeshIdentity) (mesh_tag : Text)
    → Knows self status
    → c.has_mesh_gate ≡ false
    → SoundGate self mesh_tag (mesh_gate_for_hello c status mesh_tag)
unfolding mesh_gate_for_hello load_mesh_gate
empty_gate-SoundGate c none self mesh_tag knows empty = rw (empty, mesh_gate_for_hello) (inl empty)
empty_gate-SoundGate c (some st) self mesh_tag (inl lost) empty =
    rw (empty, lost, mesh_gate_for_hello) (inl empty)
empty_gate-SoundGate c (some st) self mesh_tag (inr (me, there, same)) empty =
    rw (empty, there, mesh_gate_for_hello)
      (rw same (build_gate-SoundGate c self mesh_tag (inl empty)))

mesh_gate_for_hello-SoundGate :
    (c : GateCache) (status : Option Status) (self : MeshIdentity) (mesh_tag : Text)
    → Knows self status
    → Sound self mesh_tag c
    → SoundGate self mesh_tag (mesh_gate_for_hello c status mesh_tag)
unfolding mesh_gate_for_hello load_mesh_gate
mesh_gate_for_hello-SoundGate c status self mesh_tag knows (inl empty) =
    empty_gate-SoundGate c status self mesh_tag knows empty
mesh_gate_for_hello-SoundGate c status self mesh_tag knows (inr built) =
    elim (Bool-cases c.has_mesh_gate) [
      | inl has ↦ rw (has, mesh_gate_for_hello) (inr built, built)
      | inr empty ↦ empty_gate-SoundGate c status self mesh_tag knows empty
    ]

SoundGate-Sound :
    (self : MeshIdentity) (mesh_tag : Text) (r : GateCache × Option MeshGate)
    → SoundGate self mesh_tag r
    → Sound self mesh_tag r.0
SoundGate-Sound self mesh_tag (c, none) h = h
SoundGate-Sound self mesh_tag (c, some g) h = h.0

-- The names of a node: its full name without the last dot, its stable ID, its computed name, and the
-- name of its host.
abbrev pub IsNameOf : WhoNode → Text → Type 0
IsNameOf n name =
    (trim_suffix n.name dot ≡ name)
    ⊎ (n.stable_id ≡ name)
    ⊎ (n.computed_name ≡ name)
    ⊎ ((h : Hostinfo) × (n.hostinfo ≡ some h) × (h.hostname ≡ name))

set_name : (P : Text → Type 0) (t : Text) → P t → All P (if not (text_eqb t []) then t ∷ [] else [])
set_name P [] h = tt
set_name P (c ∷ t) h = (h, tt)

candidates-All : (n : WhoNode) → All (IsNameOf n) (candidates n)
unfolding candidates
candidates-All n = elim (Option-cases n.hostinfo) [
  | inl hidden ↦
      rw hidden
        (inl refl, (inr (inl refl), set_name (IsNameOf n) n.computed_name (inr (inr (inl refl)))))
  | inr (h, there) ↦ rw there (
    inl refl,
    (
      inr (inl refl),
      All-append (IsNameOf n) (if not (text_eqb h.hostname []) then h.hostname ∷ [] else [])
          (if not (text_eqb n.computed_name []) then n.computed_name ∷ [] else [])
          (set_name (IsNameOf n) h.hostname (inr (inr (inr (h, there, refl)))))
          (set_name (IsNameOf n) n.computed_name (inr (inr (inl refl)))),
    ),
  )
]

-- A text that begins with another one.
abbrev pub BeginsWith : Text → Text → Type 0
BeginsWith s prefix = (rest : Text) × (s ≡ prefix ++ rest)

has_prefix-BeginsWith : (s prefix : Text) → has_prefix s prefix ≡ true → BeginsWith s prefix
unfolding has_prefix
has_prefix-BeginsWith s prefix h =
    let same : take (length prefix) s ≡ prefix =
      text_eqb→eq (take (length prefix) s) prefix (ground (arith, h)) in
    (
      drop (length prefix) s,
      sym (take-append-drop (length prefix) s)
          ∙ ap (λ (t : Text). t ++ drop (length prefix) s) same,
    )

module _ (to_lower : Text → Text) where
  -- Case and a last dot aside, the claim is a nonempty name of the node, or stands in front of a dot
  -- in one.
  abbrev pub Matches : Text → Text → Type 0
  Matches claimed name =
      (to_lower (trim_suffix name dot) ≢ [])
      × ((to_lower (trim_suffix name dot) ≡ to_lower (trim_suffix claimed dot))
          ⊎ BeginsWith (to_lower (trim_suffix name dot))
              (to_lower (trim_suffix claimed dot) ++ dot))

  -- One of the names matches.
  abbrev AnyMatches : Text → List Text → Type 0
  AnyMatches claimed [] = ⊥
  AnyMatches claimed (c ∷ cs) = Matches claimed c ⊎ AnyMatches claimed cs

  match_candidates-AnyMatches :
      (claimed : Text) (cs : List Text)
      → match_candidates to_lower (to_lower (trim_suffix claimed dot)) cs ≡ true
      → AnyMatches claimed cs
  unfolding match_candidates
  match_candidates-AnyMatches claimed [] e = absurd (ground (arith, e))
  match_candidates-AnyMatches claimed (c ∷ cs) e =
      let name : Text = to_lower (trim_suffix c dot) in
      let want : Text = to_lower (trim_suffix claimed dot) in
      elim (Bool-cases (text_eqb name [])) [
        | inl empty ↦ inr (match_candidates-AnyMatches claimed cs (ground (arith, e, empty)))
        | inr named ↦
            let set : name ≢ [] = λ q. absurd (ground (arith, named, ap (λ t. text_eqb t []) q)) in
            elim (Bool-cases (text_eqb name want)) [
              | inl same ↦ inl (set, inl (text_eqb→eq name want same))
              | inr other ↦ elim (Bool-cases (has_prefix name (want ++ dot))) [
                | inl longer ↦ inl (set, inr (has_prefix-BeginsWith name (want ++ dot) longer))
                | inr apart ↦ inr (
                    match_candidates-AnyMatches claimed cs (ground (arith, e, named, other, apart)))
              ]
            ]
      ]

  -- A name of the node that matches the claim.
  abbrev pub IsKnownAs : WhoNode → Text → Type 0
  IsKnownAs n claimed = (claimed ≢ []) × ((name : Text) × IsNameOf n name × Matches claimed name)

  pick_name :
      (n : WhoNode) (claimed : Text) (cs : List Text)
      → All (IsNameOf n) cs
      → AnyMatches claimed cs
      → (name : Text) × IsNameOf n name × Matches claimed name
  pick_name n claimed [] names h = absurd h
  pick_name n claimed (c ∷ cs) names (inl m) = (c, names.0, m)
  pick_name n claimed (c ∷ cs) names (inr h) = pick_name n claimed cs names.1 h

  claimed_matches-IsKnownAs :
      (n : WhoNode) (claimed : Text)
      → claimed_matches_who_is to_lower claimed (some n) ≡ true
      → IsKnownAs n claimed
  unfolding claimed_matches_who_is
  claimed_matches-IsKnownAs n claimed e = (
    λ q. absurd (ground (arith, e, ap (λ t. text_eqb t []) q)),
    pick_name n claimed (candidates n) (candidates-All n)
        (match_candidates-AnyMatches claimed (candidates n) (ground (arith, e))),
  )

  passes_gate-Related :
      (self : MeshIdentity) (mesh_tag : Text) (r : GateCache × Option MeshGate)
      (id : Option MeshIdentity)
      → SoundGate self mesh_tag r
      → passes_gate to_lower r.1 id ≡ true
      → (peer : MeshIdentity) × (id ≡ some peer)
        × Ordinary to_lower peer
        × Related to_lower self mesh_tag peer
  unfolding passes_gate
  passes_gate-Related self mesh_tag (c, none) id h e = absurd (ground (arith, e))
  passes_gate-Related self mesh_tag (c, some g) none h e = absurd (ground (arith, e))
  passes_gate-Related self mesh_tag (c, some g) (some peer) (sound, built) e =
      let (ordinary, related) = (allows-new_mesh_gate to_lower self peer mesh_tag g built).0 e in
      (peer, refl, ordinary, related)

  pub verify_peer_node_id-Trusted :
      (self : MeshIdentity) (c : GateCache) (client : Bool) (who_is : Option (Option WhoNode))
      (status : Option Status) (mesh_tag claimed : Text)
      → Knows self status
      → Sound self mesh_tag c
      → (verify_peer_node_id to_lower c client who_is status mesh_tag claimed).1 ≡ true
      → (n : WhoNode) × (peer : MeshIdentity) × (who_is ≡ some (some n))
        × IsKnownAs n claimed
        × (mesh_identity_from_who_is (some n) ≡ some peer)
        × Ordinary to_lower peer
        × Related to_lower self mesh_tag peer
        × Sound self mesh_tag
            (verify_peer_node_id to_lower c client who_is status mesh_tag claimed).0
  unfolding verify_peer_node_id
  verify_peer_node_id-Trusted self c client none status mesh_tag claimed knows sound e =
      absurd (ground (arith, e))
  verify_peer_node_id-Trusted self c client (some none) status mesh_tag claimed knows sound e =
      absurd (ground (arith, e))
  verify_peer_node_id-Trusted self c false (some (some n)) status mesh_tag claimed knows sound e =
      absurd (ground (arith, e))
  verify_peer_node_id-Trusted self c true (some (some n)) status mesh_tag claimed knows sound e =
      elim (Bool-cases (claimed_matches_who_is to_lower claimed (some n))) [
        | inr fails ↦ absurd (ground (arith, e, fails))
        | inl matches ↦
            let r : GateCache × Option MeshGate = mesh_gate_for_hello c status mesh_tag in
            let came : SoundGate self mesh_tag r =
              mesh_gate_for_hello-SoundGate c status self mesh_tag knows sound in
            let passed : passes_gate to_lower r.1 (mesh_identity_from_who_is (some n)) ≡ true =
              ground (arith, e, matches) in
            let (peer, id, ordinary, related) =
              passes_gate-Related self mesh_tag r (mesh_identity_from_who_is (some n)) came
                passed in
            (
              n,
              peer,
              refl,
              claimed_matches-IsKnownAs n claimed matches,
              id,
              ordinary,
              related,
              rw (matches, verify_peer_node_id) (SoundGate-Sound self mesh_tag r came),
            )
      ]
