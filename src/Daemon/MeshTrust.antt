-- ===== src/Daemon/MeshTrust.antt =====
-- daemon/meshtrust.go: which nodes of the tailnet may join the mesh. `strings.ToLower` is a parameter.
use tailsync.Common.{
  ℕ, ◌-◌, ◌≡◌, ◌≢◌, ◌↔◌, ◌⊎◌, inl, inr, refl, Bool, true, false, ◌&&◌, ◌||◌, not, List, [], ◌∷◌,
  Text, leb, nat_eqb, text_eqb, text_eqb→eq, text_eqb_iff, if◌then◌else◌, length, take, drop, arith,
}

-- `slices.Contains`
unfoldable pub contains : List Text → Text → Bool
contains [] x = false
contains (t ∷ ts) x = let rest = contains ts x in text_eqb t x || rest

-- `strings.HasSuffix` and `strings.TrimSuffix`
unfoldable pub has_suffix : Text → Text → Bool
has_suffix s suffix =
    leb (length suffix) (length s) && text_eqb (drop (length s - length suffix) s) suffix

unfoldable pub trim_suffix : Text → Text → Text
unfolding has_suffix
trim_suffix s suffix = if has_suffix s suffix then take (length s - length suffix) s else s

abbrev pub mullvad_exit_node_tag : Text
mullvad_exit_node_tag =
    b't' ∷ b'a' ∷ b'g' ∷ b':' ∷ b'm' ∷ b'u' ∷ b'l' ∷ b'l' ∷ b'v' ∷ b'a' ∷ b'd' ∷ b'-' ∷ b'e' ∷ b'x'
    ∷ b'i' ∷ b't' ∷ b'-' ∷ b'n' ∷ b'o' ∷ b'd' ∷ b'e' ∷ []

abbrev pub mullvad_dns_suffix : Text
mullvad_dns_suffix =
    b'm' ∷ b'u' ∷ b'l' ∷ b'l' ∷ b'v' ∷ b'a' ∷ b'd' ∷ b'.' ∷ b't' ∷ b's' ∷ b'.' ∷ b'n' ∷ b'e' ∷ b't'
    ∷ []

pub record MeshIdentity : Type 0 where
  pub user : ℕ
  pub sharee : Bool
  pub tags : List Text
  pub dns : Text

pub record MeshGate : Type 0 where
  pub require_tag : Text
  pub user : ℕ

pub data GateError : Type 0 where
  untagged_with_tag tagged_without_tag tag_not_on_self : GateError

pub data GateResult : Type 0 where
  gate : MeshGate → GateResult
  refused : GateError → GateResult

unfoldable pub tagged : MeshIdentity → Bool
tagged id = not (nat_eqb (length id.tags) 0)

-- What `checkSelfMeshTagConfig` objects to.
pub data CheckResult : Type 0 where
  fine : CheckResult
  objects : GateError → CheckResult

unfoldable pub check_self_mesh_tag_config : MeshIdentity → Text → CheckResult
unfolding tagged
check_self_mesh_tag_config self mesh_tag =
    if not (tagged self)
    then (if not (text_eqb mesh_tag []) then objects untagged_with_tag else fine)
    else (if text_eqb mesh_tag []
        then objects tagged_without_tag
        else (if not (contains self.tags mesh_tag) then objects tag_not_on_self else fine))

unfoldable pub new_mesh_gate : MeshIdentity → Text → GateResult
unfolding check_self_mesh_tag_config tagged
new_mesh_gate self mesh_tag = elim (check_self_mesh_tag_config self mesh_tag) [
  | objects e ↦ refused e
  | fine ↦
      if tagged self
      then gate (record { require_tag = mesh_tag; user = 0 })
      else gate (record { require_tag = []; user = self.user })
]

tags_cases :
    (ts : List Text)
    → ((ts ≡ []) × (nat_eqb (length ts) 0 ≡ true)) ⊎ ((ts ≢ []) × (nat_eqb (length ts) 0 ≡ false))
tags_cases [] = inl (refl, refl)
tags_cases (t ∷ ts) = inr (λ e. cc, ground arith)

-- The two kinds of gate.
gate_cases :
    (self : MeshIdentity) (mesh_tag : Text) (g : MeshGate)
    → new_mesh_gate self mesh_tag ≡ gate g
    → ((self.tags ≢ [])
        × (mesh_tag ≢ [])
        × (contains self.tags mesh_tag ≡ true)
        × (g.require_tag ≡ mesh_tag))
      ⊎ ((self.tags ≡ []) × (mesh_tag ≡ []) × (g.require_tag ≡ []) × (g.user ≡ self.user))
unfolding new_mesh_gate check_self_mesh_tag_config tagged
gate_cases self mesh_tag g built = elim (tags_cases self.tags) [
  | inl (empty, e) ↦ inr (ground (arith, empty, e, built, text_eqb→eq mesh_tag []))
  | inr (full, e) ↦ inl (ground (arith, full, e, built, text_eqb_iff mesh_tag []))
]

module _ (to_lower : Text → Text) where
  unfoldable pub is_mullvad_dns_name : Text → Bool
  unfolding trim_suffix has_suffix
  is_mullvad_dns_name name =
      let dns : Text = to_lower (trim_suffix name (b'.' ∷ [])) in
      text_eqb dns mullvad_dns_suffix || has_suffix dns (b'.' ∷ mullvad_dns_suffix)

  unfoldable pub is_mullvad_identity : List Text → Text → Bool
  is_mullvad_identity tags dns =
      if contains tags mullvad_exit_node_tag then true else is_mullvad_dns_name dns

  unfoldable pub allows : MeshGate → MeshIdentity → Bool
  allows g peer =
      if peer.sharee || is_mullvad_identity peer.tags peer.dns
      then false
      else (if not (text_eqb g.require_tag [])
          then contains peer.tags g.require_tag
          else (if nat_eqb g.user 0 || nat_eqb peer.user 0
              then false
              else nat_eqb peer.user g.user))

  -- A node that the mesh admits in its own right.
  abbrev pub Ordinary : MeshIdentity → Type 0
  Ordinary id = (id.sharee ≡ false) × (is_mullvad_identity id.tags id.dns ≡ false)

  -- Membership, as the policy states it: both carry the mesh tag, or neither the tag setting nor tags
  -- are in play on this side and both belong to the same known user.
  abbrev pub Related : MeshIdentity → Text → MeshIdentity → Type 0
  Related self mesh_tag peer =
      ((self.tags ≢ [])
        × (mesh_tag ≢ [])
        × (contains self.tags mesh_tag ≡ true)
        × (contains peer.tags mesh_tag ≡ true))
      ⊎ ((self.tags ≡ []) × (mesh_tag ≡ []) × (peer.user ≡ self.user) × (self.user ≢ 0))

  -- A gate that could be built lets a peer in exactly if the peer is neither shared in nor a Mullvad
  -- exit node, and is related to this node by the mesh tag or by its user.
  pub allows-new_mesh_gate :
      (self peer : MeshIdentity) (mesh_tag : Text) (g : MeshGate)
      → new_mesh_gate self mesh_tag ≡ gate g
      → (allows g peer ≡ true) ↔ (Ordinary peer × Related self mesh_tag peer)
  unfolding allows
  allows-new_mesh_gate self peer mesh_tag g built = elim (gate_cases self mesh_tag g built) [
    | inl (tagged_self, set, on_self, tag) ↦
        rw (tag, allows) (ground (arith, tagged_self, set, on_self, text_eqb_iff mesh_tag []))
    | inr (untagged, unset, tag, user) ↦ rw (tag, user, allows) (ground (arith, untagged, unset))
  ]

  -- Trust is mutual: where two nodes, neither of them shared in or a Mullvad node, both build a gate
  -- with the same mesh tag, one lets the other in exactly if the other lets it in.
  pub allows_sym :
      (a b : MeshIdentity) (mesh_tag : Text) (g h : MeshGate)
      → Ordinary a
      → Ordinary b
      → new_mesh_gate a mesh_tag ≡ gate g
      → new_mesh_gate b mesh_tag ≡ gate h
      → allows g b ≡ allows h a
  unfolding allows
  allows_sym a b mesh_tag g h oa ob ga gb = elim (gate_cases a mesh_tag g ga) [
    | inl (ta, set, ca, ra) ↦ elim (gate_cases b mesh_tag h gb) [
      | inl (tb, set', cb, rb) ↦
          rw (ra, rb, allows) (ground (arith, oa, ob, text_eqb_iff mesh_tag [], set, ca, cb))
      | inr (tb, unset, rb, ub) ↦ absurd (set unset)
    ]
    | inr (ta, unset, ra, ua) ↦ elim (gate_cases b mesh_tag h gb) [
      | inl (tb, set, cb, rb) ↦ absurd (set unset)
      | inr (tb, unset', rb, ub) ↦ rw (ra, rb, ua, ub, allows) (ground (arith, oa, ob))
    ]
  ]
