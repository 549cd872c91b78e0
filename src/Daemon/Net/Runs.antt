-- ===== src/Daemon/Net/Runs.antt =====
-- The check of a Hello and a listing on a small tailnet.
use tailsync.Common.{
  ◌≡◌, refl, inl, inr, true, false, none, some, [], ◌∷◌, Text, text_eqb, text_key,
}
use tailsync.Daemon.MeshTrust.{
  MeshIdentity, Ordinary, Related, new_mesh_gate, allows, check_self_mesh_tag_config, tagged,
  contains, is_mullvad_identity, is_mullvad_dns_name, trim_suffix, has_suffix,
}
use tailsync.Daemon.Net.{
  PeerStatus, Status, WhoNode, GateCache, no_gate, tsnet, claimed_matches_who_is, match_candidates,
  candidates, mesh_identity_from_who_is, mesh_identity_from_peer_status, verify_peer_node_id,
  mesh_gate_for_hello, load_mesh_gate, store_mesh_gate, build_gate, passes_gate, list_status,
}
use tailsync.Daemon.Net.Hello.{Sound, Knows, IsKnownAs, verify_peer_node_id-Trusted}
use tailsync.Daemon.Net.Listed.{Listing, list_status-Listing}

abbrev alice : Text
alice = b'a' ∷ []

abbrev bob : Text
bob = b'b' ∷ []

abbrev status_of : Text → PeerStatus
status_of name = record {
  stable_id = name;
  dns_name = name;
  host_name = name;
  ips = (b'1' ∷ name) ∷ [];
  online = true;
  user = 4;
  sharee = false;
  tags = [];
}

abbrev tailnet : Status
tailnet = record { self = some (status_of alice); peers = some (status_of bob) ∷ none ∷ [] }

abbrev bob_node : WhoNode
bob_node = record {
  name = bob;
  stable_id = bob;
  computed_name = [];
  user = 4;
  tags = [];
  hostinfo = some (record { hostname = bob; sharee_node = false });
}

abbrev same_case : Text → Text
same_case t = t

abbrev empty_cache : GateCache
empty_cache = record { mesh_gate = no_gate; has_mesh_gate = false }

passes :
    (verify_peer_node_id same_case empty_cache true (some (some bob_node)) (some tailnet) [] bob).1
    ≡ true
unfolding verify_peer_node_id claimed_matches_who_is match_candidates candidates trim_suffix
    has_suffix mesh_gate_for_hello load_mesh_gate build_gate new_mesh_gate
    check_self_mesh_tag_config tagged mesh_identity_from_peer_status mesh_identity_from_who_is
    passes_gate allows is_mullvad_identity is_mullvad_dns_name contains store_mesh_gate
passes = refl

abbrev me : MeshIdentity
me = record { user = 4; sharee = false; tags = []; dns = alice }

me-Knows : Knows me (some tailnet)
unfolding mesh_identity_from_peer_status
me-Knows = inr (status_of alice, refl, refl)

verify_peer_node_id-Trusted_example :
    (n : WhoNode) × (peer : MeshIdentity) × (some (some bob_node) ≡ some (some n))
    × IsKnownAs same_case n bob
    × (mesh_identity_from_who_is (some n) ≡ some peer)
    × Ordinary same_case peer
    × Related same_case me [] peer
    × Sound me []
        (verify_peer_node_id same_case empty_cache true
          (some (some bob_node))
          (some tailnet)
          []
          bob).0
verify_peer_node_id-Trusted_example =
    verify_peer_node_id-Trusted same_case me empty_cache true (some (some bob_node)) (some tailnet)
      [] bob me-Knows (inl refl) passes

list_status-Listing_example :
    Listing same_case text_eqb
      (λ h. h)
      some
      (status_of alice)
      []
      tailnet.peers
      (list_status same_case text_eqb (λ h. h) some tsnet empty_cache tailnet [] alice)
list_status-Listing_example =
    list_status-Listing same_case text_eqb (λ h. h) some tsnet empty_cache tailnet (status_of alice)
      [] alice refl
