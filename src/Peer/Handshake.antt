-- ===== src/Peer/Handshake.antt =====
-- internal/peer/handshake.go: the exchange on the first stream of a connection. What arrives on the
-- stream is an argument; `none` stands for a stream that fails or a message that cannot be decoded.
-- `render` is what `fmt` makes of an error, `split_host` and `join_host` are `net.SplitHostPort`
-- and `net.JoinHostPort` with the port in decimal.
use tailsync.Common.{
  ℕ, ◌≡◌, ◌≢◌, ◌⊎◌, refl, sym, Bool, true, false, ◌||◌, not, Option, none, some, [], Text, text_eqb,
  text_eqb_iff, text_key, eqb-eq_false, nat_eqb, if◌then◌else◌, arith, ℤ, int_eqb, clamp,
}
use tailsync.Proto.{
  MsgType, Header, Message, version, new_hello, new_hello_ok, new_already_connected, new_error,
}

pub data HandshakeError : Type 0 where
  stream_error expected_hello empty_node_id connected_to_self identity_mismatch encode_error
        unexpected_response :
      HandshakeError
  unsupported_version : ℤ → HandshakeError
  hello_error : Text → HandshakeError

-- What `outboundHandshake` returns.
pub data Outbound : Type 0 where
  connected : Text → ℤ → Outbound
  already_connected : Text → ℤ → Outbound
  refused : HandshakeError → Outbound

-- What `inboundHandshake` returns.
pub data Inbound : Type 0 where
  accepted : Text → ℤ → Inbound
  turned_away : Text → ℤ → Inbound
  rejected : HandshakeError → Inbound

unfoldable pub outbound_handshake : Text → Option Message → Outbound
outbound_handshake local_id none = refused stream_error
outbound_handshake local_id (some msg) =
    let h : Header = msg.header in
    elim h.msg_type [
      | MsgType.hello_ok ↦
          if not (int_eqb h.version version)
          then refused (unsupported_version h.version)
          else (if text_eqb h.node_id []
              then refused empty_node_id
              else (if text_eqb h.node_id local_id
                  then refused connected_to_self
                  else connected h.node_id h.port))
      | MsgType.already_connected ↦ already_connected h.node_id h.port
      | MsgType.error ↦ refused (hello_error h.error_text)
      | _ ↦ refused unexpected_response
    ]

abbrev pub is_hello : MsgType → Bool
is_hello MsgType.hello = true
is_hello _ = false

-- Whether a claimed name stands: `verify` is absent or says so.
abbrev pub verified : Option (Text → Bool) → Text → Bool
verified none id = true
verified (some holds) id = holds id

module _ (render : HandshakeError → Text) (local_id : Text) (local_port : ℤ) where
  -- A reply, and the error that is returned.
  abbrev pub fails_with : HandshakeError → Option Message × Inbound
  fails_with e = (some (new_error (render e)), rejected e)

  -- `inboundHandshake` from `decide` on; `sent` is whether the last reply could be written.
  unfoldable pub admit :
      (Text → Bool) → Option (Text → Bool) → Bool → Text → ℤ → Option Message × Inbound
  admit decide verify sent remote_id remote_port =
      if not (decide remote_id)
      then (some (new_already_connected local_id local_port), turned_away remote_id remote_port)
      else (if not (verified verify remote_id) then fails_with identity_mismatch else (
        some (new_hello_ok local_id local_port),
        (if sent then accepted remote_id remote_port else rejected encode_error),
      ))

  -- The reply that is written, and the result.
  unfoldable pub inbound_handshake :
      (Text → Bool) → Option (Text → Bool) → Bool → Option Message → Option Message × Inbound
  inbound_handshake decide verify sent none = (none, rejected stream_error)
  inbound_handshake decide verify sent (some msg) =
      let h : Header = msg.header in
      if not (is_hello h.msg_type)
      then fails_with expected_hello
      else (if not (int_eqb h.version version)
          then fails_with (unsupported_version h.version)
          else (if text_eqb h.node_id []
              then fails_with empty_node_id
              else (if text_eqb h.node_id local_id
                  then fails_with connected_to_self
                  else admit decide verify sent h.node_id h.port)))

-- The port to dial back, if any.
unfoldable pub dial_back_port : ℤ → ℤ → ℕ
dial_back_port advertised_port local_default =
    if nat_eqb (clamp advertised_port) 0 then clamp local_default else clamp advertised_port

unfoldable pub dial_back_addr : (Text → Option Text) → (Text → ℕ → Text) → Text → ℤ → ℤ → Text
unfolding dial_back_port
dial_back_addr split_host join_host remote_addr advertised_port local_default =
    elim (split_host remote_addr) [
      | none ↦ []
      | some host ↦
          if text_eqb host [] || nat_eqb (dial_back_port advertised_port local_default) 0
          then []
          else join_host host (dial_back_port advertised_port local_default)
    ]

module _ (render : HandshakeError → Text) where
  is_hello_eq : (t : MsgType) → is_hello t ≡ true → t ≡ MsgType.hello
  is_hello_eq t h = ground (arith, h)

  admit-accepted :
      (local_id : Text) (local_port : ℤ) (decide : Text → Bool) (verify : Option (Text → Bool))
      (sent : Bool) (rid id : Text) (rport port : ℤ)
      → (admit render local_id local_port decide verify sent rid rport).1 ≡ accepted id port
      → (rid ≡ id)
        × (rport ≡ port)
        × (decide id ≡ true)
        × (verified verify id ≡ true)
        × ((admit render local_id local_port decide verify sent rid rport).0
            ≡ some (new_hello_ok local_id local_port))
  unfolding admit
  admit-accepted local_id local_port decide verify sent rid id rport port e = ground (arith, e)

  -- A connection is let in only on a Hello of version 2 from another node, whose name is not empty,
  -- that the roster did not refuse and whose claim was verified where claims are.
  pub inbound_handshake-accepted :
      (local_id : Text) (local_port : ℤ) (decide : Text → Bool) (verify : Option (Text → Bool))
      (sent : Bool) (first : Option Message) (id : Text) (port : ℤ)
      → (inbound_handshake render local_id local_port decide verify sent first).1 ≡ accepted id port
      → (id ≢ [])
        × (id ≢ local_id)
        × (decide id ≡ true)
        × (verified verify id ≡ true)
        × ((inbound_handshake render local_id local_port decide verify sent first).0
            ≡ some (new_hello_ok local_id local_port))
        × ((msg : Message) × (first ≡ some msg)
            × (msg.header.msg_type ≡ MsgType.hello)
            × (int_eqb msg.header.version version ≡ true)
            × (msg.header.node_id ≡ id)
            × (msg.header.port ≡ port))
  unfolding inbound_handshake admit
  inbound_handshake-accepted local_id local_port decide verify sent none id port e =
      absurd (ground (arith, e))
  inbound_handshake-accepted local_id local_port decide verify sent (some msg) id port e =
      let admitted : ((admit render local_id local_port decide verify sent msg.header.node_id
              msg.header.port).1
            ≡ accepted id port)
          × (is_hello msg.header.msg_type ≡ true)
          × (int_eqb msg.header.version version ≡ true)
          × (text_eqb msg.header.node_id [] ≡ false)
          × (text_eqb msg.header.node_id local_id ≡ false) =
        ground (arith, e) in
      let (inner, kind, v2, named, other) = admitted in
      let (same, same_port, fair, holds, reply) =
        admit-accepted local_id local_port decide verify sent msg.header.node_id id msg.header.port
          port inner in
      (
        λ none_named. ground (arith, same, named, none_named, text_eqb_iff msg.header.node_id []),
        λ self. ground (arith, same, other, self, text_eqb_iff msg.header.node_id local_id),
        fair,
        holds,
        ground (arith, kind, v2, named, other, reply),
        (msg, refl, is_hello_eq msg.header.msg_type kind, v2, same, same_port),
      )

  -- Both ends of a handshake come to the same result: where node `a` sends its Hello to another node
  -- `b`, and neither name is empty, either `b` accepts `a` and `a` is connected to `b`, or `b` turns `a`
  -- away and `a` learns that it is already connected, or `b` rejects the claim and `a` gets the error;
  -- where there is a connection each end has the other's name and port.
  pub outbound_handshake-inbound_handshake :
      (a b : Text) (a_port b_port : ℤ) (decide : Text → Bool) (verify : Option (Text → Bool))
      → a ≢ []
      → b ≢ []
      → a ≢ b
      → (((inbound_handshake render b b_port decide verify true (some (new_hello a a_port))).1
            ≡ accepted a a_port)
          × (outbound_handshake a
                (inbound_handshake render b b_port decide verify true (some (new_hello a a_port))).0
              ≡ connected b b_port))
        ⊎ (((inbound_handshake render b b_port decide verify true (some (new_hello a a_port))).1
              ≡ turned_away a a_port)
            × (outbound_handshake a
                  (inbound_handshake render b b_port decide verify true
                    (some (new_hello a a_port))).0
                ≡ already_connected b b_port))
        ⊎ (((inbound_handshake render b b_port decide verify true (some (new_hello a a_port))).1
              ≡ rejected identity_mismatch)
            × (outbound_handshake a
                  (inbound_handshake render b b_port decide verify true
                    (some (new_hello a a_port))).0
                ≡ refused (hello_error (render identity_mismatch))))
  unfolding inbound_handshake admit outbound_handshake new_hello new_hello_ok new_already_connected
      new_error
  outbound_handshake-inbound_handshake a b a_port b_port decide verify a_set b_set a-ne-b = ground (
    arith,
    eqb-eq_false text_key a [] a_set,
    eqb-eq_false text_key b [] b_set,
    eqb-eq_false text_key a b a-ne-b,
    eqb-eq_false text_key b a (λ e. a-ne-b (sym e)),
  )
