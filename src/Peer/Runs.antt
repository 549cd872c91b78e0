-- ===== src/Peer/Runs.antt =====
-- Runs of the roster and the discovery, and their theorems at concrete inputs.
use tailsync.Common.{
  ℕ, ◌-◌, ◌*◌, ◌^◌, ◌≡◌, min, refl, ap, true, false, Text, none, some, [], ◌∷◌, arith, text_eqb,
  text_key, nat_key, ◌≢◌, ◌⊎◌, Bool, ℤ, pos,
}
use tailsync.Common.Table.{get, put}
use tailsync.Proto.{new_hello}
use tailsync.Peer.Handshake.{
  HandshakeError, identity_mismatch, hello_error, Inbound, connected, already_connected, refused,
  turned_away, inbound_handshake, outbound_handshake, admit, verified,
  outbound_handshake-inbound_handshake,
}
use tailsync.Peer.Manager.{
  install_and_activate, activate_installed, activate_if_current, handle_inbound, up, new_session,
  still_current, is_closed,
}
use tailsync.Peer.Manager.Settled.{Settled, install_and_activate-Settled, handle_inbound-up}
use tailsync.Peer.Roster.{
  install_and_close, close_loser, get_session, Session, Roster, preferred_dialer, install,
  decide_inbound, healthy, mapped,
}
use tailsync.Peer.Race.{race, race_winner, SettlesOn}
use tailsync.Peer.Discovery.{
  Discovery, try_begin_dial, run_events, begins, fails, ends, backoff_duration,
  backoff_duration_pow, backoff_base, try_begin_dial-run_events, waiting,
}

abbrev alice : Text
alice = b'a' ∷ []

abbrev bob : Text
bob = b'b' ∷ []

abbrev first_byte : Text → ℕ
first_byte [] = 0
first_byte (c ∷ t) = c

-- The sessions on alice's side: the one she dialled, and the one she accepted.
abbrev dialed : Session
dialed = record {
  node_id = bob;
  local_id = alice;
  addr = [];
  dialer = true;
  healthy_flag = true;
  closed = false;
}

abbrev taken : Session
taken = record dialed { dialer = false }

abbrev two_sessions : Roster
two_sessions = record { sessions = []; store = (1, dialed) ∷ (2, taken) ∷ [] }

abbrev with_dialed : Roster
with_dialed = record two_sessions { sessions = (bob, 1) ∷ [] }

dialed_at : get 1 two_sessions.store ≡ some dialed
unfolding get
dialed_at = refl

taken_at : get 2 two_sessions.store ≡ some taken
unfolding get
taken_at = refl

no_bob : get bob two_sessions.sessions ≡ none
unfolding get
no_bob = refl

abbrev alice_set : alice ≢ []
alice_set = λ e. omega (arith, ap first_byte e)

abbrev bob_set : bob ≢ []
bob_set = λ e. omega (arith, ap first_byte e)

abbrev two_nodes : alice ≢ bob
two_nodes = λ e. omega (arith, ap first_byte e)

race_winner_example :
    SettlesOn alice bob alice_set bob_set two_nodes
      (text_eqb (preferred_dialer alice bob) alice)
      (race alice bob alice_set bob_set two_nodes two_sessions 1 2)
      1
      dialed
      2
      taken
    × SettlesOn alice bob alice_set bob_set two_nodes
        (text_eqb (preferred_dialer alice bob) alice)
        (race alice bob alice_set bob_set two_nodes two_sessions 2 1)
        1
        dialed
        2
        taken
    × (preferred_dialer alice bob ≡ preferred_dialer bob alice)
race_winner_example =
    race_winner alice bob alice_set bob_set two_nodes two_sessions 1 2 dialed taken
      (λ e. omega (arith, e)) dialed_at taken_at (refl, refl, refl, refl, refl)
      (refl, refl, refl, refl, refl) no_bob

refuses_bob : decide_inbound alice with_dialed bob ≡ false
unfolding decide_inbound mapped healthy get preferred_dialer
refuses_bob = refl

abbrev idle_tables : Discovery
idle_tables = record { backoff = []; inflight = [] }

began : (try_begin_dial 5 idle_tables alice).1 ≡ true
unfolding try_begin_dial waiting get
began = refl

try_begin_dial-run_events_example :
    (try_begin_dial 90
      (run_events
        (fails 7 alice ∷ begins 8 bob ∷ ends bob ∷ [])
        (try_begin_dial 5 idle_tables alice).0)
      alice).1
    ≡ false
try_begin_dial-run_events_example =
    try_begin_dial-run_events 5 90 idle_tables alice (fails 7 alice ∷ begins 8 bob ∷ ends bob ∷ [])
      began (tt, (tt, (λ e. omega (arith, ap first_byte e), tt)))

no_dial : get alice idle_tables.inflight ≡ none
unfolding get
no_dial = refl

backoff_duration_pow_example : backoff_duration 9 ≡ backoff_base * 2 ^ (min (9 - 1) 4)
backoff_duration_pow_example = backoff_duration_pow 9

abbrev in_text : HandshakeError → Text
in_text e = []

abbrev everyone : Text → Bool
everyone id = true

greeted :
    (inbound_handshake in_text bob (pos 2) everyone none true (some (new_hello alice (pos 1)))).1
    ≡ Inbound.accepted alice (pos 1)
unfolding inbound_handshake admit new_hello
greeted = refl

outbound_handshake-inbound_handshake_example :
    (((inbound_handshake in_text bob (pos 2) everyone none true (some (new_hello alice (pos 1)))).1
        ≡ Inbound.accepted alice (pos 1))
      × (outbound_handshake alice
            (inbound_handshake in_text bob
              (pos 2)
              everyone
              none
              true
              (some (new_hello alice (pos 1)))).0
          ≡ connected bob (pos 2)))
    ⊎ (((inbound_handshake in_text bob
            (pos 2)
            everyone
            none
            true
            (some (new_hello alice (pos 1)))).1
          ≡ turned_away alice (pos 1))
        × (outbound_handshake alice
              (inbound_handshake in_text bob
                (pos 2)
                everyone
                none
                true
                (some (new_hello alice (pos 1)))).0
            ≡ already_connected bob (pos 2)))
    ⊎ (((inbound_handshake in_text bob
            (pos 2)
            everyone
            none
            true
            (some (new_hello alice (pos 1)))).1
          ≡ Inbound.rejected identity_mismatch)
        × (outbound_handshake alice
              (inbound_handshake in_text bob
                (pos 2)
                everyone
                none
                true
                (some (new_hello alice (pos 1)))).0
            ≡ refused (hello_error (in_text identity_mismatch))))
outbound_handshake-inbound_handshake_example =
    outbound_handshake-inbound_handshake in_text alice bob (pos 1) (pos 2) everyone none
      (λ e. omega (arith, ap first_byte e)) (λ e. omega (arith, ap first_byte e))
      (λ e. omega (arith, ap first_byte e))

abbrev quiet : Roster → Roster
quiet r = r

install_and_activate-Settled_example : Settled 2 (install_and_activate false quiet two_sessions 2)
install_and_activate-Settled_example = install_and_activate-Settled false quiet two_sessions 2

abbrev no_sessions : Roster
no_sessions = record { sessions = []; store = [] }

abbrev no_addr : ℤ → Text
no_addr port = []

comes_up :
    (handle_inbound in_text alice
      (pos 1)
      false
      quiet
      none
      true
      no_sessions
      no_sessions
      5
      no_addr
      (some (new_hello bob (pos 2)))).1
    ≡ up bob
unfolding handle_inbound inbound_handshake admit new_hello install_and_activate activate_installed
    activate_if_current install_and_close close_loser install decide_inbound mapped healthy get put
    new_session still_current is_closed get_session
comes_up = refl

handle_inbound-up_example :
    (bob ≢ [])
    × (bob ≢ alice)
    × (decide_inbound alice no_sessions bob ≡ true)
    × (verified none bob ≡ true)
    × (still_current
          (handle_inbound in_text alice
            (pos 1)
            false
            quiet
            none
            true
            no_sessions
            no_sessions
            5
            no_addr
            (some (new_hello bob (pos 2)))).0
          5
        ≡ true)
    × (is_closed
          (handle_inbound in_text alice
            (pos 1)
            false
            quiet
            none
            true
            no_sessions
            no_sessions
            5
            no_addr
            (some (new_hello bob (pos 2)))).0
          5
        ≡ false)
handle_inbound-up_example =
    handle_inbound-up in_text alice (pos 1) false quiet none true no_sessions no_sessions 5 no_addr
      (some (new_hello bob (pos 2))) bob comes_up
