-- ===== src/Peer/Discovery.antt =====
-- internal/peer/discovery.go: which addresses are dialled, and how long one waits after a failure.
-- Durations are nanoseconds. The dials themselves are not modelled: their begins, ends and results
-- are the events of a run.
use tailsync.Common.{
  ℕ, zero, suc, ◌+◌, ◌-◌, ◌*◌, ◌^◌, ◌≡◌, ◌≢◌, min, refl, sym, ap, ◌∙◌, Bool, true, false, ◌&&◌, not,
  Option, none, some, List, [], ◌∷◌, Text, ltb, text_eqb, text_eqb_refl, if◌then◌else◌, text_key,
  arith, All, eqb-eq_false, inl, inr, Bool-cases,
}
use tailsync.Common.Table.{Table, get, put, del, has, get-put, get-del}
use tailsync.Index.{Time, is_zero, before}

abbrev pub backoff_base : ℕ
backoff_base = 2000000000

abbrev pub backoff_max : ℕ
backoff_max = 300000000000

abbrev pub park_after : ℕ
park_after = 5

-- The loop of `discoveryBackoffDuration`; its first argument counts the rounds that are left.
unfoldable pub backoff_loop : ℕ → ℕ → ℕ
backoff_loop zero d = d
backoff_loop (suc rounds) d =
    let rest = backoff_loop rounds (d * 2) in if ltb d backoff_max then rest else d

unfoldable pub backoff_duration : ℕ → ℕ
unfolding backoff_loop
backoff_duration streak =
    let s : ℕ = if ltb streak 1 then 1 else streak in
    min (backoff_loop (min s park_after - 1) backoff_base) backoff_max

pub record AddrBackoff : Type 0 where
  pub until : Time
  pub streak : ℕ

-- The fields that `mu` guards.
pub record Discovery : Type 0 where
  pub backoff : Table Text AddrBackoff
  pub inflight : Table Text (Unit {0})

unfoldable pub waiting : Time → Option AddrBackoff → Bool
waiting now none = false
waiting now (some ab) = not (is_zero ab.until) && before now ab.until

unfoldable pub try_begin_dial : Time → Discovery → Text → Discovery × Bool
unfolding waiting
try_begin_dial now d addr =
    if has addr d.inflight
    then (d, false)
    else (if waiting now (get addr d.backoff)
        then (d, false)
        else (record d { inflight = put addr tt d.inflight }, true))

unfoldable pub end_dial : Discovery → Text → Discovery
end_dial d addr = record d { inflight = del addr d.inflight }

-- `d.backoff[addr].streak`
unfoldable pub backoff_streak : Discovery → Text → ℕ
backoff_streak d addr = elim (get addr d.backoff) [ none ↦ 0 | some ab ↦ ab.streak ]

unfoldable pub soft_fail : Time → Discovery → Text → Discovery
unfolding backoff_streak
soft_fail now d addr =
    let streak : ℕ = suc (backoff_streak d addr) in
    record d {
      backoff =
          put addr (record { until = now + backoff_duration streak; streak = streak }) d.backoff;
    }

unfoldable pub clear_backoff : Discovery → Text → Discovery
clear_backoff d addr = record d { backoff = del addr d.backoff }

unfoldable pub in_backoff : Time → Discovery → Text → Bool
unfolding waiting
in_backoff now d addr = waiting now (get addr d.backoff)

-- `SoftFailAddr`, for failures that are seen elsewhere.
unfoldable pub soft_fail_addr : Time → Discovery → Text → Discovery
unfolding soft_fail
soft_fail_addr now d addr = if text_eqb addr [] then d else soft_fail now d addr

-- What happens to the tables while dials are under way.
pub data Event : Type 0 where
  begins : Time → Text → Event
  ends : Text → Event
  fails : Time → Text → Event
  clears : Text → Event

unfoldable pub run_event : Event → Discovery → Discovery
run_event (begins now a) d = (try_begin_dial now d a).0
run_event (ends a) d = end_dial d a
run_event (fails now a) d = soft_fail now d a
run_event (clears a) d = clear_backoff d a

unfoldable pub run_events : List Event → Discovery → Discovery
run_events [] d = d
run_events (e ∷ es) d = run_events es (run_event e d)

rounds_small :
    (streak : ℕ) → ltb streak 5 ≡ true → backoff_duration streak ≡ backoff_base * 2 ^ (streak - 1)
unfolding backoff_duration backoff_loop
rounds_small zero h = refl
rounds_small (suc zero) h = refl
rounds_small (suc (suc zero)) h = refl
rounds_small (suc (suc (suc zero))) h = refl
rounds_small (suc (suc (suc (suc zero)))) h = refl
rounds_small (suc (suc (suc (suc (suc k))))) h = absurd (ground (arith, h))

-- The time to wait after `streak` failures doubles from two seconds with each failure until the
-- fifth, and stays at 32 seconds from there on.
pub backoff_duration_pow :
    (streak : ℕ) → backoff_duration streak ≡ backoff_base * 2 ^ (min (streak - 1) 4)
unfolding backoff_duration backoff_loop
backoff_duration_pow streak = elim (Bool-cases (ltb streak 5)) [
  | inl few ↦
      let e : min (streak - 1) 4 ≡ streak - 1 = ground (arith, few) in
      rounds_small streak few ∙ ap (λ (n : ℕ). backoff_base * 2 ^ n) (sym e)
  | inr many ↦
      let e : min (streak - 1) 4 ≡ 4 = ground (arith, many) in
      parked (ground (arith, many)) ∙ ap (λ (n : ℕ). backoff_base * 2 ^ n) (sym e)
]
  where
    parked :
        min (if ltb streak 1 then 1 else streak) park_after ≡ 5
        → backoff_duration streak ≡ backoff_base * 2 ^ 4
    parked e = rw (e, backoff_duration) refl

abbrev NotEnd : Text → Event → Type 0
NotEnd addr (begins now a) = Unit
NotEnd addr (ends a) = a ≢ addr
NotEnd addr (fails now a) = Unit
NotEnd addr (clears a) = Unit

run_event-inflight :
    (addr : Text) (e : Event) (d : Discovery)
    → NotEnd addr e
    → get addr d.inflight ≡ some tt
    → get addr (run_event e d).inflight ≡ some tt
unfolding run_event try_begin_dial end_dial soft_fail clear_backoff
run_event-inflight addr (begins now a) d n h = ground (arith, get-put a addr tt d.inflight)
run_event-inflight addr (ends a) d n h =
    get-del a addr d.inflight ∙ rw (eqb-eq_false text_key a addr n) h
run_event-inflight addr (fails now a) d n h = h
run_event-inflight addr (clears a) d n h = h

run_events-inflight :
    (addr : Text) (es : List Event) (d : Discovery)
    → All (NotEnd addr) es
    → get addr d.inflight ≡ some tt
    → get addr (run_events es d).inflight ≡ some tt
unfolding run_events
run_events-inflight addr [] d n h = h
run_events-inflight addr (e ∷ es) d n h =
    run_events-inflight addr es (run_event e d) n.1 (run_event-inflight addr e d n.0 h)

try_begin_dial_busy :
    (later : Time) (d : Discovery) (addr : Text)
    → get addr d.inflight ≡ some tt
    → (try_begin_dial later d addr).1 ≡ false
unfolding try_begin_dial
try_begin_dial_busy later d addr h = ground (arith, h)

try_begin_dial_claims :
    (now : Time) (d : Discovery) (addr : Text)
    → (try_begin_dial now d addr).1 ≡ true
    → get addr (try_begin_dial now d addr).0.inflight ≡ some tt
unfolding try_begin_dial
try_begin_dial_claims now d addr began =
    ground (arith, began, get-put addr addr tt d.inflight, text_eqb_refl addr)

-- One dial at a time: once a dial of an address has begun, no second one begins, at any time and
-- whatever else happens to this or other addresses, until the first one ends.
pub try_begin_dial-run_events :
    (now later : Time) (d : Discovery) (addr : Text) (es : List Event)
    → (try_begin_dial now d addr).1 ≡ true
    → All (NotEnd addr) es
    → (try_begin_dial later (run_events es (try_begin_dial now d addr).0) addr).1 ≡ false
try_begin_dial-run_events now later d addr es began quiet = try_begin_dial_busy later _ addr (
    run_events-inflight addr es (try_begin_dial now d addr).0 quiet
      (try_begin_dial_claims now d addr began))

-- After a failure an address that is not being dialled is dialled again exactly when the backoff of
-- its failures so far has passed, and other addresses are dialled as before.
pub try_begin_dial-soft_fail :
    (now later : Time) (d : Discovery) (addr other : Text)
    → get addr d.inflight ≡ none
    → other ≢ addr
    → ((try_begin_dial later (soft_fail now d addr) addr).1
        ≡ not (ltb later (now + backoff_duration (suc (backoff_streak d addr)))))
      × (backoff_streak (soft_fail now d addr) addr ≡ suc (backoff_streak d addr))
      × ((try_begin_dial later (soft_fail now d addr) other).1 ≡ (try_begin_dial later d other).1)
unfolding try_begin_dial soft_fail waiting
try_begin_dial-soft_fail now later d addr other idle apart = ground (
  arith,
  idle,
  get-put addr addr
      (record {
        until = now + backoff_duration (suc (backoff_streak d addr));
        streak = suc (backoff_streak d addr);
      })
      d.backoff,
  get-put addr other
      (record {
        until = now + backoff_duration (suc (backoff_streak d addr));
        streak = suc (backoff_streak d addr);
      })
      d.backoff,
  text_eqb_refl addr,
  eqb-eq_false text_key addr other (λ e. apart (sym e)),
  backoff_duration_pow (suc (backoff_streak d addr)),
)
