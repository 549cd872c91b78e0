-- ===== src/Daemon/Notify/Once.antt =====
-- What the bookkeeping of daemon/notify.go keeps from being sent, and from being pulled.
use tailsync.Common.{
  ◌≡◌, inl, inr, refl, ap, ◌∙◌, true, false, some, List, [], ◌∷◌, text_key, arith, Bool-cases,
  Option-cases, All,
}
use tailsync.Common.Table.{get, put, get-put, get-del}
use tailsync.Index.{Entry, Index, Time, wins, set_if_wins, put_if_wins}
use tailsync.Daemon.Notify.{
  ContentKey, content_key_from, content_eqb, content_eqb→eq, content_key, NotifyTracker, gc_locked,
  free_locked, claim_loop, claim, mark, mark_loop, release, already_have_all, on_notify, offers,
}

already_have_all-set_if_wins :
    (idx : Index) (hints : List Entry)
    → already_have_all idx hints ≡ true
    → All (λ h. set_if_wins idx h ≡ (idx, false)) hints
unfolding already_have_all set_if_wins put_if_wins
already_have_all-set_if_wins idx [] have = tt
already_have_all-set_if_wins idx (h ∷ hs) have = elim (Option-cases (get h.path idx.files)) [
  | inl absent ↦ absurd (ground (arith, absent, have))
  | inr (l, there) ↦ elim (Bool-cases (wins l h)) [
    | inl new ↦ absurd (ground (arith, there, new, have))
    | inr old ↦ (
      ground (arith, there, old),
      already_have_all-set_if_wins idx hs (ground (arith, there, old, have)),
    )
  ]
]

-- An advertisement that is ignored would have changed nothing: where no pull is requested, no hinted
-- entry is taken by `SetIfWins`.
pub on_notify-set_if_wins :
    (now : Time) (idx : Index) (hints : List Entry) (t : NotifyTracker)
    → (on_notify now idx hints t).1 ≡ false
    → All (λ h. set_if_wins idx h ≡ (idx, false)) hints
unfolding on_notify
on_notify-set_if_wins now idx [] t e = tt
on_notify-set_if_wins now idx (h ∷ hs) t e =
    already_have_all-set_if_wins idx (h ∷ hs) (ground (arith, e))

free_apart :
    (now : Time) (t : NotifyTracker) (j k : ContentKey)
    → free_locked now t j ≡ true
    → get k t.inflight ≡ some tt
    → content_eqb j k ≡ false
unfolding free_locked
free_apart now t j k free h = elim (Bool-cases (content_eqb j k)) [
  | inr e ↦ e
  | inl e ↦
      let taken : get j t.inflight ≡ some tt =
        ap (λ (x : ContentKey). get x t.inflight) (content_eqb→eq j k e) ∙ h in
      absurd (ground (arith, taken, free))
]

claim_loop_keeps :
    (now : Time) (k : ContentKey) (hs : List Entry) (t : NotifyTracker)
    → get k t.inflight ≡ some tt
    → (get k (claim_loop now hs t).0.inflight ≡ some tt)
      × (offers k (claim_loop now hs t).1 ≡ false)
unfolding claim_loop
claim_loop_keeps now k [] t h = (h, refl)
claim_loop_keeps now k (e ∷ hs) t h = elim (Bool-cases (free_locked now t (content_key_from e))) [
  | inr taken ↦ rw (taken, claim_loop) (claim_loop_keeps now k hs t h)
  | inl free ↦
      let apart : content_eqb (content_key_from e) k ≡ false =
        free_apart now t (content_key_from e) k free h in
      let (kept, silent) =
        claim_loop_keeps now k hs (record t { inflight = put (content_key_from e) tt t.inflight })
          (get-put (content_key_from e) k tt t.inflight ∙ rw apart h) in
      rw (free, claim_loop) (kept, rw apart silent)
]

claim_loop-offers :
    (now : Time) (k : ContentKey) (hs : List Entry) (t : NotifyTracker)
    → offers k (claim_loop now hs t).1 ≡ true
    → get k (claim_loop now hs t).0.inflight ≡ some tt
unfolding claim_loop
claim_loop-offers now k [] t h = absurd (ground (arith, h))
claim_loop-offers now k (e ∷ hs) t h = elim (Bool-cases (free_locked now t (content_key_from e))) [
  | inr taken ↦ rw (taken, claim_loop) (claim_loop-offers now k hs t (ground (arith, taken, h)))
  | inl free ↦ elim (Bool-cases (content_eqb (content_key_from e) k)) [
    | inl here ↦
        rw (free, claim_loop)
          (claim_loop_keeps now k hs
            (record t { inflight = put (content_key_from e) tt t.inflight })
            (get-put (content_key_from e) k tt t.inflight ∙ rw here refl)).0
    | inr there ↦
        rw (free, claim_loop)
          (claim_loop-offers now k hs
            (record t { inflight = put (content_key_from e) tt t.inflight })
            (ground (arith, free, there, h)))
  ]
]

mark_loop_keeps :
    (now : Time) (k : ContentKey) (hs : List Entry) (t : NotifyTracker)
    → offers k hs ≡ false
    → get k t.inflight ≡ some tt
    → get k (mark_loop now hs t).inflight ≡ some tt
unfolding mark_loop
mark_loop_keeps now k [] t other h = h
mark_loop_keeps now k (e ∷ hs) t other h =
    let apart : content_eqb (content_key_from e) k ≡ false = ground (arith, other) in
    mark_loop_keeps now k hs _ (ground (arith, other))
      (get-del (content_key_from e) k t.inflight ∙ rw apart h)

release_keeps :
    (k : ContentKey) (hs : List Entry) (t : NotifyTracker)
    → offers k hs ≡ false
    → get k t.inflight ≡ some tt
    → get k (release hs t).inflight ≡ some tt
unfolding release
release_keeps k [] t other h = h
release_keeps k (e ∷ hs) t other h =
    let apart : content_eqb (content_key_from e) k ≡ false = ground (arith, other) in
    release_keeps k hs _ (ground (arith, other))
      (get-del (content_key_from e) k t.inflight ∙ rw apart h)

-- What others do with the tracker.
pub data Event : Type 0 where
  claims marks : Time → List Entry → Event
  releases : List Entry → Event

abbrev pub run_event : Event → NotifyTracker → NotifyTracker
run_event (claims now hs) t = (claim now hs t).0
run_event (marks now hs) t = mark now hs t
run_event (releases hs) t = release hs t

abbrev pub run_events : List Event → NotifyTracker → NotifyTracker
run_events [] t = t
run_events (e ∷ es) t = run_events es (run_event e t)

-- An event that neither marks nor releases a key.
abbrev pub Spares : ContentKey → Event → Type 0
Spares k (claims now hs) = Unit
Spares k (marks now hs) = offers k hs ≡ false
Spares k (releases hs) = offers k hs ≡ false

run_event_keeps :
    (k : ContentKey) (e : Event) (t : NotifyTracker)
    → Spares k e
    → get k t.inflight ≡ some tt
    → get k (run_event e t).inflight ≡ some tt
unfolding claim mark gc_locked
run_event_keeps k (claims now hs) t spares h = (claim_loop_keeps now k hs _ h).0
run_event_keeps k (marks now []) t spares h = h
run_event_keeps k (marks now (e ∷ hs)) t spares h = mark_loop_keeps now k (e ∷ hs) _ spares h
run_event_keeps k (releases hs) t spares h = release_keeps k hs t spares h

run_events_keeps :
    (k : ContentKey) (es : List Event) (t : NotifyTracker)
    → All (Spares k) es
    → get k t.inflight ≡ some tt
    → get k (run_events es t).inflight ≡ some tt
run_events_keeps k [] t spares h = h
run_events_keeps k (e ∷ es) t spares h =
    run_events_keeps k es (run_event e t) spares.1 (run_event_keeps k e t spares.0 h)

-- No version is advertised twice at a time: what one claim has handed out no later claim hands out, after
-- any other claims, marks and releases, until it is marked or released itself.
pub claim-claim :
    (now later : Time) (k : ContentKey) (hints more : List Entry) (es : List Event)
    (t : NotifyTracker)
    → offers k (claim now hints t).1 ≡ true
    → All (Spares k) es
    → offers k (claim later more (run_events es (claim now hints t).0)).1 ≡ false
unfolding claim gc_locked
claim-claim now later k hints more es t h spares =
    (claim_loop_keeps later k more _
      (run_events_keeps k es (claim now hints t).0 spares (claim_loop-offers now k hints _ h))).1
