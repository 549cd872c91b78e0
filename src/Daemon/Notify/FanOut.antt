-- ===== src/Daemon/Notify/FanOut.antt =====
-- `scheduleNotify` of daemon/notify.go: one advertisement to all sessions. The streams are taken in the
-- order in which they end: each with the time of its success, or none when the context ended or the
-- advertisement could not be written. What others do to the tracker meanwhile is left out.
mod Runs
use tailsync.Common.{
  ◌≡◌, inl, inr, refl, ap, ◌∙◌, Bool, true, false, ◌||◌, Option, none, some, List, [], ◌∷◌,
  text_key, arith, Bool-cases, if◌then◌else◌,
}
use tailsync.Common.Table.{get, put, del, get-put, get-del}
use tailsync.Index.{Entry, Time}
use tailsync.Daemon.Notify.{
  ContentKey, content_key_from, content_eqb, content_key, NotifyTracker, gc_locked, free_locked,
  claim_loop, claim, mark, mark_loop, release, offers,
}

-- The tracker behind the streams, and whether one of them succeeded.
unfoldable pub deliver : List (Option Time) → List Entry → NotifyTracker → NotifyTracker × Bool
deliver [] sent t = (t, false)
deliver (none ∷ ds) sent t = deliver ds sent t
deliver (some now ∷ ds) sent t = ((deliver ds sent (mark now sent t)).0, true)

-- What is done when all streams have ended.
abbrev pub end_fan_out : List Entry → NotifyTracker × Bool → NotifyTracker
end_fan_out sent (t, true) = t
end_fan_out sent (t, false) = release sent t

-- A fan-out of claimed hints, unless there are none.
abbrev pub send_claimed : List (Option Time) → NotifyTracker × List Entry → NotifyTracker × Bool
send_claimed ds (t, []) = (t, false)
send_claimed ds (t, h ∷ hs) = (end_fan_out (h ∷ hs) (deliver ds (h ∷ hs) t), true)

-- `scheduleNotify` up to the end of its streams, one for each healthy session; `ended` is whether the
-- context has ended or there is no mesh.
unfoldable pub schedule_notify :
    Bool → Time → List (Option Time) → List Entry → NotifyTracker → NotifyTracker × Bool
schedule_notify true now ds hints t = (t, false)
schedule_notify false now [] hints t = (t, false)
schedule_notify false now (d ∷ ds) [] t = (t, true)
schedule_notify false now (d ∷ ds) (h ∷ hs) t = send_claimed (d ∷ ds) (claim now (h ∷ hs) t)

-- A key that is not in flight.
abbrev Idle : ContentKey → NotifyTracker → Type 0
Idle k t = get k t.inflight ≡ none

put_apart :
    (j k : ContentKey) (t : NotifyTracker)
    → content_eqb j k ≡ false
    → Idle k t
    → get k (put j tt t.inflight) ≡ none
put_apart j k t other idle = get-put j k tt t.inflight ∙ rw other idle

del-Idle : (j k : ContentKey) (t : NotifyTracker) → Idle k t → get k (del j t.inflight) ≡ none
del-Idle j k t idle = elim (Bool-cases (content_eqb j k)) [
  | inl same ↦ get-del j k t.inflight ∙ rw same refl
  | inr other ↦ get-del j k t.inflight ∙ rw other idle
]

del_here :
    (j k : ContentKey) (t : NotifyTracker)
    → content_eqb j k ≡ true
    → get k (del j t.inflight) ≡ none
del_here j k t same = get-del j k t.inflight ∙ rw same refl

-- What is not handed out is not claimed.
claim_loop-Idle :
    (now : Time) (k : ContentKey) (hs : List Entry) (t : NotifyTracker)
    → Idle k t
    → offers k (claim_loop now hs t).1 ≡ false
    → Idle k (claim_loop now hs t).0
unfolding claim_loop
claim_loop-Idle now k [] t idle unsent = idle
claim_loop-Idle now k (h ∷ hs) t idle unsent =
    elim (Bool-cases (free_locked now t (content_key_from h))) [
      | inr taken ↦
          rw (taken, claim_loop) (claim_loop-Idle now k hs t idle (ground (arith, unsent, taken)))
      | inl free ↦
          let t' : NotifyTracker = record t { inflight = put (content_key_from h) tt t.inflight } in
          let other : content_eqb (content_key_from h) k ≡ false = ground (arith, unsent, free) in
          rw (free, claim_loop)
            (claim_loop-Idle now k hs t' (put_apart (content_key_from h) k t other idle)
              (ground (arith, unsent, free)))
    ]

mark_loop-Idle :
    (now : Time) (k : ContentKey) (hs : List Entry) (t : NotifyTracker)
    → Idle k t
    → Idle k (mark_loop now hs t)
unfolding mark_loop
mark_loop-Idle now k [] t idle = idle
mark_loop-Idle now k (h ∷ hs) t idle =
    mark_loop-Idle now k hs _ (del-Idle (content_key_from h) k t idle)

mark_loop_clears :
    (now : Time) (k : ContentKey) (hs : List Entry) (t : NotifyTracker)
    → offers k hs ≡ true
    → Idle k (mark_loop now hs t)
unfolding mark_loop
mark_loop_clears now k [] t sent = absurd (ground (arith, sent))
mark_loop_clears now k (h ∷ hs) t sent = elim (Bool-cases (content_eqb (content_key_from h) k)) [
  | inl here ↦ mark_loop-Idle now k hs _ (del_here (content_key_from h) k t here)
  | inr there ↦ mark_loop_clears now k hs _ (ground (arith, sent, there))
]

release-Idle :
    (k : ContentKey) (hs : List Entry) (t : NotifyTracker) → Idle k t → Idle k (release hs t)
unfolding release
release-Idle k [] t idle = idle
release-Idle k (h ∷ hs) t idle = release-Idle k hs _ (del-Idle (content_key_from h) k t idle)

release_clears :
    (k : ContentKey) (hs : List Entry) (t : NotifyTracker)
    → offers k hs ≡ true
    → Idle k (release hs t)
unfolding release
release_clears k [] t sent = absurd (ground (arith, sent))
release_clears k (h ∷ hs) t sent = elim (Bool-cases (content_eqb (content_key_from h) k)) [
  | inl here ↦ release-Idle k hs _ (del_here (content_key_from h) k t here)
  | inr there ↦ release_clears k hs _ (ground (arith, sent, there))
]

mark-Idle :
    (now : Time) (k : ContentKey) (hs : List Entry) (t : NotifyTracker)
    → Idle k t
    → Idle k (mark now hs t)
unfolding mark gc_locked
mark-Idle now k [] t idle = idle
mark-Idle now k (h ∷ hs) t idle = mark_loop-Idle now k (h ∷ hs) _ idle

mark_clears :
    (now : Time) (k : ContentKey) (hs : List Entry) (t : NotifyTracker)
    → offers k hs ≡ true
    → Idle k (mark now hs t)
unfolding mark gc_locked
mark_clears now k [] t sent = absurd (ground (arith, sent))
mark_clears now k (h ∷ hs) t sent = mark_loop_clears now k (h ∷ hs) _ sent

deliver-Idle :
    (ds : List (Option Time)) (k : ContentKey) (sent : List Entry) (t : NotifyTracker)
    → Idle k t
    → Idle k (deliver ds sent t).0
unfolding deliver
deliver-Idle [] k sent t idle = idle
deliver-Idle (none ∷ ds) k sent t idle = deliver-Idle ds k sent t idle
deliver-Idle (some now ∷ ds) k sent t idle = deliver-Idle ds k sent _ (mark-Idle now k sent t idle)

end_fan_out-Idle :
    (ds : List (Option Time)) (k : ContentKey) (sent : List Entry) (t : NotifyTracker)
    → Idle k t
    → Idle k (end_fan_out sent (deliver ds sent t))
unfolding deliver
end_fan_out-Idle [] k sent t idle = release-Idle k sent t idle
end_fan_out-Idle (none ∷ ds) k sent t idle = end_fan_out-Idle ds k sent t idle
end_fan_out-Idle (some now ∷ ds) k sent t idle =
    deliver-Idle ds k sent _ (mark-Idle now k sent t idle)

end_fan_out_clears :
    (ds : List (Option Time)) (k : ContentKey) (sent : List Entry) (t : NotifyTracker)
    → offers k sent ≡ true
    → Idle k (end_fan_out sent (deliver ds sent t))
unfolding deliver
end_fan_out_clears [] k sent t offered = release_clears k sent t offered
end_fan_out_clears (none ∷ ds) k sent t offered = end_fan_out_clears ds k sent t offered
end_fan_out_clears (some now ∷ ds) k sent t offered =
    deliver-Idle ds k sent _ (mark_clears now k sent t offered)

send_claimed-Idle :
    (ds : List (Option Time)) (k : ContentKey) (t : NotifyTracker) (sent : List Entry)
    → (offers k sent ≡ false → Idle k t)
    → Idle k (send_claimed ds (t, sent)).0
send_claimed-Idle ds k t [] idle = idle refl
send_claimed-Idle ds k t (h ∷ hs) idle = elim (Bool-cases (offers k (h ∷ hs))) [
  | inl offered ↦ end_fan_out_clears ds k (h ∷ hs) t offered
  | inr unoffered ↦ end_fan_out-Idle ds k (h ∷ hs) t (idle unoffered)
]

claim-Idle :
    (now : Time) (k : ContentKey) (hs : List Entry) (t : NotifyTracker)
    → Idle k t
    → offers k (claim now hs t).1 ≡ false
    → Idle k (claim now hs t).0
unfolding claim gc_locked
claim-Idle now k hs t idle unsent = claim_loop-Idle now k hs _ idle unsent

-- A fan-out leaves no claim behind: a key that was not in flight before it is not in flight when all its
-- streams have ended, however each of them ended.
pub schedule_notify-Idle :
    (ended : Bool) (now : Time) (ds : List (Option Time)) (hints : List Entry) (k : ContentKey)
    (t : NotifyTracker)
    → get k t.inflight ≡ none
    → get k (schedule_notify ended now ds hints t).0.inflight ≡ none
unfolding schedule_notify
schedule_notify-Idle true now ds hints k t idle = idle
schedule_notify-Idle false now [] hints k t idle = idle
schedule_notify-Idle false now (d ∷ ds) [] k t idle = idle
schedule_notify-Idle false now (d ∷ ds) (h ∷ hs) k t idle =
    send_claimed-Idle (d ∷ ds) k (claim now (h ∷ hs) t).0 (claim now (h ∷ hs) t).1
      (claim-Idle now k (h ∷ hs) t idle)
