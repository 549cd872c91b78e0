-- ===== src/Daemon/Notify.antt =====
-- daemon/notify.go: which versions of a path are advertised, and what an advertisement that comes in
-- leads to; the fan-out over the sessions is in Daemon/Notify/FanOut. The `UnixNano` of a key's clock is the
-- clock itself, which differs by a constant.
pub mod Once
pub mod FanOut
use tailsync.Common.{
  ℕ, ◌-◌, ◌≡◌, inl, inr, refl, sym, ap, ◌∙◌, Bool, true, false, ◌&&◌, ◌||◌, not, Option, none, some,
  List, [], ◌∷◌, Text, Key, ◌==◌, ltb, nat_eqb, bool_eqb, text_eqb, text_eqb→eq, text_eqb_refl,
  nat_eqb→eq, nat_eqb_refl, if◌then◌else◌, text_key, arith, Bool-cases, Option-cases, All,
}
use tailsync.Common.Table.{Table, get, put, del, get-put}
use tailsync.Index.{Entry, Index, Time, wins, set_if_wins, put_if_wins}

pub record ContentKey : Type 0 where
  pub path : Text
  pub hash : Text
  pub deleted : Bool
  pub updated_at : Time

unfoldable pub content_key_from : Entry → ContentKey
content_key_from e = record {
  path = e.path;
  hash = e.hash;
  deleted = e.deleted;
  updated_at = e.updated_at;
}

abbrev pub content_eqb : ContentKey → ContentKey → Bool
content_eqb a b =
    text_eqb a.path b.path
    && (text_eqb a.hash b.hash
        && (bool_eqb a.deleted b.deleted && nat_eqb a.updated_at b.updated_at))

pub content_eqb→eq : (a b : ContentKey) → content_eqb a b ≡ true → a ≡ b
content_eqb→eq a b h = ground (arith, text_eqb→eq a.path b.path, text_eqb→eq a.hash b.hash, h)

pub content_eqb_refl : (a : ContentKey) → content_eqb a a ≡ true
content_eqb_refl a = ground (arith, text_eqb_refl a.path, text_eqb_refl a.hash)

instance abbrev pub content_key : Key ContentKey
content_key = record { eqb = content_eqb; eqb→eq = content_eqb→eq; eqb_refl = content_eqb_refl }

pub record NotifyTracker : Type 0 where
  pub seen : Table ContentKey Time
  pub inflight : Table ContentKey (Unit {0})

-- `notifySeenTTL` in nanoseconds
abbrev pub notify_seen_ttl : ℕ
notify_seen_ttl = 600000000000

unfoldable pub gc_seen : Time → Table ContentKey Time → Table ContentKey Time
gc_seen now [] = []
gc_seen now ((k, at) ∷ m) =
    let rest = gc_seen now m in if ltb notify_seen_ttl (now - at) then rest else (k, at) ∷ rest

unfoldable pub gc_locked : Time → NotifyTracker → NotifyTracker
unfolding gc_seen
gc_locked now t = record t { seen = gc_seen now t.seen }

-- Whether a key was advertised and has not expired.
unfoldable pub seen_lately : Time → NotifyTracker → ContentKey → Bool
seen_lately now t k = elim (get k t.seen) [
  | none ↦ false
  | some at ↦ not (ltb notify_seen_ttl (now - at))
]

unfoldable pub free_locked : Time → NotifyTracker → ContentKey → Bool
unfolding seen_lately
free_locked now t k =
    if seen_lately now t k then false else elim (get k t.inflight) [ none ↦ true | some u ↦ false ]

-- The loop of `claim`: the tracker, and the hints that are to be sent.
unfoldable pub claim_loop : Time → List Entry → NotifyTracker → NotifyTracker × List Entry
claim_loop now [] t = (t, [])
claim_loop now (h ∷ hs) t = elim (free_locked now t (content_key_from h)) [
  | false ↦ claim_loop now hs t
  | true ↦
      let (t', out) =
        claim_loop now hs (record t { inflight = put (content_key_from h) tt t.inflight }) in
      (t', h ∷ out)
]

unfoldable pub claim : Time → List Entry → NotifyTracker → NotifyTracker × List Entry
claim now hints t = claim_loop now hints (gc_locked now t)

unfoldable pub mark_loop : Time → List Entry → NotifyTracker → NotifyTracker
mark_loop now [] t = t
mark_loop now (h ∷ hs) t = mark_loop now hs (record {
  seen = put (content_key_from h) now t.seen;
  inflight = del (content_key_from h) t.inflight;
})

unfoldable pub mark : Time → List Entry → NotifyTracker → NotifyTracker
unfolding mark_loop gc_locked
mark now [] t = t
mark now (h ∷ hs) t = mark_loop now (h ∷ hs) (gc_locked now t)

unfoldable pub release : List Entry → NotifyTracker → NotifyTracker
release [] t = t
release (h ∷ hs) t = release hs (record t { inflight = del (content_key_from h) t.inflight })

unfoldable pub already_have_all : Index → List Entry → Bool
already_have_all idx [] = true
already_have_all idx (h ∷ hs) =
    let rest = already_have_all idx hs in
    elim (get h.path idx.files) [ none ↦ false | some local ↦ if wins local h then false else rest ]

-- The tracker, and whether a pull is requested.
unfoldable pub on_notify : Time → Index → List Entry → NotifyTracker → NotifyTracker × Bool
unfolding already_have_all mark
on_notify now idx [] t = (t, true)
on_notify now idx (h ∷ hs) t =
    if already_have_all idx (h ∷ hs) then (mark now (h ∷ hs) t, false) else (t, true)

-- Whether a key is among the hints to be sent.
abbrev pub offers : ContentKey → List Entry → Bool
offers k [] = false
offers k (h ∷ hs) = content_eqb (content_key_from h) k || offers k hs
