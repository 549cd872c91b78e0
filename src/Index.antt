-- ===== src/Index.antt =====
-- internal/index/index.go: the file index, a map from relative path to entry with last-writer-wins
-- conflict resolution. Each method is one atomic step, since it holds the mutex of the index
-- throughout; `Save` holds it while it takes its snapshot.
pub mod Order
pub mod Methods
pub mod Merge
pub mod Gc
pub mod Disk
mod Runs
use tailsync.Common.{
  ℕ, zero, suc, ◌+◌, ◌-◌, ◌≡◌, Bool, true, false, ◌&&◌, not, Option, none, some, List, [], ◌∷◌,
  ◌++◌, Text, ltb, nat_eqb, bool_eqb, text_eqb, if◌then◌else◌, Ordering, compare, text_key, length,
}
use tailsync.Common.Cmp.{cmp_text}
use tailsync.Common.Table.{Table, get, put, del, has}

-- A `time.Time` as the nanoseconds since Go's zero time; wall clocks do not lie before it.
abbrev pub Time : Type 0
Time = ℕ

abbrev pub is_zero : Time → Bool
is_zero t = nat_eqb t 0

-- `t.After(u)` and `t.Before(u)`
abbrev pub after : Time → Time → Bool
after t u = ltb u t

abbrev pub before : Time → Time → Bool
before t u = ltb t u

pub record Entry : Type 0 where
  pub path : Text
  pub size : ℕ
  pub mod_time : Time
  pub mode : ℕ
  pub hash : Text
  pub deleted : Bool
  pub deleted_at : Time
  pub updated_at : Time

-- The fields of `Index` but for its mutex.
pub record Index : Type 0 where
  pub version : ℕ
  pub files : Table Text Entry
  pub path : Text

abbrev pub index_version : ℕ
index_version = 1

unfoldable pub new : Index
new = record { version = index_version; files = []; path = [] }

-- `Entry{Path: path}`
abbrev pub blank_entry : Text → Entry
blank_entry p = record {
  path = p;
  size = 0;
  mod_time = 0;
  mode = 0;
  hash = [];
  deleted = false;
  deleted_at = 0;
  updated_at = 0;
}

-- `compareEntries`, its result as the sign.
unfoldable pub compare_entries : Entry → Entry → Ordering
compare_entries a b =
    if not (bool_eqb a.deleted b.deleted)
    then (if a.deleted then Ordering.gt else Ordering.lt)
    else elim (cmp_text a.hash b.hash) [
      | Ordering.lt ↦ Ordering.lt
      | Ordering.gt ↦ Ordering.gt
      | Ordering.eq ↦ elim (compare a.mode b.mode) [
        | Ordering.lt ↦ Ordering.lt
        | Ordering.gt ↦ Ordering.gt
        | Ordering.eq ↦
            if after a.mod_time b.mod_time
            then Ordering.gt
            else (if after b.mod_time a.mod_time then Ordering.lt else Ordering.eq)
      ]
    ]

abbrev pub is_gt : Ordering → Bool
is_gt Ordering.gt = true
is_gt Ordering.lt = false
is_gt Ordering.eq = false

-- Whether `remote` replaces `local`.
unfoldable pub wins : Entry → Entry → Bool
unfolding compare_entries
wins local remote =
    if after remote.updated_at local.updated_at
    then true
    else (if after local.updated_at remote.updated_at
        then false
        else (if bool_eqb local.deleted remote.deleted
              && text_eqb local.hash remote.hash
              && nat_eqb local.mode remote.mode
              && nat_eqb local.mod_time remote.mod_time
            then false
            else is_gt (compare_entries remote local)))

unfoldable pub get_entry : Index → Text → Option Entry
get_entry idx p = get p idx.files

-- The new index, and the entry that stood under the path.
unfoldable pub set_entry : Index → Entry → Index × Option Entry
set_entry idx e = (record idx { files = put e.path e idx.files }, get e.path idx.files)

-- The loop-free body of `SetIfWins` over the map alone.
unfoldable pub put_if_wins : Entry → Table Text Entry → Table Text Entry × Bool
put_if_wins remote files = elim (get remote.path files) [
  | none ↦ (put remote.path remote files, true)
  | some local ↦
      if not (wins local remote) then (files, false) else (put remote.path remote files, true)
]

unfoldable pub set_if_wins : Index → Entry → Index × Bool
unfolding put_if_wins
set_if_wins idx remote =
    let (files, ok) = put_if_wins remote idx.files in (record idx { files = files }, ok)

unfoldable pub delete : Index → Text → Index
delete idx p = record idx { files = del p idx.files }

-- The tombstone of an entry.
abbrev pub bury : Entry → Time → Entry
bury e at = record e { deleted = true; deleted_at = at; updated_at = at; size = 0; hash = [] }

unfoldable pub mark_deleted : Index → Text → Time → Index × Entry
mark_deleted idx p at =
    let e : Entry = elim (get p idx.files) [ none ↦ blank_entry p | some e ↦ e ] in
    let e' : Entry = bury e at in (record idx { files = put p e' idx.files }, e')

-- `All` is a copy of the map; `Live` drops the tombstones.
unfoldable pub all : Index → Table Text Entry
all idx = idx.files

unfoldable pub live_files : Table Text Entry → Table Text Entry
live_files [] = []
live_files ((k, v) ∷ m) = let rest = live_files m in if not v.deleted then (k, v) ∷ rest else rest

unfoldable pub live : Index → Table Text Entry
unfolding live_files
live idx = live_files idx.files

unfoldable pub len : Index → ℕ
len idx = length idx.files

unfoldable pub clone : Index → Index
unfolding new
clone idx = record new { version = idx.version; files = idx.files }

unfoldable pub values : Table Text Entry → List Entry
values [] = []
values ((k, v) ∷ m) = v ∷ values m

unfoldable pub manifest : Index → List Entry
unfolding values
manifest idx = values idx.files

-- The age basis of a tombstone, and whether the collection drops it.
unfoldable pub expired : Time → Entry → Bool
expired cutoff e =
    let t : Time = if is_zero e.deleted_at then e.updated_at else e.deleted_at in
    e.deleted && (not (is_zero t) && before t cutoff)

unfoldable pub gc_files : Time → Table Text Entry → Table Text Entry × ℕ
unfolding expired
gc_files cutoff [] = ([], 0)
gc_files cutoff ((k, e) ∷ m) =
    let (rest, n) = gc_files cutoff m in
    if expired cutoff e then (rest, suc n) else ((k, e) ∷ rest, n)

-- A `ttl` of zero or less turns the collection off. No time is before the zero time, so the
-- truncated difference serves for `now.Add(-ttl)`.
unfoldable pub gc_tombstones : Index → Time → ℕ → Index × ℕ
unfolding gc_files
gc_tombstones idx now ttl =
    if nat_eqb ttl 0
    then (idx, 0)
    else (let (files, n) = gc_files (now - ttl) idx.files in (record idx { files = files }, n))
