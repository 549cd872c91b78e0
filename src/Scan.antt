-- ===== src/Scan.antt =====
-- internal/scan/scan.go: the walk over the sync directory, its comparison with the index, and the
-- application of the result. The scan is not cancelled; a failed read of a directory, a file's
-- metadata or its content ends it with an error.
pub mod Stamp
pub mod Walk
pub mod Listed
pub mod Changes
pub mod Reconcile
pub mod InStep
mod Runs
use tailsync.Common.{
  ℕ, zero, suc, ◌+◌, ◌≡◌, Bool, true, false, ◌&&◌, ◌||◌, not, Option, none, some, List, [], ◌∷◌,
  ◌++◌, Text, ltb, nat_eqb, text_eqb, if◌then◌else◌, text_key,
}
use tailsync.Common.Table.{Table, get, put}
use tailsync.Index.{Entry, Time, Index, is_zero, after, before, put_if_wins}
use tailsync.PathUtil.{is_reserved_component}

pub data ChangeKind : Type 0 where
  added modified deleted : ChangeKind

pub record Change : Type 0 where
  pub kind : ChangeKind
  pub path : Text
  pub entry : Entry

-- The lookup of a `FileInfo`: what `Stat` says of a file.
pub record FileInfo : Type 0 where
  pub size : ℕ
  pub mod_time : Time
  pub mode : ℕ

-- A directory as the walk meets it, in order: a file with its type and its `Info`, which may fail, a
-- directory with its own contents, and an entry at which the walk reports an error.
pub data Forest : Type 0 where
  done : Forest
  file : Text → Bool → Option FileInfo → Forest → Forest
  dir : Text → Forest → Forest → Forest
  broken : Text → Forest → Forest

unfoldable pub stamp_updated_at : Time → Time → Time → Time
stamp_updated_at now mod_time prev_updated =
    let t : Time = if after mod_time now then mod_time else now in
    if is_zero prev_updated
    then t
    else (let min_next : Time = prev_updated + 1 in if before t min_next then min_next else t)

-- A slash-separated path below a directory; the empty path is the root.
unfoldable pub join_path : Text → Text → Text
join_path [] name = name
join_path (c ∷ prefix) name = (c ∷ prefix) ++ (b'/' ∷ name)

-- `ForceRehash` and `Hash` of the options; a failed hash is `none`.
module _ (force : Bool) (hash : Text → Option Text) (files : Table Text Entry) (now : Time) where
  -- The fast path: the hash of the index where size and modification time match a live entry.
  unfoldable pub hash_of : Text → FileInfo → Option Text
  hash_of rel fi = elim (get rel files) [
    | none ↦ hash rel
    | some prev ↦
        if not force
          && (not prev.deleted
              && (nat_eqb prev.size fi.size
                  && (nat_eqb prev.mod_time fi.mod_time && not (text_eqb prev.hash []))))
        then some prev.hash
        else hash rel
  ]

  abbrev pub prev_updated : Text → Time
  prev_updated rel = elim (get rel files) [ none ↦ 0 | some prev ↦ prev.updated_at ]

  abbrev pub disk_entry : Text → FileInfo → Text → Entry
  disk_entry rel fi h = record {
    path = rel;
    size = fi.size;
    mod_time = fi.mod_time;
    mode = fi.mode;
    hash = h;
    deleted = false;
    deleted_at = 0;
    updated_at = stamp_updated_at now fi.mod_time (prev_updated rel);
  }

  -- The callback on a file that is no directory.
  unfoldable pub visit_file :
      Text → Text → Bool → Option FileInfo → Table Text Entry → Option (Table Text Entry)
  visit_file rel name regular info disk =
      if not regular || is_reserved_component name then some disk else elim info [
        | none ↦ none
        | some fi ↦ elim (hash_of rel fi) [
          | none ↦ none
          | some h ↦ some (put rel (disk_entry rel fi h) disk)
        ]
      ]

  -- `fs.WalkDir` with the callback of `Scan`; `none` is an error.
  unfoldable pub walk : Text → Forest → Table Text Entry → Option (Table Text Entry)
  walk prefix done disk = some disk
  walk prefix (broken name rest) disk = none
  walk prefix (file name regular info rest) disk =
      elim (visit_file (join_path prefix name) name regular info disk) [
        | none ↦ none
        | some disk' ↦ walk prefix rest disk'
      ]
  walk prefix (dir name children rest) disk = elim (is_reserved_component name) [
    | true ↦ walk prefix rest disk
    | false ↦ elim (walk (join_path prefix name) children disk) [
      | none ↦ none
      | some disk' ↦ walk prefix rest disk'
    ]
  ]

-- A loop over a map that appends changes.
unfoldable pub each : (Text → Entry → List Change) → Table Text Entry → List Change
each f [] = []
each f ((path, e) ∷ m) = f path e ++ each f m

module _ (now : Time) where
  abbrev pub stamped : Entry → Time → Entry
  stamped de prev = record de { updated_at = stamp_updated_at now de.mod_time prev }

  -- A change of metadata alone keeps hash and size.
  abbrev pub keep_content : Entry → Entry → Entry
  keep_content prev e =
      if text_eqb prev.hash e.hash && nat_eqb prev.size e.size
      then record e { hash = prev.hash; size = prev.size }
      else e

  -- One round of the loop over the disk.
  unfoldable pub disk_change : Table Text Entry → Text → Entry → List Change
  disk_change known path de = elim (get path known) [
    | none ↦ record { kind = added; path = path; entry = stamped de 0 } ∷ []
    | some prev ↦
        if prev.deleted
        then record { kind = added; path = path; entry = stamped de prev.updated_at } ∷ []
        else (if not (text_eqb prev.hash de.hash)
              || (not (nat_eqb prev.size de.size)
                  || (not (nat_eqb prev.mode de.mode) || not (nat_eqb prev.mod_time de.mod_time)))
            then record {
              kind = modified;
              path = path;
              entry = keep_content prev (stamped de prev.updated_at);
            }
              ∷ []
            else [])
  ]

  abbrev pub tomb : Entry → Entry
  tomb prev = record prev {
    deleted = true;
    deleted_at = now;
    updated_at = stamp_updated_at now 0 prev.updated_at;
    size = 0;
    hash = [];
  }

  -- One round of the loop over the index.
  unfoldable pub index_change : Table Text Entry → Text → Entry → List Change
  index_change disk path prev = if prev.deleted then [] else elim (get path disk) [
    | some de ↦ []
    | none ↦ record { kind = deleted; path = path; entry = tomb prev } ∷ []
  ]

  unfoldable pub changes : Table Text Entry → Table Text Entry → List Change
  changes known disk = each (disk_change known) disk ++ each (index_change disk) known

pub record Result : Type 0 where
  pub changes : List Change
  pub disk : Table Text Entry

unfoldable pub scan : Bool → (Text → Option Text) → Forest → Table Text Entry → Time → Option Result
scan force hash forest files now = elim (walk force hash files now [] forest []) [
  | none ↦ none
  | some disk ↦ some (record { changes = changes now files disk; disk = disk })
]

-- `Apply` over the changes: the map, the count and the entries that were taken, in order.
unfoldable pub apply_changes : List Change → Table Text Entry → Table Text Entry × ℕ × List Entry
apply_changes [] m = (m, 0, [])
apply_changes (c ∷ cs) m =
    let (m', ok) = put_if_wins c.entry m in
    let (m'', n, applied) = apply_changes cs m' in
    if ok then (m'', suc n, c.entry ∷ applied) else (m'', n, applied)

unfoldable pub apply : Index → Result → Index × ℕ × List Entry
unfolding apply_changes
apply idx res =
    let (m, n, applied) = apply_changes res.changes idx.files in
    (record idx { files = m }, n, applied)
