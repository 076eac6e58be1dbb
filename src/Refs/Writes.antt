-- ===== src/Refs/Writes.antt =====
-- `create_tag` and `update_branch` of icechunk/src/refs.rs: the writes.
use icechunk.Prelude.{
  ℕ, ◌+◌, Bool, true, false, Option, none, some, List, [], ◌∷◌, Str, nat_eq, list_eq, ◌==◌, ok, err,
  ◌>>=◌, map_ok, option_map, if◌then◌else◌,
}
use icechunk.Format.{External, SnapshotId}
use icechunk.Storage.{Storage, StorageError, StorageResult, ref_already_exists, wrapped}
use icechunk.Refs.{
  RefData, Codec, RefError, RefResult, storage, tag_already_exists, conflict, tag_key, version_path,
  last_branch_version, fetch_branch,
}

abbrev written_tag : Str → StorageResult Unit → RefResult Unit
written_tag name (ok u) = ok u
written_tag name (err (ref_already_exists _)) = err (tag_already_exists name)
written_tag name (err (StorageError.ref_not_found key)) =
    err (storage (StorageError.ref_not_found key))
written_tag name (err (wrapped e)) = err (storage (wrapped e))

-- `Option<SnapshotId>` compared
abbrev pub same_snapshot : Option SnapshotId → Option SnapshotId → Bool
same_snapshot none none = true
same_snapshot (some a) (some b) = a == b
same_snapshot _ _ = false

-- One attempt to write a branch version: finished, or to be made again because another writer was
-- faster.
pub data Attempt : Type 0 where
  finished : RefResult ℕ → Attempt
  again : Attempt

abbrev written_version : ℕ → StorageResult Unit → Attempt
written_version v (ok u) = finished (ok v)
written_version v (err (ref_already_exists _)) = again
written_version v (err (StorageError.ref_not_found key)) =
    finished (err (storage (StorageError.ref_not_found key)))
written_version v (err (wrapped e)) = finished (err (storage (wrapped e)))

module _ ⦃E : External⦄ ⦃S : Storage⦄ ⦃C : Codec⦄ where
  open S use {Store, write_ref}
  open C use {to_json}

  abbrev write_tag : Store → Str → SnapshotId → Bool → RefResult Str → RefResult Unit × Store
  write_tag s name snapshot overwrite (err e) = (err e, s)
  write_tag s name snapshot overwrite (ok key) =
      let (r, s') = write_ref s key overwrite (to_json (record { snapshot = snapshot })) in
      (written_tag name r, s')

  unfoldable pub create_tag : Store → Str → SnapshotId → Bool → RefResult Unit × Store
  unfolding tag_key
  create_tag s name snapshot overwrite = write_tag s name snapshot overwrite (tag_key name)

  -- The last version with its data; a branch with no version is not an error.
  abbrev pub with_data : Store → Str → RefResult ℕ → RefResult (Option (ℕ × RefData))
  with_data s name (ok version) = map_ok (λ d. some (version, d)) (fetch_branch s name version)
  with_data s name (err (RefError.ref_not_found _)) = ok none
  with_data s name (err e) = err e

  -- `inc` of the last version, or `initial`
  abbrev pub next_version : Option (ℕ × RefData) → ℕ
  next_version none = 0
  next_version (some (version, d)) = version + 1

  abbrev pub snapshot_of : Option (ℕ × RefData) → Option SnapshotId
  snapshot_of last = option_map (λ d. d.1.snapshot) last

  -- Reading the tip, and the comparison with the snapshot that the writer started from
  unfoldable pub check_tip : Store → Str → Option SnapshotId → RefResult ℕ
  unfolding last_branch_version fetch_branch
  check_tip s name current_snapshot = do
    last ← with_data s name (last_branch_version s name)
    (if same_snapshot (snapshot_of last) current_snapshot
        then ok (next_version last)
        else err (conflict current_snapshot (snapshot_of last)))

  abbrev write_version : Store → SnapshotId → Bool → ℕ → RefResult Str → Attempt × Store
  write_version s new_snapshot overwrite v (err e) = (finished (err e), s)
  write_version s new_snapshot overwrite v (ok key) =
      let (r, s') = write_ref s key overwrite (to_json (record { snapshot = new_snapshot })) in
      (written_version v r, s')

  abbrev write_next :
      (Store → Store) → Store → Str → SnapshotId → Bool → RefResult ℕ → Attempt × Store
  write_next others s name new_snapshot overwrite (err e) = (finished (err e), s)
  write_next others s name new_snapshot overwrite (ok v) =
      write_version (others s) new_snapshot overwrite v (version_path v name)

  -- The body of `update_branch` up to its recursive call. `others` is what other writers do to the
  -- store between the check and the write.
  unfoldable pub attempt_update :
      (Store → Store) → Store → Str → SnapshotId → Option SnapshotId → Bool → Attempt × Store
  unfolding check_tip version_path
  attempt_update others s name new_snapshot current_snapshot overwrite =
      write_next others s name new_snapshot overwrite (check_tip s name current_snapshot)

  -- `update_branch`, for a finite list of what other writers do during each attempt; `none` means
  -- that the list has ended and another attempt would be made.
  unfoldable pub update_branch :
      List (Store → Store)
      → Store
      → Str
      → SnapshotId
      → Option SnapshotId
      → Bool
      → Option (RefResult ℕ) × Store
  unfolding attempt_update
  update_branch [] s name new_snapshot current_snapshot overwrite = (none, s)
  update_branch (other ∷ others) s name new_snapshot current_snapshot overwrite =
      let (a, s') = attempt_update other s name new_snapshot current_snapshot overwrite in
      elim a [
        | finished r ↦ (some r, s')
        | again ↦ update_branch others s' name new_snapshot current_snapshot overwrite
      ]
