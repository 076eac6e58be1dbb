-- ===== src/Tests/Checkouts.antt =====
-- A store that checks out a snapshot, and a branch that is missing.
use icechunk.Prelude.{◌≡◌, refl, false, none, some, [], ◌∷◌, ok, err, codes, Str, if◌then◌else◌}
use icechunk.ChangeSet
use icechunk.Format.{SnapshotId}
use icechunk.Repository.Editing.{has_uncommitted_changes}
use icechunk.Refs.{fetch_branch_tip}
use icechunk.Repository.Opening.{raise_if_invalid_snapshot_id, set_snapshot_from_branch}
use icechunk.Zarr.{at_snapshot, at_branch_tip, readwrite, ZarrStore, from_repository, StoreError}
use icechunk.Zarr.Versions.{checkout}
use icechunk.Zarr.Versions.Checkout.{
  CheckedOut, Unmoved, branch_of, checkout-CheckedOut, checkout_failed,
}
use icechunk.Tests.Packages.{test_external, test_codec, test_storage}
use icechunk.Tests.Rebases.{repo}

abbrev store : ZarrStore
store =
    from_repository (record repo { change_set = ChangeSet.empty }) readwrite (some (codes "main"))
      none

abbrev id : SnapshotId
id = 3 ∷ []

checked_out : (checkout store (at_snapshot id)).0 ≡ ok tt
unfolding checkout has_uncommitted_changes ChangeSet.is_empty raise_if_invalid_snapshot_id
checked_out = refl

checkout-CheckedOut_example :
    (has_uncommitted_changes store.repository ≡ false)
    × CheckedOut store (at_snapshot id) (checkout store (at_snapshot id)).1
checkout-CheckedOut_example = checkout-CheckedOut store (at_snapshot id) checked_out

abbrev lost : Str
lost = codes "lost"

failed : (e : StoreError) × ((checkout store (at_branch_tip lost)).0 ≡ err e)
unfolding checkout has_uncommitted_changes ChangeSet.is_empty set_snapshot_from_branch
    fetch_branch_tip
failed = (_, refl)

checkout_failed_example :
    Unmoved store
      (if has_uncommitted_changes store.repository
        then store.current_branch
        else branch_of (at_branch_tip lost))
      (checkout store (at_branch_tip lost)).1
checkout_failed_example = checkout_failed store (at_branch_tip lost) failed.0 failed.1
