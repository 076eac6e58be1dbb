-- ===== src/Zarr/Versions/Checkout.antt =====
-- What a `checkout` leaves, when it succeeds and when it fails.
use icechunk.Prelude.{
  ◌≡◌, refl, ap, sym, ◌∙◌, inl, inr, Bool, false, Option, none, some, ok, err, Str, arith,
  if◌then◌else◌, Bool-cases,
}
use mathlib.Core.Path.{subst}
use icechunk.Format.{External, SnapshotId}
use icechunk.Refs.{Codec, RefData, RefResult, fetch_tag, fetch_branch_tip}
use icechunk.Storage.{Storage}
use icechunk.Repository.{RepositoryResult}
use icechunk.Repository.Editing.{has_uncommitted_changes}
use icechunk.Repository.Opening.{
  raise_if_invalid_snapshot_id, set_snapshot_id, set_snapshot_from_tag, set_snapshot_from_branch,
  at_ref,
}
use icechunk.Zarr.{
  readonly, VersionInfo, at_snapshot, at_tag, at_branch_tip, ZarrStore, StoreError, StoreResult,
  uncommitted_changes,
}
use icechunk.Zarr.Versions.{checkout, checkout_clean, detach, attach, at_id}

module _ ⦃E : External⦄ ⦃S : Storage⦄ ⦃C : Codec⦄ where
  -- The store at a snapshot, and otherwise as it was: detached and read only
  abbrev pub Detached : ZarrStore → SnapshotId → ZarrStore → Type 0
  Detached store id store' = store' ≡ record store {
    repository = set_snapshot_id store.repository id;
    mode = readonly;
    current_branch = none;
  }

  -- What a checkout of each kind of version promises
  abbrev pub CheckedOut : ZarrStore → VersionInfo → ZarrStore → Type 0
  CheckedOut store (at_snapshot sid) store' = Detached store sid store'
  CheckedOut store (at_tag tag) store' =
      (d : RefData) × ((fetch_tag store.repository.store tag ≡ ok d)
        × Detached store d.snapshot store')
  CheckedOut store (at_branch_tip branch) store' =
      (d : RefData) × ((fetch_branch_tip store.repository.store branch ≡ ok d)
        × (store' ≡ record store {
          repository = set_snapshot_id store.repository d.snapshot;
          current_branch = some branch;
        }))

  detach-at_id :
      (store : ZarrStore) (id : SnapshotId) (r : RepositoryResult (Unit {0}))
      → (detach store (at_id store.repository id r)).0 ≡ ok tt
      → Detached store id (detach store (at_id store.repository id r)).1
  detach-at_id store id (ok tt) h = refl
  detach-at_id store id (err e) h = ground (arith, h)

  detach-at_ref :
      (store : ZarrStore) (r : RefResult RefData)
      → (detach store (at_ref store.repository r)).0 ≡ ok tt
      → (d : RefData) × ((r ≡ ok d)
          × Detached store d.snapshot (detach store (at_ref store.repository r)).1)
  detach-at_ref store (ok d) h = (d, (refl, refl))
  detach-at_ref store (err e) h = ground (arith, h)

  attach-at_ref :
      (store : ZarrStore) (branch : Str) (r : RefResult RefData)
      → (attach store branch (at_ref store.repository r)).0 ≡ ok tt
      → (d : RefData) × ((r ≡ ok d)
          × ((attach store branch (at_ref store.repository r)).1 ≡ record store {
            repository = set_snapshot_id store.repository d.snapshot;
            current_branch = some branch;
          }))
  attach-at_ref store branch (ok d) h = (d, (refl, refl))
  attach-at_ref store branch (err e) h = ground (arith, h)

  clean-CheckedOut :
      (store : ZarrStore) (version : VersionInfo)
      → (checkout_clean store version).0 ≡ ok tt
      → CheckedOut store version (checkout_clean store version).1
  unfolding set_snapshot_from_tag set_snapshot_from_branch
  clean-CheckedOut store (at_snapshot sid) h =
      detach-at_id store sid (raise_if_invalid_snapshot_id store.repository.store sid) h
  clean-CheckedOut store (at_tag tag) h =
      detach-at_ref store (fetch_tag store.repository.store tag) h
  clean-CheckedOut store (at_branch_tip branch) h =
      attach-at_ref store branch (fetch_branch_tip store.repository.store branch) h

  when_clean :
      (store : ZarrStore) (version : VersionInfo) {b : Bool}
      → has_uncommitted_changes store.repository ≡ b
      → checkout store version
        ≡ (if b then (err uncommitted_changes, store) else checkout_clean store version)
  unfolding checkout
  when_clean store version h =
      ap (λ b. if b then (err uncommitted_changes, store) else checkout_clean store version) h

  -- A checkout that succeeds moves a session without changes to the snapshot of the version: the given
  -- one, or the one that the tag or the branch's tip names. A snapshot or a tag leaves the store
  -- detached and read only; a branch becomes the current one, and the mode stays. The rest of the store
  -- stays.
  pub checkout-CheckedOut :
      (store : ZarrStore) (version : VersionInfo)
      → (checkout store version).0 ≡ ok tt
      → (has_uncommitted_changes store.repository ≡ false)
        × CheckedOut store version (checkout store version).1
  checkout-CheckedOut store version h =
      elim (Bool-cases (has_uncommitted_changes store.repository)) [
        | inl dirty ↦ absurd (refused (sym (ap (λ r. r.0) (when_clean store version dirty)) ∙ h))
        | inr clean ↦ (
          clean,
          subst (λ r. CheckedOut store version r.1) (sym (when_clean store version clean))
              (clean-CheckedOut store version
                (sym (ap (λ r. r.0) (when_clean store version clean)) ∙ h)),
        )
      ]
    where
      refused : ◌≡◌ {A = StoreResult (Unit {0})} (err uncommitted_changes) (ok tt) → ⊥
      refused e = ground (arith, e)

  -- The branch that a store is on at a version
  abbrev pub branch_of : VersionInfo → Option Str
  branch_of (at_snapshot _) = none
  branch_of (at_tag _) = none
  branch_of (at_branch_tip branch) = some branch

  -- Only the current branch changes, and to the given one.
  abbrev pub Unmoved : ZarrStore → Option Str → ZarrStore → Type 0
  Unmoved store branch store' = store' ≡ record store { current_branch = branch }

  detach-at_id_failed :
      (store : ZarrStore) (id : SnapshotId) (r : RepositoryResult (Unit {0})) (e : StoreError)
      → (detach store (at_id store.repository id r)).0 ≡ err e
      → Unmoved store none (detach store (at_id store.repository id r)).1
  detach-at_id_failed store id (ok tt) e h = ground (arith, h)
  detach-at_id_failed store id (err d) e h = refl

  detach-at_ref_failed :
      (store : ZarrStore) (r : RefResult RefData) (e : StoreError)
      → (detach store (at_ref store.repository r)).0 ≡ err e
      → Unmoved store none (detach store (at_ref store.repository r)).1
  detach-at_ref_failed store (ok d) e h = ground (arith, h)
  detach-at_ref_failed store (err d) e h = refl

  attach-at_ref_failed :
      (store : ZarrStore) (branch : Str) (r : RefResult RefData) (e : StoreError)
      → (attach store branch (at_ref store.repository r)).0 ≡ err e
      → Unmoved store (some branch) (attach store branch (at_ref store.repository r)).1
  attach-at_ref_failed store branch (ok d) e h = ground (arith, h)
  attach-at_ref_failed store branch (err d) e h = refl

  clean_failed :
      (store : ZarrStore) (version : VersionInfo) (e : StoreError)
      → (checkout_clean store version).0 ≡ err e
      → Unmoved store (branch_of version) (checkout_clean store version).1
  unfolding set_snapshot_from_tag set_snapshot_from_branch
  clean_failed store (at_snapshot sid) e h =
      detach-at_id_failed store sid (raise_if_invalid_snapshot_id store.repository.store sid) e h
  clean_failed store (at_tag tag) e h =
      detach-at_ref_failed store (fetch_tag store.repository.store tag) e h
  clean_failed store (at_branch_tip branch) e h =
      attach-at_ref_failed store branch (fetch_branch_tip store.repository.store branch) e h

  -- A checkout that fails leaves the session and the mode as they were. But unless it failed for
  -- uncommitted changes, the current branch is the version's already: the missing branch that was asked
  -- for, or none.
  pub checkout_failed :
      (store : ZarrStore) (version : VersionInfo) (e : StoreError)
      → (checkout store version).0 ≡ err e
      → Unmoved store
          (if has_uncommitted_changes store.repository
            then store.current_branch
            else branch_of version)
          (checkout store version).1
  checkout_failed store version e h = elim (Bool-cases (has_uncommitted_changes store.repository)) [
    | inl dirty ↦ rw dirty (ap (λ r. r.1) (when_clean store version dirty))
    | inr clean ↦ rw clean (
        ap (λ r. r.1) (when_clean store version clean)
        ∙ clean_failed store version e (sym (ap (λ r. r.0) (when_clean store version clean)) ∙ h))
  ]
