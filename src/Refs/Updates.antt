-- ===== src/Refs/Updates.antt =====
-- A successful update of a branch: the new version becomes the tip.
use icechunk.Prelude.{
  ℕ, zero, suc, ◌≤◌, ◌≡◌, refl, ap, ◌∙◌, Bool, false, Option, some, List, ◌∷◌, ◌++◌, Str, codes,
  arith, nat_eq, list_eq, list_beq_iff, ok,
}
use icechunk.Format.{External, SnapshotId, Bytes}
use icechunk.Storage.{Storage}
use icechunk.Refs.{
  Codec, branch_root, version_path, last_branch_version, fetch_branch_tip, max_version_number,
}
use icechunk.Refs.Writes.{check_tip, attempt_update, update_branch}
use icechunk.Refs.Branches.{
  version_name, version_names, insert_name-version_names, last_branch_version_lem,
}
use icechunk.Refs.Contract.{RefFiles, insert_name}

-- No other writer acts between the check and the write.
abbrev pub undisturbed {ℓ} : {A : Type ℓ} → A → A
undisturbed s = s

module _ ⦃E : External⦄ ⦃S : Storage⦄ ⦃C : Codec⦄ where
  open S use {Store, get_ref, write_ref, ref_versions}
  open C use {to_json}

  abbrev content : SnapshotId → Bytes
  content snapshot = to_json (record { snapshot = snapshot })

  abbrev pub version_key : Str → ℕ → Str
  version_key root n = root ++ (codes "/" ++ version_name n)

  check_tip-version :
      (F : RefFiles) (s : Store) (name root : Str) (current : Option SnapshotId) (n v : ℕ)
      → branch_root name ≡ ok root
      → F.names s root ≡ version_names n
      → n ≤ max_version_number
      → check_tip s name current ≡ ok v
      → v ≡ n
  unfolding check_tip last_branch_version
  check_tip-version F s name root current zero v h k top t =
      ground (arith, h, k, t, F.versions s root)
  check_tip-version F s name root current (suc n) v h k top t =
      ground (arith, t, last_branch_version_lem F s name root n h k (omega arith))

  update_branch-writes :
      (others : List (Store → Store)) (s : Store) (name root : Str) (new : SnapshotId)
      (current : Option SnapshotId) (overwrite : Bool) (n : ℕ)
      → branch_root name ≡ ok root
      → check_tip s name current ≡ ok n
      → (write_ref s (version_key root n) overwrite (content new)).0 ≡ ok tt
      → update_branch (undisturbed ∷ others) s name new current overwrite
        ≡ (some (ok n), (write_ref s (version_key root n) overwrite (content new)).1)
  unfolding update_branch attempt_update version_path
  update_branch-writes others s name root new current overwrite n h t w = ground (arith, h, t, w)

  -- The branch and its versions before and after a successful update
  pub record Advances (F : RefFiles) (name root : Str) (n : ℕ) (new : SnapshotId) (s : Store)
      : Type 0 where
    pub listed : F.names s root ≡ version_names (suc n)
    pub tip : fetch_branch_tip s name ≡ ok (record { snapshot = new })

  written-Advances :
      (F : RefFiles) (s : Store) (name root : Str) (new : SnapshotId) (overwrite : Bool) (n : ℕ)
      → branch_root name ≡ ok root
      → F.names s root ≡ version_names n
      → n ≤ max_version_number
      → (write_ref s (version_key root n) overwrite (content new)).0 ≡ ok tt
      → Advances F name root n new (write_ref s (version_key root n) overwrite (content new)).1
  unfolding fetch_branch_tip version_path
  written-Advances F s name root new overwrite n h k top w =
      let s' : Store = (write_ref s (version_key root n) overwrite (content new)).1 in
      let names : F.names s' root ≡ version_names (suc n) =
        F.names_after s root (version_name n) overwrite (content new) w
        ∙ ap (insert_name (version_name n)) k
        ∙ insert_name-version_names n top in
      record {
        listed = names;
        tip = ground (
          arith,
          h,
          last_branch_version_lem F s' name root n h names top,
          F.get_found s' (version_key root n) (content new),
          F.file_after s (version_key root n) overwrite (content new) w (version_key root n),
          list_beq_iff (version_key root n) (version_key root n),
          C.json_round_trip (record { snapshot = new }),
        );
      }

  -- A branch whose files are its first n versions, an update that starts from its tip (so that the
  -- check passes) and is not disturbed, and a write that succeeds: `update_branch` returns the
  -- version n, the branch then has n + 1 versions, and its tip is the new snapshot.
  pub update_branch-Advances :
      (F : RefFiles) (others : List (Store → Store)) (s : Store) (name root : Str)
      (new : SnapshotId) (current : Option SnapshotId) (overwrite : Bool) (n v : ℕ)
      → branch_root name ≡ ok root
      → F.names s root ≡ version_names n
      → n ≤ max_version_number
      → check_tip s name current ≡ ok v
      → (write_ref s (version_key root n) overwrite (content new)).0 ≡ ok tt
      → ((update_branch (undisturbed ∷ others) s name new current overwrite).0 ≡ some (ok n))
        × Advances F name root n new
            (update_branch (undisturbed ∷ others) s name new current overwrite).1
  update_branch-Advances F others s name root new current overwrite n v h k top t w =
      let same = check_tip-version F s name root current n v h k top t in
      let step =
        update_branch-writes others s name root new current overwrite n h (t ∙ ap ok same) w in
      rw step (refl, written-Advances F s name root new overwrite n h k top w)

  -- If another writer has created the file of the next version after the check, an update that must
  -- not overwrite leaves the store as that writer left it and makes another attempt.
  update_branch_retries :
      (F : RefFiles) (other : Store → Store) (others : List (Store → Store)) (s : Store)
      (name root : Str) (new : SnapshotId) (current : Option SnapshotId) (v : ℕ) (old : Bytes)
      → branch_root name ≡ ok root
      → check_tip s name current ≡ ok v
      → F.file (other s) (version_key root v) ≡ some old
      → update_branch (other ∷ others) s name new current false
        ≡ update_branch others (other s) name new current false
  unfolding update_branch attempt_update version_path
  update_branch_retries F other others s name root new current v old h t taken =
      ground (arith, h, t, F.write_present (other s) (version_key root v) (content new) old taken)
