-- ===== src/Refs/Branches.antt =====
-- What `update_branch` guarantees.
use icechunk.Prelude.{
  ◌≢◌, none, ap, inl, inr, Bool-cases, eq_of_==, map_ok, ℕ, zero, suc, ◌≤◌, ◌≡◌, refl, sym, ◌∙◌,
  Bool, true, false, Option, some, List, [], ◌∷◌, ◌++◌, Str, codes, arith, nat_eq, list_eq,
  list_beq_iff, list_lt, ok, err, list_lt_irrefl, strip_suffix-append, list_lt-append,
}
use icechunk.Format.{External, SnapshotId}
use icechunk.Storage.{Storage}
use icechunk.Refs.{
  RefData, Codec, RefError, conflict, branch_root, branch_key, version_path, encode_version,
  last_branch_version, fetch_branch, history_item, json_suffix, max_version_number, low_bytes,
}
use icechunk.Refs.Versions.{decode-encode_version, encode_version_antitone}
use icechunk.Refs.Writes.{
  same_snapshot, snapshot_of, check_tip, attempt_update, update_branch, with_data,
}
use icechunk.Refs.Contract.{RefFiles, insert_name}

module _ ⦃E : External⦄ ⦃S : Storage⦄ ⦃C : Codec⦄ where
  open S use {Store, get_ref, write_ref, ref_versions}

  refused_by_check :
      (other : Store → Store) (others : List (Store → Store)) (s : Store) (name : Str)
      (new : SnapshotId) (current : Option SnapshotId) (overwrite : Bool) (e : RefError)
      → check_tip s name current ≡ err e
      → update_branch (other ∷ others) s name new current overwrite ≡ (some (err e), s)
  unfolding update_branch attempt_update
  refused_by_check other others s name new current overwrite e h = ground (arith, h)

  same_snapshot-eq : (a b : Option SnapshotId) → same_snapshot a b ≡ true → a ≡ b
  same_snapshot-eq none none h = refl
  same_snapshot-eq (some a) (some b) h = ap some (eq_of_== a b h)
  same_snapshot-eq none (some b) h = ground (arith, h)
  same_snapshot-eq (some a) none h = ground (arith, h)

  check_tip-conflict :
      (s : Store) (name : Str) (current : Option SnapshotId) (last : Option (ℕ × RefData))
      → with_data s name (last_branch_version s name) ≡ ok last
      → same_snapshot (snapshot_of last) current ≡ false
      → check_tip s name current ≡ err (conflict current (snapshot_of last))
  unfolding check_tip
  check_tip-conflict s name current last h d = ground (arith, h, d)

  branch_key_root :
      (name root : Str) (v : ℕ)
      → branch_root name ≡ ok root
      → version_path v name ≡ ok (root ++ (codes "/" ++ (encode_version v ++ json_suffix)))
  unfolding version_path
  branch_key_root name root v h = rw (h, branch_key) refl

  abbrev pub version_name : ℕ → Str
  version_name v = encode_version v ++ json_suffix

  -- The names of the first versions of a branch, in the order in which they are listed
  abbrev pub version_names : ℕ → List Str
  version_names zero = []
  version_names (suc n) = version_name n ∷ version_names n

  version_name_antitone :
      (n : ℕ) → suc n ≤ max_version_number → list_lt (version_name (suc n)) (version_name n) ≡ true
  unfolding encode_version
  version_name_antitone n h =
      list_lt-append (encode_version (suc n)) (encode_version n) json_suffix
        (C.base32_length _ (unfold low_bytes in refl)
          ∙ sym (C.base32_length _ (unfold low_bytes in refl)))
        (encode_version_antitone n (suc n) (omega arith) h)

  pub insert_name-version_names :
      (n : ℕ)
      → n ≤ max_version_number
      → insert_name (version_name n) (version_names n) ≡ version_names (suc n)
  insert_name-version_names zero h = refl
  insert_name-version_names (suc n) h = ground (
    arith,
    version_name_antitone n h,
    list_beq_iff (version_name (suc n)) (version_name n),
    list_lt_irrefl (version_name n),
  )

  history_item-version_name :
      (n : ℕ) → n ≤ max_version_number → history_item (ok (version_name n)) ≡ ok n
  unfolding history_item
  history_item-version_name n h =
      rw (strip_suffix-append (encode_version n) json_suffix, history_item)
        (decode-encode_version n h)

  -- A branch whose files are its first n + 1 versions has n as its last version.
  pub last_branch_version_lem :
      (F : RefFiles) (s : Store) (name root : Str) (n : ℕ)
      → branch_root name ≡ ok root
      → F.names s root ≡ version_names (suc n)
      → n ≤ max_version_number
      → last_branch_version s name ≡ ok n
  unfolding last_branch_version
  last_branch_version_lem F s name root n h k top =
      ground (arith, h, k, F.versions s root, history_item-version_name n top)

  -- What the files of a branch with n versions say of its tip: the content of the last version
  abbrev pub Tip : RefFiles → Store → Str → ℕ → Option SnapshotId → Type 0
  Tip F s root zero tip = tip ≡ none
  Tip F s root (suc n) tip =
      (id : SnapshotId) × ((tip ≡ some id)
        × (F.file s (root ++ (codes "/" ++ version_name n))
            ≡ some (C.to_json (record { snapshot = id }))))

  fetched :
      (F : RefFiles) (s : Store) (name root : Str) (n : ℕ) (id : SnapshotId)
      → branch_root name ≡ ok root
      → F.file s (root ++ (codes "/" ++ version_name n))
        ≡ some (C.to_json (record { snapshot = id }))
      → fetch_branch s name n ≡ ok (record { snapshot = id })
  unfolding fetch_branch version_path
  fetched F s name root n id h file = ground (
    arith,
    h,
    F.get_found s (root ++ (codes "/" ++ version_name n)) (C.to_json (record { snapshot = id }))
        file,
    C.json_round_trip (record { snapshot = id }),
  )

  with_data-Tip :
      (F : RefFiles) (s : Store) (name root : Str) (n : ℕ) (tip : Option SnapshotId)
      → branch_root name ≡ ok root
      → F.names s root ≡ version_names n
      → n ≤ max_version_number
      → Tip F s root n tip
      → (last : Option (ℕ × RefData)) × ((with_data s name (last_branch_version s name) ≡ ok last)
          × (snapshot_of last ≡ tip))
  unfolding last_branch_version
  with_data-Tip F s name root zero tip h k top t =
      (none, (ground (arith, h, k, F.versions s root), sym t))
  with_data-Tip F s name root (suc n) tip h k top (id, (same, file)) =
      let data' : RefData = record { snapshot = id } in
      (
        some (n, data'),
        (
          ap (with_data s name) (last_branch_version_lem F s name root n h k (omega (arith, top)))
              ∙ ap (map_ok (λ d. some (n, d))) (fetched F s name root n id h file),
          sym same,
        ),
      )

  -- A branch whose files are its first n versions, at most the greatest version number, and a writer
  -- that did not start from its tip (with n = 0 the branch has no tip): `update_branch` returns a
  -- conflict of the two, and leaves the store as it was, whatever other writers would do after the
  -- check, and also when it may overwrite.
  pub update_branch_refused :
      (F : RefFiles) (other : Store → Store) (others : List (Store → Store)) (s : Store)
      (name root : Str) (new : SnapshotId) (current tip : Option SnapshotId) (overwrite : Bool)
      (n : ℕ)
      → branch_root name ≡ ok root
      → F.names s root ≡ version_names n
      → n ≤ max_version_number
      → Tip F s root n tip
      → tip ≢ current
      → update_branch (other ∷ others) s name new current overwrite
        ≡ (some (err (conflict current tip)), s)
  update_branch_refused F other others s name root new current tip overwrite n h k top t differ =
      let (last, (read, same)) = with_data-Tip F s name root n tip h k top t in
      elim (Bool-cases (same_snapshot (snapshot_of last) current)) [
        | inl equal ↦ absurd (differ (sym same ∙ same_snapshot-eq (snapshot_of last) current equal))
        | inr other_tip ↦
            refused_by_check other others s name new current overwrite
              (conflict current (snapshot_of last))
              (check_tip-conflict s name current last read other_tip)
            ∙ ap (λ found. (some (err (conflict current found)), s)) same
      ]
