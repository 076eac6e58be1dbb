-- ===== src/Tests/Branches.antt =====
-- A branch with one version, and the updates of it.
use icechunk.Prelude.{
  ℕ, zero, suc, ◌+◌, ◌≤◌, ◌<◌, ◌≡◌, ◌≢◌, refl, Bool, true, false, Option, none, some, List, [], ◌∷◌,
  ◌++◌, Str, codes, arith, nat_eq, list_eq, ◌==◌, Eq, Result, ok, err, list_lt, if◌then◌else◌,
}
use icechunk.Format.{SnapshotId}
use icechunk.Refs.{conflict, encode_version, decode_version, branch_root, last_branch_version}
use icechunk.Refs.Versions.{decode-encode_version, encode_version_antitone}
use icechunk.Refs.Writes.{check_tip, update_branch}
use icechunk.Refs.Branches.{update_branch_refused, last_branch_version_lem}
use icechunk.Refs.Updates.{undisturbed, version_key, Advances, update_branch-Advances}
use icechunk.Tests.Packages.{
  test_external, test_codec, test_storage, test_files, TestStore, write_file,
}
use icechunk.Tests.Sessions.{no_files}

abbrev main : Str
main = codes "main"

abbrev main_root : Str
main_root = codes "branch.main"

-- `main` has version 0, which is snapshot 1.
abbrev pub one_version : TestStore
one_version = write_file no_files (version_key main_root 0) (1 ∷ [])

abbrev old_id : SnapshotId
old_id = 1 ∷ []

abbrev new_id : SnapshotId
new_id = 2 ∷ []

decode-encode_version_example : decode_version (encode_version 3) ≡ ok 3
decode-encode_version_example = decode-encode_version 3 (omega arith)

encode_version_antitone_example : list_lt (encode_version 4) (encode_version 3) ≡ true
encode_version_antitone_example = encode_version_antitone 3 4 (omega arith) (omega arith)

update_branch_refused_example :
    update_branch (undisturbed ∷ []) one_version main new_id none false
    ≡ (some (err (conflict none (some old_id))), one_version)
unfolding branch_root icechunk.Prelude.strip_prefix encode_version
update_branch_refused_example =
    update_branch_refused test_files undisturbed [] one_version main main_root new_id none
      (some old_id) false 1 refl refl (omega arith) (old_id, (refl, refl)) λ h. ground (arith, h)

last_branch_version_lem_example : last_branch_version one_version main ≡ ok 0
unfolding branch_root icechunk.Prelude.strip_prefix
last_branch_version_lem_example =
    last_branch_version_lem test_files one_version main main_root 0 refl refl (omega arith)

update_branch-Advances_example :
    ((update_branch (undisturbed ∷ []) one_version main new_id (some old_id) false).0 ≡ some (ok 1))
    × Advances test_files main main_root 1 new_id
        (update_branch (undisturbed ∷ []) one_version main new_id (some old_id) false).1
unfolding branch_root check_tip
update_branch-Advances_example =
    update_branch-Advances test_files [] one_version main main_root new_id (some old_id) false 1 1
      refl refl (omega arith) refl refl
