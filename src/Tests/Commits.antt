-- ===== src/Tests/Commits.antt =====
-- A commit on a branch that has moved.
use icechunk.Prelude.{
  ℕ, ◌≡◌, refl, Bool, true, false, Option, none, some, List, [], ◌∷◌, nat_eq, list_eq, Eq, Result,
  ok, err, Str, codes,
}
use icechunk.Dict.{get}
use icechunk.Format.{External, SnapshotId}
use icechunk.Repository.{Repository, RepositoryError, no_changes_to_commit, conflict_error}
use icechunk.Repository.Committing.{Fresh, flush, do_commit}
use icechunk.Repository.Commits.{do_commit_lost}
use icechunk.Repository.Flushes.{flush-Flushed}
use icechunk.Repository.Flushes.Records.{Flushed}
use icechunk.Refs.Updates.{undisturbed}
use icechunk.Tests.Packages.{
  test_external, test_codec, test_storage, test_reads_written, test_writes_apart,
}
use icechunk.Tests.Rebases.{repo}

abbrev ids : Fresh
ids = record { manifest_id = 30 ∷ []; snapshot_id = 9 ∷ []; now = 4 }

abbrev main : Str
main = codes "main"

abbrev message : Str
message = codes "changed"

flush-Flushed_example : Flushed ids repo message (flush ids repo message [])
flush-Flushed_example = flush-Flushed test_reads_written test_writes_apart ids repo message []

written : (flush ids repo message []).0 ≡ ok (9 ∷ [])
unfolding flush do_commit icechunk.ChangeSet.is_empty icechunk.Repository.Listing.all_chunks
    icechunk.Manifest.from_stream icechunk.Snapshot.iter_arc icechunk.Repository.Reading.get_node
    icechunk.ChangeSet.is_deleted icechunk.Format.ancestors icechunk.ChangeSet.Nodes.get_new_node
    get icechunk.Snapshot.snapshot_get_node icechunk.Btree.range_after
    icechunk.ChangeSet.Chunks.array_chunks_iterator
    icechunk.ChangeSet.Chunks.new_arrays_chunk_iterator icechunk.Manifest.manifest_len
    icechunk.Btree.tree_insert icechunk.Repository.Listing.updated_nodes icechunk.Snapshot.from_iter
    icechunk.ChangeSet.Nodes.new_nodes_iterator icechunk.Refs.Writes.update_branch
    icechunk.Prelude.strip_prefix icechunk.Prelude.strip_suffix icechunk.Refs.branch_root
    icechunk.Refs.decode_version icechunk.Refs.encode_version icechunk.Refs.fetch_branch
    icechunk.Refs.last_branch_version icechunk.Refs.history_item
written = refl

refused :
    (do_commit ids (undisturbed ∷ []) repo main message none).0
    ≡ some (err (conflict_error (some (5 ∷ [])) (some (1 ∷ []))))
unfolding flush do_commit icechunk.ChangeSet.is_empty icechunk.Repository.Listing.all_chunks
    icechunk.Manifest.from_stream icechunk.Snapshot.iter_arc icechunk.Repository.Reading.get_node
    icechunk.ChangeSet.is_deleted icechunk.Format.ancestors icechunk.ChangeSet.Nodes.get_new_node
    get icechunk.Snapshot.snapshot_get_node icechunk.Btree.range_after
    icechunk.ChangeSet.Chunks.array_chunks_iterator
    icechunk.ChangeSet.Chunks.new_arrays_chunk_iterator icechunk.Manifest.manifest_len
    icechunk.Btree.tree_insert icechunk.Repository.Listing.updated_nodes icechunk.Snapshot.from_iter
    icechunk.ChangeSet.Nodes.new_nodes_iterator icechunk.Refs.Writes.update_branch
    icechunk.Prelude.strip_prefix icechunk.Prelude.strip_suffix icechunk.Refs.branch_root
    icechunk.Refs.decode_version icechunk.Refs.encode_version icechunk.Refs.fetch_branch
    icechunk.Refs.last_branch_version icechunk.Refs.history_item
refused = refl

do_commit_lost_example :
    ((do_commit ids (undisturbed ∷ []) repo main message none).1.snapshot_id ≡ (9 ∷ []))
    × ((flush ids (do_commit ids (undisturbed ∷ []) repo main message none).1 message []).0
        ≡ err no_changes_to_commit)
do_commit_lost_example =
    do_commit_lost ids ids (undisturbed ∷ []) repo main message none (9 ∷ [])
      (conflict_error (some (5 ∷ [])) (some (1 ∷ []))) written refused
