-- ===== src/Tests/Sessions.antt =====
-- A session with a group and an array in it, and what it reads.
use icechunk.Prelude.{
  arith, ◌⊎◌, false, true, ℕ, ◌≡◌, refl, true, ◌||◌, ◌&&◌, none, some, List, [], ◌∷◌, nat_eq,
  list_eq, ok, any, if◌then◌else◌, ℤ,
}
use icechunk.Dict.{contains_key, get, remove, set_insert}
use icechunk.Format.{External, NodePath, NodeId, ChunkIndices, path_eq, starts_with}
use icechunk.Format.Chunks.{ChunkPayload}
use icechunk.Format.Nodes.{ZarrArrayMetadata, NodeData, NodeSnapshot}
use icechunk.Metadata.{DataType, ChunkKeyEncoding, FillValue}
use icechunk.ChangeSet
use icechunk.ChangeSet.{ChangeSet, is_deleted, drop_chunk_changes, get_chunk_ref}
use icechunk.ChangeSet.Nodes.{get_new_node}
use icechunk.ChangeSet.Deletion.{new_nodes-delete_group}
use icechunk.ChangeSet.Deletion.Loop.{is_new_group}
use icechunk.ChangeSet.Visibility.{is_deleted-any-starts_with, is_deleted-add_array}
use icechunk.ChangeSet.Merging.{is_deleted-merge, merge-Wins, Wins}
use icechunk.Repository.{Repository, default_config}
use icechunk.Repository.Editing
use icechunk.Repository.Reading.{get_array, get_node}
use icechunk.Repository.Editing.{array_at}
use icechunk.Repository.Edits.{get_chunk_ref-set_chunk_ref_self}
use icechunk.Tests.Packages.{test_external, test_storage, TestStore}

abbrev pub at : List ℕ → NodePath
at components = record { buf = components }

abbrev pub metadata : ZarrArrayMetadata
metadata = record {
  shape = 4 ∷ [];
  data_type = DataType.int32;
  chunk_shape = record { sizes = 2 ∷ [] };
  chunk_key_encoding = ChunkKeyEncoding.slash;
  fill_value = FillValue.int32 (ℤ.pos 0);
  codecs = [];
  storage_transformers = none;
  dimension_names = none;
}

-- The group /1 with the array /1/2 in it, and the array's chunk 0
abbrev pub session : ChangeSet
session = record {
  new_groups = (at (1 ∷ []), 10 ∷ []) ∷ [];
  new_arrays = (at (2 ∷ 1 ∷ []), (20 ∷ [], metadata)) ∷ [];
  updated_arrays = [];
  updated_attributes = [];
  set_chunks = (20 ∷ [], (0 ∷ [], some (ChunkPayload.inline (7 ∷ []))) ∷ []) ∷ [];
  deleted_groups = at (5 ∷ []) ∷ [];
  deleted_arrays = [];
}

abbrev pub no_files : TestStore
no_files = record {
  snapshots = λ id. none;
  manifests = λ id. none;
  logs = λ id. none;
  files = λ key. none;
  listing = λ root. [];
  chunks = λ id. none;
  refs = [];
  snapshot_infos = [];
  manifest_infos = [];
  chunk_infos = [];
}

abbrev pub repo : Repository
repo = record {
  config = default_config;
  store = no_files;
  snapshot_id = 1 ∷ [];
  change_set = session;
}

abbrev the_array : NodeSnapshot
the_array = record {
  id = 20 ∷ [];
  path = at (2 ∷ 1 ∷ []);
  user_attributes = none;
  node_data = NodeData.array metadata [];
}

is_deleted-any-starts_with_example : is_deleted session (at (6 ∷ 5 ∷ [])) ≡ (
    any (starts_with (at (6 ∷ 5 ∷ []))) session.deleted_groups
    || any (starts_with (at (6 ∷ 5 ∷ []))) session.deleted_arrays)
is_deleted-any-starts_with_example = is_deleted-any-starts_with session (at (6 ∷ 5 ∷ []))

is_deleted-add_array_example :
    is_deleted (ChangeSet.add_array session (at (5 ∷ [])) (30 ∷ []) metadata) (at (5 ∷ [])) ≡ true
is_deleted-add_array_example = is_deleted-add_array session (at (5 ∷ [])) (30 ∷ []) metadata refl

new_nodes-delete_group_example :
    (get (ChangeSet.delete_group session (at (1 ∷ [])) (10 ∷ [])).new_groups (at (1 ∷ [])) ≡ (
      if is_new_group session (at (1 ∷ [])) && starts_with (at (1 ∷ [])) (at (1 ∷ []))
      then none
      else get session.new_groups (at (1 ∷ []))))
    × ((get (ChangeSet.delete_group session (at (1 ∷ [])) (10 ∷ [])).new_arrays (at (1 ∷ [])) ≡ (
          if is_new_group session (at (1 ∷ [])) && starts_with (at (1 ∷ [])) (at (1 ∷ []))
          then none
          else get session.new_arrays (at (1 ∷ []))))
        × (((is_new_group session (at (1 ∷ [])) ≡ true)
              ⊎ (ChangeSet.delete_group session (at (1 ∷ [])) (10 ∷ []) ≡ record session {
                updated_attributes = remove session.updated_attributes (10 ∷ []);
                deleted_groups = set_insert session.deleted_groups (at (1 ∷ []));
              }))
            × (ChangeSet.delete_group_within 5 session (at (1 ∷ [])) (10 ∷ [])
                ≡ ChangeSet.delete_group session (at (1 ∷ [])) (10 ∷ []))))
new_nodes-delete_group_example =
    new_nodes-delete_group session (at (1 ∷ [])) (10 ∷ []) (at (1 ∷ [])) 5 (omega arith)

get_chunk_ref-set_chunk_ref_self_example :
    ((Editing.set_chunk_ref repo (at (2 ∷ 1 ∷ [])) (1 ∷ []) none).0 ≡ ok tt)
    × (Editing.get_chunk_ref
          (Editing.set_chunk_ref repo (at (2 ∷ 1 ∷ [])) (1 ∷ []) none).1
          (at (2 ∷ 1 ∷ []))
          (1 ∷ [])
        ≡ ok none)
unfolding get_array get_node is_deleted get_new_node icechunk.Format.ancestors get
get_chunk_ref-set_chunk_ref_self_example =
    get_chunk_ref-set_chunk_ref_self repo (at (2 ∷ 1 ∷ [])) (1 ∷ []) none the_array refl

abbrev array_id : NodeId
array_id = 20 ∷ []

abbrev origin : ChunkIndices
origin = 0 ∷ []

is_deleted-merge_example :
    (is_deleted (ChangeSet.merge session ChangeSet.empty) (at (5 ∷ []))
      ≡ (is_deleted session (at (5 ∷ [])) || is_deleted ChangeSet.empty (at (5 ∷ []))))
    × ((is_deleted session (at (5 ∷ [])) ≡ false)
        ⊎ ((is_deleted
                (ChangeSet.merge session
                  (ChangeSet.add_group ChangeSet.empty (at (5 ∷ [])) (30 ∷ [])))
                (at (5 ∷ []))
              ≡ true)
            × (is_deleted
                  (ChangeSet.merge session
                    (ChangeSet.add_array ChangeSet.empty (at (5 ∷ [])) (30 ∷ []) metadata))
                  (at (5 ∷ []))
                ≡ true)))
is_deleted-merge_example = is_deleted-merge session ChangeSet.empty (at (5 ∷ [])) (30 ∷ []) metadata

merge-Wins_example : Wins ChangeSet.empty session (ChangeSet.merge ChangeSet.empty session)
unfolding contains_key
merge-Wins_example = merge-Wins ChangeSet.empty session (refl, tt)
