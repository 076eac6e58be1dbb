-- ===== src/Lib.antt =====
-- A model of Icechunk, a transactional storage engine for Zarr arrays (the crate in icechunk/).
--
-- A session (`Repository`) stands on a snapshot of a branch and keeps what it has changed in a change
-- set. Reading looks at the change set first and then at the snapshot and its manifests. A commit
-- writes a manifest, a snapshot and a transaction log, and then creates the file of the branch's next
-- version, which fails if another writer was faster. A rebase goes over the commits that others made,
-- the oldest first, and lets a solver patch the change set.
--
-- The files, and the code that they model:
--   Format, Format/*     icechunk/src/format/mod.rs, and the node and chunk types of
--                        icechunk/src/format/snapshot.rs and manifest.rs
--   Metadata, /*         icechunk/src/metadata: the types, the names of data types (DataTypes), and the
--                        reading of fill values (FillValues)
--   ChangeSet, /*        icechunk/src/change_set.rs
--   Manifest, /*         icechunk/src/format/manifest.rs
--   Snapshot, /*         icechunk/src/format/snapshot.rs
--   TransactionLog, /*   icechunk/src/format/transaction_log.rs
--   Conflicts, /*        icechunk/src/conflicts: detector.rs (Detector, PathFinder) and
--                        basic_solver.rs (Solver)
--   Storage              the trait of icechunk/src/storage/mod.rs, as a record of operations
--   Refs, /*             icechunk/src/refs.rs
--   Repository, /*       icechunk/src/repository.rs: Reading, Listing, Editing, Committing, Rebasing
--   Repository/Flushes, /Commits   what a flush and a commit leave behind
--   Repository/ChunkIo, /Opening   the readers and writers of chunks; opening, and moving to a snapshot
--   Format/ByteRanges, /*   `ByteRange` of icechunk/src/format/mod.rs
--   VirtualRefs, /*      icechunk/src/storage/virtual_ref.rs (Ranges and Resolver), `from_absolute_path`
--                        of icechunk/src/format/manifest.rs, and the byte ranges that
--                        icechunk/src/storage/object_store.rs and s3.rs ask for
--   Storage/Caching, /*  icechunk/src/storage/caching.rs
--   Storage/Deletion, /ChunkWrites, /SessionWrites   what the theorems ask of the files behind the trait
--   Gc, /*               icechunk/src/ops/gc.rs: Marking finds what is kept, Sweeping deletes the rest
--   Zarr, /*             icechunk/src/zarr.rs: the text of keys (Keys), the documents behind keys
--                        (Documents), Reading, Writing, Listing, Opening and Versions
--   Prelude/Decimal, /Splitting   decimals and the splitting of strings, with their inverses
--   Prelude, Dict, Btree, Exec   lists and options, hash maps, ordered maps, state with errors
--   Tests, /*            concrete packages and a concrete store, and runs on them
--
-- Names are the source's; `Path` of format/mod.rs is `NodePath`. A function that two parts declare
-- under one name has a prefix where both are in use (`snapshot_get_node`, `read_chunk_ref`). A method
-- that takes `&mut self` returns the new value. A hash map or set is a list of entries, and only
-- lookups are used; a B-tree map is a list in the order of its keys. Random ids and the time are
-- arguments. A stream is the list of its items.
--
-- Parameters: `External` for typed_path and the value types of other packages, `Codec` for base32 and
-- serde_json, `Storage` for what is behind the trait, `RefFiles` for how its reference files behave;
-- `CachePackage` for quick_cache, `PathText` for the text of a typed_path, `Documents` for the JSON of
-- zarr metadata, `JsonValues` for serde_json and floats, `VirtualChunkResolver` for a resolver.
--
-- Bounds: `delete_group` removes a new group before it goes down, so one more than the number of new
-- groups is enough; `is_deleted` goes up, so the depth of the path is enough; the iterators over a
-- manifest and a snapshot stop before they have made one call more than there are entries.
-- `update_branch` starts again whenever another writer was faster; the list of what others do between
-- its check and its write bounds the attempts.
--
-- Not modelled: the rest of icechunk/src/storage/object_store.rs and s3.rs, which calls other packages,
-- and logging.rs; `get_partial_values`, whose results come in the order of completion; the JSON
-- serializers of icechunk/src/zarr.rs; change sets as bytes; the making of clients in
-- virtual_ref.rs; locks, as a method of the Zarr store runs from its start to its end; the Python
-- bindings.
pub mod Prelude
pub mod Exec
pub mod Dict
pub mod Format
pub mod Metadata
pub mod ChangeSet
pub mod Btree
pub mod Manifest
pub mod Snapshot
pub mod TransactionLog
pub mod Conflicts
pub mod Storage
pub mod VirtualRefs
pub mod Zarr
pub mod Refs
pub mod Repository
pub mod Gc
pub mod Tests
