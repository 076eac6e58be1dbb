-- ===== src/Tests/Caches.antt =====
-- A caching store that reads a snapshot that is not there, writes it, reads it and reads it again.
use icechunk.Prelude.{◌≡◌, List, [], ◌∷◌, arith}
use icechunk.Format.{SnapshotId}
use icechunk.Storage.Caching.{Call, new, run_backend}
use icechunk.Storage.Caching.Refinement.{Kept, AllKept, answers, backend_answers, answers-backend}
use icechunk.Tests.Formats.{first_snapshot}
use icechunk.Tests.Packages.{test_external, test_storage, test_cache, test_reads_written, TestStore}
use icechunk.Tests.Sessions.{no_files}

abbrev id : SnapshotId
id = 1 ∷ []

abbrev calls : List Call
calls =
    Call.fetch_snapshot id
    ∷ Call.write_snapshot id first_snapshot
    ∷ Call.fetch_snapshot id
    ∷ Call.fetch_snapshot id
    ∷ []

same : (s : TestStore) → Kept s s
same s = record {
  snapshots = λ i a h. h;
  manifests = λ i a h. h;
  logs = λ i a h. h;
  chunks = λ i r a h. h;
}

-- Nothing could be read of the empty store.
written : (s : TestStore) → Kept no_files s
written s = record {
  snapshots = λ i a h. ground (arith, h);
  manifests = λ i a h. ground (arith, h);
  logs = λ i a h. ground (arith, h);
  chunks = λ i r a h. ground (arith, h);
}

calls-AllKept : AllKept calls no_files
unfolding run_backend
calls-AllKept = (same _, (written _, (same _, (same _, tt))))

answers-backend_example : answers calls (new no_files 2 2 0 0) ≡ backend_answers calls no_files
answers-backend_example = answers-backend test_reads_written no_files 2 2 0 0 calls calls-AllKept
