-- ===== src/Tests/Packages.antt =====
-- A concrete path type, codec and store. A path is the list of its components, the last one first.
use icechunk.Prelude.{
  ℕ, ◌+◌, ◌-◌, ◌≡◌, ◌≢◌, nat_beq, refl, ap, sym, ◌∙◌, Bool, true, false, Option, none, some, List,
  [], ◌∷◌, ◌++◌, arith, nat_eq, list_eq, list_ord, ◌==◌, ==-refl, eq_of_==, Eq, Bool-cases, ◌⊎◌,
  inl, inr, contains, and_then, ok, err, map, Str, codes, strip_prefix, strip_suffix,
  strip_prefix-append, strip_suffix-append, if◌then◌else◌, length, list_lt, list_lt_irrefl,
  length-append,
}
use mathlib.Core.List.{append_assoc}
use icechunk.Format.{External, SnapshotId, ManifestId, ChunkId, Bytes}
use icechunk.Format.ByteRanges.{slice}
use icechunk.Manifest.{Manifest}
use icechunk.Snapshot.{Snapshot}
use icechunk.Refs.{Codec, RefData}
use icechunk.Refs.Contract.{RefFiles, insert_name}
use icechunk.Storage.{Storage, StorageResult, ListInfo, ref_already_exists, ref_not_found, wrapped}
use icechunk.Storage.Deletion.{DeletesOnly}
use icechunk.Storage.ChunkWrites.{WritesChunks}
use icechunk.Storage.SessionWrites.{WritesApart}
use icechunk.Storage.Caching.{CachePackage}
use icechunk.Storage.Caching.Refinement.{ReadsWritten}
use icechunk.VirtualRefs.{VirtualReferenceError}
use icechunk.VirtualRefs.Resolver.{VirtualChunkResolver}
use icechunk.Zarr.Keys.{PathText}
use icechunk.Zarr.Documents.{Documents}
use icechunk.TransactionLog.{TransactionLog}

abbrev parent_of : List ℕ → Option (List ℕ)
parent_of [] = none
parent_of (c ∷ cs) = some cs

abbrev ancestors_of : List ℕ → List (List ℕ)
ancestors_of [] = [] ∷ []
ancestors_of (c ∷ cs) = (c ∷ cs) ∷ ancestors_of cs

pub ancestors_of_lem :
    (p : List ℕ) → ancestors_of p ≡ p ∷ elim (parent_of p) [ none ↦ [] | some q ↦ ancestors_of q ]
ancestors_of_lem [] = refl
ancestors_of_lem (c ∷ cs) = refl

instance abbrev pub test_external : External
test_external = record {
  PathBuf = List ℕ;
  path_eq = list_eq;
  path_ord = list_ord;
  root = [];
  parent = parent_of;
  ancestors = ancestors_of;
  starts_with = λ p q. contains (ancestors_of p) q;
  ancestors_lem = ancestors_of_lem;
  starts_with_lem = λ p q. refl;
  Json = ℕ;
  F32 = ℕ;
  F64 = ℕ;
}

-- Three more digits stand behind the bytes.
abbrev padding : Str
padding = 0 ∷ 0 ∷ 0 ∷ []

pub list_lt_padded :
    (xs ys zs : Str) → length xs ≡ length ys → list_lt (xs ++ zs) (ys ++ zs) ≡ list_lt xs ys
list_lt_padded [] [] zs e = list_lt_irrefl zs
list_lt_padded [] (y ∷ ys) zs e = absurd (omega arith)
list_lt_padded (x ∷ xs) [] zs e = absurd (omega arith)
list_lt_padded (x ∷ xs) (y ∷ ys) zs e = ground (arith, list_lt_padded xs ys zs)

instance abbrev pub test_codec : Codec
test_codec = record {
  base32_encode = λ bs. bs ++ padding;
  base32_decode = strip_suffix padding;
  to_json = λ d. RefData.snapshot d;
  from_json = λ b. some (record { snapshot = b });
  base32_round_trip = λ bs h. strip_suffix-append bs padding;
  base32_length = λ bs h. length-append bs padding ∙ omega (arith, h);
  base32_order = λ bs cs h k same. list_lt_padded bs cs padding same;
  json_round_trip = λ d. refl;
}

-- What the files are, and the names that a listing of a directory gives
pub record TestStore : Type 0 where
  pub snapshots : SnapshotId → Option Snapshot
  pub manifests : ManifestId → Option Manifest
  pub logs : SnapshotId → Option TransactionLog
  pub files : Str → Option Bytes
  pub listing : Str → List Str
  pub chunks : ChunkId → Option Bytes
  pub refs : List Str
  pub snapshot_infos : List ListInfo
  pub manifest_infos : List ListInfo
  pub chunk_infos : List ListInfo

abbrev or_missing : {A : Type 0} → Option A → StorageResult A
or_missing none = err (wrapped [])
or_missing (some a) = ok a

abbrev or_no_ref : Str → Option Bytes → StorageResult Bytes
or_no_ref key none = err (ref_not_found key)
or_no_ref key (some b) = ok b

abbrev put : {A : Type 0} → (List ℕ → Option A) → List ℕ → A → List ℕ → Option A
put f key a key' = if key == key' then some a else f key'

abbrev add_to : Option Str → List Str → List Str
add_to none names = names
add_to (some name) names = insert_name name names

abbrev without : {A : Type 0} → (List ℕ → Option A) → List (List ℕ) → List ℕ → Option A
without f keys key = if contains keys key then none else f key

abbrev pub write_file : TestStore → Str → Bytes → TestStore
write_file s key b = record s {
  files = put s.files key b;
  listing = λ root. add_to (strip_prefix (root ++ codes "/") key) (s.listing root);
}

abbrev write_file_if :
    TestStore → Str → Bytes → Bool → Option Bytes → StorageResult Unit × TestStore
write_file_if s key b overwrite none = (ok tt, write_file s key b)
write_file_if s key b true (some old) = (ok tt, write_file s key b)
write_file_if s key b false (some old) = (err (ref_already_exists key), s)

instance abbrev pub test_storage : Storage
test_storage = record {
  Store = TestStore;
  fetch_snapshot = λ s id. or_missing (s.snapshots id);
  fetch_manifests = λ s id. or_missing (s.manifests id);
  fetch_chunk = λ s id range. or_missing (and_then (s.chunks id) (slice range));
  fetch_transaction_log = λ s id. or_missing (s.logs id);
  write_snapshot = λ s id a. (ok tt, record s { snapshots = put s.snapshots id a });
  write_manifests = λ s id a. (ok tt, record s { manifests = put s.manifests id a });
  write_chunk = λ s id a. (ok tt, record s { chunks = put s.chunks id a });
  write_transaction_log = λ s id a. (ok tt, record s { logs = put s.logs id a });
  get_ref = λ s key. or_no_ref key (s.files key);
  ref_names = λ s. ok s.refs;
  ref_versions = λ s root. ok (map ok (s.listing root));
  write_ref = λ s key overwrite b. write_file_if s key b overwrite (s.files key);
  list_chunks = λ s. ok (map ok s.chunk_infos);
  list_manifests = λ s. ok (map ok s.manifest_infos);
  list_snapshots = λ s. ok (map ok s.snapshot_infos);
  delete_chunks = λ s ids. (ok (length ids), record s { chunks = without s.chunks ids });
  delete_manifests = λ s ids. (ok (length ids), record s { manifests = without s.manifests ids });
  delete_snapshots = λ s ids. (ok (length ids), record s { snapshots = without s.snapshots ids });
}

pub file_after_write :
    (s : TestStore) (key : Str) (overwrite : Bool) (b : Bytes)
    → (write_file_if s key b overwrite (s.files key)).0 ≡ ok tt
    → (key' : Str)
    → TestStore.files (write_file_if s key b overwrite (s.files key)).1 key'
      ≡ (if key == key' then some b else s.files key')
file_after_write s key overwrite b h key' = ground (arith, h)

listed_after :
    (s : TestStore) (root name key : Str) (overwrite : Bool) (b : Bytes) (f : Option Bytes)
    → strip_prefix (root ++ codes "/") key ≡ some name
    → (write_file_if s key b overwrite f).0 ≡ ok tt
    → TestStore.listing (write_file_if s key b overwrite f).1 root
      ≡ insert_name name (s.listing root)
listed_after s root name key overwrite b none k h = ap (λ n. add_to n (s.listing root)) k
listed_after s root name key true b (some old) k h = ap (λ n. add_to n (s.listing root)) k
listed_after s root name key false b (some old) k h = ground (arith, h)

pub names_after_write :
    (s : TestStore) (root name : Str) (overwrite : Bool) (b : Bytes)
    → (write_file_if s
        (root ++ (codes "/" ++ name))
        b
        overwrite
        (s.files (root ++ (codes "/" ++ name)))).0
      ≡ ok tt
    → TestStore.listing
        (write_file_if s
          (root ++ (codes "/" ++ name))
          b
          overwrite
          (s.files (root ++ (codes "/" ++ name)))).1
        root
      ≡ insert_name name (s.listing root)
names_after_write s root name overwrite b h =
    listed_after s root name (root ++ (codes "/" ++ name)) overwrite b
      (s.files (root ++ (codes "/" ++ name)))
      (ap (strip_prefix (root ++ codes "/")) (sym (append_assoc root (codes "/") name))
        ∙ strip_prefix-append (root ++ codes "/") name)
      h

-- The store's references behave as the program asks.
abbrev pub test_files : RefFiles
test_files = record {
  file = λ s key. TestStore.files s key;
  names = λ s root. TestStore.listing s root;
  get_found = λ s key b h. ap (or_no_ref key) h;
  get_missing = λ s key h. ap (or_no_ref key) h;
  versions = λ s root. refl;
  write_absent = λ s key overwrite b h. rw h;
  write_present = λ s key b old h. ap (write_file_if s key b false) h;
  file_after = file_after_write;
  names_after = names_after_write;
}

abbrev pub test_deletes : DeletesOnly
test_deletes = record {
  snapshot_kept = λ s ids id h. ap (λ b. or_missing (if b then none else s.snapshots id)) h;
  manifest_kept = λ s ids id h. ap (λ b. or_missing (if b then none else s.manifests id)) h;
  chunk_kept = λ s ids id range h.
      ap (λ b. or_missing (and_then (if b then none else s.chunks id) (slice range))) h;
  snapshot_beside_manifests = λ s ids id. refl;
  snapshot_beside_chunks = λ s ids id. refl;
  manifest_beside_snapshots = λ s ids id. refl;
  manifest_beside_chunks = λ s ids id. refl;
  chunk_beside_snapshots = λ s ids id range. refl;
  chunk_beside_manifests = λ s ids id range. refl;
}

abbrev pub test_chunk_writes : WritesChunks
test_chunk_writes = record {
  fetch_written = λ s id bytes part range done h served.
      ap (λ b. or_missing (and_then (if b then some bytes else s.chunks id) (slice range)))
        (==-refl id)
      ∙ ap or_missing h;
  snapshot_beside = λ s id bytes snapshot. refl;
  manifest_beside = λ s id bytes manifest. refl;
}

abbrev pub test_reads_written : ReadsWritten
test_reads_written = record {
  snapshot =
      λ s id a done. ap (λ b. or_missing (if b then some a else s.snapshots id)) (==-refl id);
  manifest =
      λ s id a done. ap (λ b. or_missing (if b then some a else s.manifests id)) (==-refl id);
  log = λ s id a done. ap (λ b. or_missing (if b then some a else s.logs id)) (==-refl id);
}

abbrev pub test_writes_apart : WritesApart
test_writes_apart = record {
  snapshot_beside_manifest = λ s id a snapshot. refl;
  snapshot_beside_log = λ s id a snapshot. refl;
  manifest_beside_snapshot = λ s id a manifest. refl;
  manifest_beside_log = λ s id a manifest. refl;
}

-- A cache that drops nothing, the newest entry first
abbrev pub found_in : {K V : Type 0} ⦃e : Eq K⦄ → List (K × V) → K → Option V
found_in [] k = none
found_in ((j, v) ∷ c) k = if j == k then some v else found_in c k

pub found_in_newest :
    {K V : Type 0} ⦃e : Eq K⦄ (c : List (K × V)) (k k' : K) (v v' : V)
    → found_in ((k, v) ∷ c) k' ≡ some v'
    → ((k ≡ k') × (v ≡ v')) ⊎ (found_in c k' ≡ some v')
found_in_newest c k k' v v' h = elim (Bool-cases (k == k')) [
  | inl same ↦ inl (eq_of_== k k' same, ground (arith, same, h))
  | inr other ↦ inr (ground (arith, other, h))
]

instance abbrev pub test_cache : CachePackage
test_cache = record {
  Cache = λ K V. List (K × V);
  new_cache = λ n. [];
  lookup = found_in;
  after_lookup = λ c k. c;
  insert = λ c k v. (k, v) ∷ c;
  lookup_new = λ n k. refl;
  lookup_after = λ c k k' v h. h;
  lookup_insert = found_in_newest;
}

instance abbrev pub test_resolver : VirtualChunkResolver
test_resolver = record { fetch_chunk = λ location range. err VirtualReferenceError.fetch_error }

-- The text of a path: a `/`, and for each component one character from 200 on
abbrev pub shown : List ℕ → Str
shown [] = []
shown (c ∷ cs) = (c + 200) ∷ shown cs

abbrev pub unshown : Str → List ℕ
unshown [] = []
unshown (d ∷ s) = (d - 200) ∷ unshown s

pub unshown-shown : (p : List ℕ) → unshown (shown p) ≡ p
unshown-shown [] = refl
unshown-shown (c ∷ cs) = ground (arith, unshown-shown cs)

abbrev pub canonic_of : Str → Option (List ℕ)
canonic_of [] = none
canonic_of (d ∷ s) = some (unshown s)

abbrev pub starts_with_slash : Str → Bool
starts_with_slash [] = false
starts_with_slash (d ∷ s) = nat_beq d 47

pub shown_components : (p : List ℕ) (s : Str) → (codes "/" ++ shown p) ≢ (codes "//" ++ s)
shown_components [] s = ground arith
shown_components (c ∷ cs) s = ground arith

instance abbrev pub test_text : PathText
test_text = record {
  print = λ p. codes "/" ++ shown p;
  is_absolute = starts_with_slash;
  canonic = canonic_of;
  is_absolute_lem = λ s. refl;
  canonic-print = λ p. ap some (unshown-shown p);
  print_root = refl;
  print_absolute = λ p. (shown p, refl);
  print_components = shown_components;
}

-- No document parses.
instance abbrev pub test_documents : Documents
test_documents = record {
  array_from_slice = λ b. none;
  group_from_slice = λ b. none;
  array_to_bytes = λ m. [];
  group_to_bytes = λ m. [];
}
