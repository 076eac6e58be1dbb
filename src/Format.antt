-- ===== src/Format.antt =====
-- icechunk/src/format/mod.rs: paths, identifiers and chunk indices; and what the program takes from
-- packages of others: `typed_path`, `serde_json`, floats.
pub mod ByteRanges
pub mod Chunks
pub mod Nodes
pub mod Paths
use icechunk.Prelude.{
  ℕ, ◌≡◌, refl, sym, ◌∙◌, ◌↔◌, ◌⊎◌, Bool, true, Option, none, some, List, [], ◌∷◌, map, arith, Eq,
  Ord, contains, option_map,
}

-- `typed_path::Utf8UnixPathBuf`, for the absolute and normalised paths that `Path` holds, and the
-- value types that this program only stores and hands on.
pub record External : Type 1 where
  pub PathBuf : Type 0
  pub path_eq : Eq PathBuf
  pub path_ord : Ord PathBuf
  pub root : PathBuf
  pub parent : PathBuf → Option PathBuf
  pub ancestors : PathBuf → List PathBuf
  pub starts_with : PathBuf → PathBuf → Bool
  -- `ancestors` yields the path, then what `parent` yields, until there is no parent.
  pub ancestors_lem :
      (p : PathBuf) → ancestors p ≡ p ∷ elim (parent p) [ none ↦ [] | some q ↦ ancestors q ]
  -- `starts_with` compares whole components: the prefixes of a path are its ancestors.
  pub starts_with_lem : (p q : PathBuf) → starts_with p q ≡ contains ⦃e = path_eq⦄ (ancestors p) q
  -- `serde_json::Value`, `f32`, `f64`
  pub Json : Type 0
  pub F32 : Type 0
  pub F64 : Type 0

-- `Path(Utf8UnixPathBuf)`
pub record NodePath ⦃E : External⦄ : Type 0 where
  pub buf : E.PathBuf

abbrev pub path_beq : ⦃E : External⦄ → NodePath → NodePath → Bool
path_beq ⦃E⦄ p q = E.path_eq.beq p.buf q.buf

pub path_beq_iff : ⦃E : External⦄ (p q : NodePath) → (path_beq p q ≡ true) ↔ (p ≡ q)
path_beq_iff ⦃E⦄ p q = ground (arith, E.path_eq.beq_iff p.buf q.buf)

instance abbrev pub path_eq : ⦃E : External⦄ → Eq NodePath
path_eq = record { beq = path_beq; beq_iff = path_beq_iff }

abbrev pub path_lt : ⦃E : External⦄ → NodePath → NodePath → Bool
path_lt ⦃E⦄ p q = E.path_ord.lt p.buf q.buf

pub path_lt_total :
    ⦃E : External⦄ (p q : NodePath) → (path_lt p q ≡ true) ⊎ (p ≡ q) ⊎ (path_lt q p ≡ true)
path_lt_total ⦃E⦄ p q = ground (arith, E.path_ord.lt_total p.buf q.buf)

instance abbrev pub path_ord : ⦃E : External⦄ → Ord NodePath
path_ord ⦃E⦄ = record {
  lt = path_lt;
  lt_irrefl = λ p. E.path_ord.lt_irrefl p.buf;
  lt_trans = λ p q r. E.path_ord.lt_trans p.buf q.buf r.buf;
  lt_total = path_lt_total;
}

abbrev to_path : ⦃E : External⦄ → E.PathBuf → NodePath
to_path b = record { buf = b }

-- `Path::root`
abbrev pub root : ⦃E : External⦄ → NodePath
root ⦃E⦄ = to_path E.root

-- `Path::starts_with`
unfoldable pub starts_with : ⦃E : External⦄ → NodePath → NodePath → Bool
starts_with ⦃E⦄ p other = E.starts_with p.buf other.buf

-- `Path::ancestors`
unfoldable pub ancestors : ⦃E : External⦄ → NodePath → List NodePath
ancestors ⦃E⦄ p = map to_path (E.ancestors p.buf)

abbrev pub parent : ⦃E : External⦄ → NodePath → Option NodePath
parent ⦃E⦄ p = option_map to_path (E.parent p.buf)

-- `ObjectId<SIZE, T>`: its bytes. `Ord` and `Eq` are derived, byte by byte.
abbrev pub ObjectId : Type 0
ObjectId = List ℕ

abbrev pub NodeId : Type 0
NodeId = ObjectId

abbrev pub SnapshotId : Type 0
SnapshotId = ObjectId

abbrev pub ManifestId : Type 0
ManifestId = ObjectId

abbrev pub ChunkId : Type 0
ChunkId = ObjectId

abbrev pub AttributesId : Type 0
AttributesId = ObjectId

-- `ChunkIndices(Vec<u32>)`
abbrev pub ChunkIndices : Type 0
ChunkIndices = List ℕ

-- `Bytes`
abbrev pub Bytes : Type 0
Bytes = List ℕ

-- `DateTime<Utc>`: a point in time, of which the program takes the order only.
abbrev pub DateTime : Type 0
DateTime = ℕ

module _ ⦃E : External⦄ where
  -- The ancestors of a path are the path and the ancestors of its parent.
  pub ancestors_unfold :
      (p : NodePath) → ancestors p ≡ p ∷ elim (parent p) [ none ↦ [] | some q ↦ ancestors q ]
  unfolding ancestors
  ancestors_unfold p = rw (E.ancestors_lem p.buf) (ground arith)

  contains-map :
      (l : List E.PathBuf) (q : NodePath)
      → contains (map to_path l) q ≡ contains ⦃e = E.path_eq⦄ l q.buf
  contains-map [] q = refl
  contains-map (b ∷ l) q = rw (contains-map l q)

  -- A path starts with exactly its ancestors.
  pub starts_with-contains : (p q : NodePath) → starts_with p q ≡ contains (ancestors p) q
  unfolding ancestors starts_with
  starts_with-contains p q = E.starts_with_lem p.buf q.buf ∙ sym (contains-map _ q)
