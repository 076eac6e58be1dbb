-- ===== src/Format/Chunks.antt =====
-- Chunk payloads and manifest references: the types of icechunk/src/format/manifest.rs.
use icechunk.Prelude.{ℕ, List, Str}
use icechunk.Format.{NodeId, ChunkId, ManifestId, ChunkIndices, Bytes}

pub record ManifestExtents : Type 0 where
  pub indices : List ChunkIndices

pub record ManifestRef : Type 0 where
  pub object_id : ManifestId
  pub extents : ManifestExtents

pub data VirtualChunkLocation : Type 0 where
  absolute : Str → VirtualChunkLocation

pub record VirtualChunkRef : Type 0 where
  pub location : VirtualChunkLocation
  pub offset : ℕ
  pub length : ℕ

pub record ChunkRef : Type 0 where
  pub id : ChunkId
  pub offset : ℕ
  pub length : ℕ

pub data ChunkPayload : Type 0 where
  inline : Bytes → ChunkPayload
  virtual : VirtualChunkRef → ChunkPayload
  ref : ChunkRef → ChunkPayload

pub record ChunkInfo : Type 0 where
  pub node : NodeId
  pub coord : ChunkIndices
  pub payload : ChunkPayload
