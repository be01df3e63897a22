-- ===== src/Storage.antt =====
-- src/core/storage: chunks, compression, digests and the object store.
pub mod Chunker
pub mod ZstdCodec
pub mod Blake3Hasher
pub mod World
pub mod ObjectFiles
pub mod ObjectStore
