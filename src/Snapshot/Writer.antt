-- ===== src/Snapshot/Writer.antt =====
-- The writer of src/core/snapshot_engine.cpp, which turns processed entries into rows of the metadata store.
use file_vault.Database.Entries.{ChunkReferenceInfo}
use file_vault.Storage.ObjectFiles.{derived_path}
use file_vault.Snapshot.Worker.{ChunkReferenceRecord}

-- The reference that the writer makes of a record: the object that it registers, and the arguments of
-- `insert_entry_chunk`. The two tables that it passes through are left out.
unfoldable pub reference : ChunkReferenceRecord → ChunkReferenceInfo
reference chunk = record {
  sequence_number = chunk.sequence_number;
  hash_hex = chunk.hash_hex;
  object_path = derived_path chunk.hash_hex;
  raw_offset = chunk.raw_offset;
  raw_length = chunk.raw_size;
  raw_size = chunk.raw_size;
  stored_size = chunk.stored_size;
}
