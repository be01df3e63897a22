-- ===== src/Lib.antt =====
-- FileVault keeps snapshots of a file tree in a repository: files are cut into chunks, each chunk is
-- compressed and stored once under its BLAKE3 digest, a SQLite database holds the snapshots, and a restore
-- reads the chunks back, verifies them and writes the files. This library models the core of that
-- program under src/core and proves what the parts promise each other.
--
-- Parts and files:
--   Common       the shared names: native numbers, bytes as lists, tests, the error codes of
--                include/localvault/error.hpp, and `Exec`, the actions on a state that may throw
--   Filesystem   Tree: the file tree as a function from paths; IgnoreRules: the ignore files and their
--                patterns (src/core/filesystem/ignore_rules.cpp); FileMetadata and Scanner: what is
--                captured of a directory, and the walk (src/core/filesystem/file_scanner.cpp)
--   Database     Chunks: the table of chunks (src/core/database/metadata_store.cpp and migrations.cpp);
--                Entries: the rows of entries and of chunk references; Snapshots: the status of snapshots;
--                Deletion: their removal in batches
--   Concurrency  BoundedQueue (src/core/concurrency/bounded_queue.hpp)
--   Storage      Chunker, ZstdCodec and Blake3Hasher (the files of that name under src/core/storage);
--                World and ObjectFiles: system calls and the helpers on files; ObjectStore
--                (object_store.cpp) with `store`, `read_verified` and `ensure_metadata`
--   Restore      ChunkList, Content, Plan, Paths, Selection and Utf8: stages and tests of
--                `RestoreEngine::restore` (src/core/restore_engine.cpp, and posix_path_safety.cpp)
--   Snapshot     Counters, Worker, Writer and Progress: stages of `SnapshotEngine::create_snapshot`
--                (src/core/snapshot_engine.cpp); RoundTrip: from a worker to a restore
--   Tests        runs and applications of the theorems at concrete inputs
--
-- The chunker feeds the object store, which uses the codec, the hasher, the files and the table of chunks;
-- the restore engine selects and checks entries, checks the chunk list, plans, and reads each chunk back
-- through the object store. The queue joins the threads of the snapshot engine.
--
-- State and outside: `Storage.World.State` is the file tree below the repository, the table of chunks, the
-- cache of known objects and a count of external calls. `World` has what is outside the repository: the
-- zstd and BLAKE3 libraries (with laws that their headers document), which system calls fail, which failure
-- points throw, what other workers do while a lock is awaited, and the clock. An action leaves its state
-- behind also when it throws.
--
-- Bounds and fuel: bytes are numbers below 256; ByteCount and std::size_t have 64 bits, with wrap-around
-- written out where a sum is not guarded. `for_each_chunk` runs on fuel, for which the length of the file
-- and one more is enough (`rounds_of_file`); `batches` runs on fuel, for which more than the number of
-- rows to remove is enough; `select_parents` runs on the length of the path of the entry and one more;
-- `match_component` computes its own fuel, and the loop of `read_exact` has the size that it reads.
--
-- Not modelled: the SQLite wrapper and failures of SQLite beyond the constraints of the tables; listings and
-- insertions of entries, so that between a worker and a restore the rows of chunk references are made
-- directly of the records (`Snapshot.Writer.reference`); locks and metadata calls of the platforms; the
-- Windows variants; the threads and batches of the snapshot engine; repository creation and recovery;
-- the loops of a restore over directories and links; the command line and the desktop window. The size
-- function and the moves of a queue do not throw. While an object is stored, other workers act where the
-- lock of its stripe is granted. A temporary file is the bytes written to it; its random name is taken
-- to be free. Error messages are left out. Paths of entries are lists of components. The sort of a plan
-- is an insertion sort, since the paths of one snapshot differ.
pub mod Common
pub mod Filesystem
pub mod Database
pub mod Concurrency
pub mod Restore
pub mod Snapshot
pub mod Storage
pub mod Tests
