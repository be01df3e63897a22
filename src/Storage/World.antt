-- ===== src/Storage/World.antt =====
-- What the object store and the engines take from outside: the libraries, the outcome of system calls,
-- the failure injector and what other threads do to the file tree. `ticks` counts external calls, and
-- each parameter may answer differently at each of them.
use file_vault.Common.{
  ℕ, suc, Bool, Option, none, some, List, Bytes, ℤ, ErrorCode, Result, ok, err, if◌then◌else◌,
}
use file_vault.Common.Exec.{Exec}
use file_vault.Filesystem.Tree.{Tree, FilePath}
use file_vault.Database.Chunks.{Table}
use file_vault.Storage.ZstdCodec.{Zstd}
use file_vault.Storage.Blake3Hasher.{Blake3}

-- include/localvault/failure_injector.hpp
pub data FailurePoint : Type 0 where
  after_temp_object_write after_object_fsync after_object_rename : FailurePoint
  before_metadata_batch_commit before_snapshot_publish during_restore_write : FailurePoint

pub record World : Type 1 where
  pub zstd : Zstd
  pub blake3 : Blake3
  -- the system call of that number reports an error
  pub faults : ℕ → Bool
  -- `FailureInjector::hit` throws
  pub injected : ℕ → FailurePoint → Option ErrorCode
  -- what other workers have done to the tree by the time that a lock is granted
  pub others : ℕ → Tree → Tree
  pub now : ℕ → ℤ

pub record StoredObject : Type 0 where
  pub hash_hex : Bytes
  pub relative_path : FilePath
  pub raw_size : ℕ
  pub stored_size : ℕ
  pub newly_stored : Bool

-- The tree below the repository's root, the metadata table, the cache `known_objects_` and the count
-- of external calls.
pub record State : Type 0 where
  pub files : Tree
  pub chunks : Table
  pub known : List (Bytes × StoredObject)
  pub ticks : ℕ

abbrev pub tick : State → State
tick s = record s { ticks = suc s.ticks }

module _ (w : World) where
  -- One system call, which reports its error as `e`.
  abbrev pub external : ErrorCode → Exec State (Unit {0})
  external e s = (if w.faults s.ticks then err e else ok tt, tick s)

  abbrev pub injected_result : Option ErrorCode → Result (Unit {0})
  injected_result none = ok tt
  injected_result (some e) = err e

  abbrev pub hit : FailurePoint → Exec State (Unit {0})
  hit point s = (injected_result (w.injected s.ticks point), tick s)
