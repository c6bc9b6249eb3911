-- ===== src/Storage/Space.antt =====
-- internal/storage/space.go: the sizes that a log line names. What a PRAGMA answers is the engine's, and
-- the size of a file the file system's; both are an argument.
pub mod Quiet
use mesh_monday.Base.{
  ℕ, zero, suc, ◌*◌, ◌%◌, ◌^◌, Bool, not, ◌&&◌, List, [], ◌∷◌, ◌++◌, Option, none, some, Bytes,
  codes, same, if◌then◌else◌, Result, ok, err,
}
use mesh_monday.Base.Int.{ℤ, pos}
use mesh_monday.Go.Number.{signed64}
use mesh_monday.Storage.Schema.{Db}
use mesh_monday.Storage.Exec.{SqlError, World, Exec, exec, pure, ◌>>◌, ◌>>=◌}
use mesh_monday.Storage.Statements.{Outcome}
use mesh_monday.Storage.Restore.{next_row}

-- The rows of `PRAGMA database_list` are a name and a file, which may be NULL. `os.Stat` of a file that is
-- not there is an error.
pub record Disk : Type 0 where
  pub page_size : ℕ
  pub page_count : ℕ
  pub freelist_count : ℕ
  pub databases : List (Bytes × Option Bytes)
  pub file_size : Bytes → Option ℕ

pub record SpaceStats : Type 0 where
  pub page_size : ℕ
  pub page_count : ℕ
  pub freelist_count : ℕ
  pub freelist_bytes : ℤ
  pub file_size_bytes : ℕ
  pub wal_size_bytes : ℕ
  pub main_database_path : Bytes

abbrev pub no_stats : SpaceStats
no_stats = record {
  page_size = 0;
  page_count = 0;
  freelist_count = 0;
  freelist_bytes = pos 0;
  file_size_bytes = 0;
  wal_size_bytes = 0;
  main_database_path = [];
}

-- A PRAGMA that touches no table.
pub answer : {A : Type 0} → A → Db → Outcome A
answer a db = (ok a, db)

after_truncate : Result SqlError (Unit {0}) × World → World
after_truncate (ok u, w) = w
after_truncate (err e, w) = (exec (answer (tt {0})) w).1

-- `CheckpointWal`: TRUNCATE, and PASSIVE where that fails.
pub checkpoint_wal : World → World
unfolding after_truncate
checkpoint_wal w = after_truncate (exec (answer (tt {0})) w)

-- The file of the row that is named main, if it has one.
main_file : Bytes × Option Bytes → Option Bytes
main_file (name, none) = none
main_file (name, some file) =
    if same name (codes "main") && not (same file []) then some file else none

-- A round of the loop after its Scan: the file, or the other rows.
or_next : Option Bytes → Exec Bytes → Exec Bytes
or_next none next = next
or_next (some file) next = pure file

main_path_rows : List (Bytes × Option Bytes) → Exec Bytes
unfolding or_next main_file
main_path_rows [] = exec next_row >> pure []
main_path_rows (row ∷ rows) = exec next_row >> or_next (main_file row) (main_path_rows rows)

-- `mainDatabasePath`
pub main_database_path : Disk → Exec Bytes
unfolding main_path_rows
main_database_path d = exec (answer d.databases) >>= main_path_rows

size_or : Option ℕ → ℕ
size_or none = 0
size_or (some n) = n

-- The sizes of the files, where the database has one.
with_sizes : Disk → Bytes → SpaceStats → SpaceStats
unfolding size_or
with_sizes d path st =
    let st' = record st { main_database_path = path } in
    if same path [] then st' else record st' {
      file_size_bytes = size_or (d.file_size path);
      wal_size_bytes = size_or (d.file_size (path ++ codes "-wal"));
    }

-- `int64(st.FreelistCount * st.PageSize)`, which wraps.
with_freelist : ℕ → SpaceStats → SpaceStats
with_freelist count st = record st {
  freelist_count = count;
  freelist_bytes = signed64 (count * st.page_size % 2 ^ 64);
}

-- The statistics as far as they were read, and the error that ended the reading, if one did.
abbrev pub Stats : Type 0
Stats = (SpaceStats × Option SqlError) × World

or_return : {A : Type 0} → SpaceStats → (A → World → Stats) → Result SqlError A × World → Stats
or_return st next (err e, w) = ((st, some e), w)
or_return st next (ok a, w) = next a w

stat_files : Disk → SpaceStats → World → Stats
unfolding or_return with_sizes
stat_files d st w =
    or_return st (λ path w'. ((with_sizes d path st, none), w')) (main_database_path d w)

read_freelist : Disk → SpaceStats → World → Stats
unfolding or_return with_freelist stat_files
read_freelist d st w =
    or_return st (λ count. stat_files d (with_freelist count st)) (exec (answer d.freelist_count) w)

read_pages : Disk → SpaceStats → World → Stats
unfolding or_return read_freelist
read_pages d st w =
    or_return st (λ count. read_freelist d (record st { page_count = count }))
      (exec (answer d.page_count) w)

-- `SpaceStats`
pub space_stats : Disk → World → Stats
unfolding or_return read_pages
space_stats d w =
    or_return no_stats (λ size. read_pages d (record no_stats { page_size = size }))
      (exec (answer d.page_size) w)

-- `AfterPruneMaintenance`
pub after_prune_maintenance : Disk → World → Stats
after_prune_maintenance d w = space_stats d (checkpoint_wal w)
