-- ===== src/Storage/Space/Quiet.antt =====
-- Asking for the sizes leaves the tables alone.
use mesh_monday.Base.{List, [], ◌∷◌, Option, none, some, Bytes, Result, ok, err}
use mesh_monday.Storage.Schema.{Db}
use mesh_monday.Storage.Exec.{SqlError, World, Exec, continue, exec}
use mesh_monday.Storage.Keeps.{Keeps, exec-Keeps}
use mesh_monday.Storage.Restore.{next_row}
use mesh_monday.Storage.Space.{
  Disk, SpaceStats, answer, after_truncate, checkpoint_wal, main_file, or_next, main_path_rows,
  main_database_path, Stats, or_return, stat_files, read_freelist, read_pages, space_stats,
  after_prune_maintenance,
}

module _ (P : Db → Type 0) where
  answer-Keeps : {A : Type 0} (a : A) → Keeps P (exec (answer a))
  unfolding answer
  answer-Keeps a = exec-Keeps P (answer a) (λ db h. h)

  next_row-Keeps : Keeps P (exec next_row)
  unfolding next_row
  next_row-Keeps = exec-Keeps P next_row (λ db h. h)

  continue-Keeps :
      {A B : Type 0} (f : A → Exec B)
      → ((a : A) → Keeps P (f a))
      → (r : Result SqlError A) (w : World) → P w.db
      → P (continue r f w).1.db
  continue-Keeps f keep (ok a) w h = keep a w h
  continue-Keeps f keep (err e) w h = h

  after_truncate_keeps :
      (x : Result SqlError (Unit {0}) × World) → P x.1.db → P (after_truncate x).db
  unfolding after_truncate
  after_truncate_keeps (ok u, w) h = h
  after_truncate_keeps (err e, w) h = answer-Keeps (tt {0}) w h

  checkpoint_wal_keeps : (w : World) → P w.db → P (checkpoint_wal w).db
  unfolding checkpoint_wal
  checkpoint_wal_keeps w h = after_truncate_keeps _ (answer-Keeps (tt {0}) w h)

  or_next-Keeps :
      (file : Option Bytes) (next : Exec Bytes) → Keeps P next → Keeps P (or_next file next)
  unfolding or_next
  or_next-Keeps none next keep = keep
  or_next-Keeps (some file) next keep = λ w h. h

  main_path_rows-Keeps : (rows : List (Bytes × Option Bytes)) → Keeps P (main_path_rows rows)
  unfolding main_path_rows
  main_path_rows-Keeps [] w h = continue-Keeps _ (λ u w h. h) _ _ (next_row-Keeps w h)
  main_path_rows-Keeps (row ∷ rows) w h =
      continue-Keeps _
        (λ u. or_next-Keeps (main_file row) (main_path_rows rows) (main_path_rows-Keeps rows)) _ _
        (next_row-Keeps w h)

  main_database_path-Keeps : (d : Disk) → Keeps P (main_database_path d)
  unfolding main_database_path
  main_database_path-Keeps d w h =
      continue-Keeps _ main_path_rows-Keeps _ _ (answer-Keeps d.databases w h)

  or_return_keeps :
      {A : Type 0} (st : SpaceStats) (next : A → World → Stats)
      → ((a : A) (w : World) → P w.db → P (next a w).1.db)
      → (x : Result SqlError A × World) → P x.1.db
      → P (or_return st next x).1.db
  unfolding or_return
  or_return_keeps st next keep (err e, w) h = h
  or_return_keeps st next keep (ok a, w) h = keep a w h

  stat_files_keeps : (d : Disk) (st : SpaceStats) (w : World) → P w.db → P (stat_files d st w).1.db
  unfolding stat_files
  stat_files_keeps d st w h =
      or_return_keeps st _ (λ path w h. h) _ (main_database_path-Keeps d w h)

  read_freelist_keeps :
      (d : Disk) (st : SpaceStats) (w : World) → P w.db → P (read_freelist d st w).1.db
  unfolding read_freelist
  read_freelist_keeps d st w h =
      or_return_keeps st _ (λ count. stat_files_keeps d _) _ (answer-Keeps d.freelist_count w h)

  read_pages_keeps : (d : Disk) (st : SpaceStats) (w : World) → P w.db → P (read_pages d st w).1.db
  unfolding read_pages
  read_pages_keeps d st w h =
      or_return_keeps st _ (λ count. read_freelist_keeps d _) _ (answer-Keeps d.page_count w h)

  -- What holds of the tables holds of them afterwards.
  pub after_prune_maintenance_keeps :
      (d : Disk) (w : World) → P w.db → P (after_prune_maintenance d w).1.db
  unfolding after_prune_maintenance space_stats
  after_prune_maintenance_keeps d w h =
      or_return_keeps _ _ (λ size. read_pages_keeps d _) _
        (answer-Keeps d.page_size _ (checkpoint_wal_keeps w h))
