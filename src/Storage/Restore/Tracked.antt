-- ===== src/Storage/Restore/Tracked.antt =====
-- What a scan leaves, told by the packets that it has handed to its callback.
use mathlib.Core.List.Permᴰ
use mathlib.Core.List.{Permᴰ}
use mesh_monday.Base.{
  ◌≡◌, refl, ap, subst, inl, inr, Option-cases, List, [], ◌∷◌, ◌++◌, none, some, Result, ok, err,
}
use mesh_monday.Go.Sort.Order.{sort_slice_rearranges}
use mesh_monday.Storage.Schema.{RawPacket, Db}
use mesh_monday.Storage.Exec.{SqlError, World, exec, next_fault}
use mesh_monday.Storage.Queries.{select_restore, restore_less}
use mesh_monday.Storage.Restore.{
  next_row, Scanned, Callback, after_call, on_row, at_end, scan_rows, on_rows,
  for_each_raw_packet_for_restore,
}

next_row-db : (w : World) → (exec next_row w).1.db ≡ w.db
unfolding exec next_row
next_row-db w = elim (Option-cases (next_fault w.faults).0) [
  | inl e ↦ rw e refl
  | inr (f, e) ↦ rw e refl
]

-- The query leaves the store, and its rows are the packets in some order.
abbrev HasSelected : Db → Result SqlError (List RawPacket) × World → Type 0
HasSelected a (err f, w) = w.db ≡ a
HasSelected a (ok rows, w) = (w.db ≡ a) × Permᴰ rows a.raw_packets

select-HasSelected : (w : World) → HasSelected w.db (exec select_restore w)
unfolding exec select_restore
select-HasSelected w = elim (Option-cases (next_fault w.faults).0) [
  | inl e ↦ rw e (refl, Permᴰ.symm (sort_slice_rearranges restore_less w.db.raw_packets))
  | inr (f, e) ↦ rw e refl
]

module _ {R : Type 0} (T : List RawPacket → R → Db → R → Db → Type 0) (call : Callback R)
    (none_fails : (row : RawPacket) (r : R) (w : World) → (call row r w).0.1 ≡ none)
    (nothing : (r : R) (db : Db) → T [] r db r db)
    (further : (row : RawPacket) (rows : List RawPacket) (r : R) (w : World) (q : R) (d : Db)
      → T rows (call row r w).0.0 (call row r w).1.db q d
      → T (row ∷ rows) r w.db q d) where
  -- Of these rows some were handed over, all of them if there was no error.
  pub record IsTracked (rows : List RawPacket) (r : R) (db : Db) (x : Scanned R) : Type 0 where
    pub seen : List RawPacket
    pub rest : List RawPacket
    pub split : seen ++ rest ≡ rows
    pub complete : x.0.1 ≡ none → rest ≡ []
    pub track : T seen r db x.0.0 x.1.db

  broken_off :
      (rows : List RawPacket) (r : R) (f : SqlError) (w : World)
      → IsTracked rows r w.db ((r, some f), w)
  broken_off rows r f w = record {
    seen = [];
    rest = rows;
    split = refl;
    complete = λ done. cc;
    track = nothing r w.db;
  }

  at_end-IsTracked :
      (r : R) (x : Result SqlError (Unit {0}) × World) → IsTracked [] r x.1.db (at_end r x)
  unfolding at_end
  at_end-IsTracked r (err f, w) = broken_off [] r f w
  at_end-IsTracked r (ok u, w) = record {
    seen = [];
    rest = [];
    split = refl;
    complete = λ done. refl;
    track = nothing r w.db;
  }

  after_call-IsTracked :
      (rows : List RawPacket) (next : R → World → Scanned R) (x : Scanned R)
      → x.0.1 ≡ none
      → IsTracked rows x.0.0 x.1.db (next x.0.0 x.1)
      → IsTracked rows x.0.0 x.1.db (after_call next x)
  unfolding after_call
  after_call-IsTracked rows next ((r, none), w) e h = h
  after_call-IsTracked rows next ((r, some f), w) e h = cc

  on_row-IsTracked :
      (rows : List RawPacket) (next : R → World → Scanned R)
      → ((r : R) (w : World) → IsTracked rows r w.db (next r w))
      → (row : RawPacket) (r : R) (x : Result SqlError (Unit {0}) × World)
      → IsTracked (row ∷ rows) r x.1.db (on_row call next row r x)
  unfolding on_row
  on_row-IsTracked rows next go row r (err f, w) = broken_off (row ∷ rows) r f w
  on_row-IsTracked rows next go row r (ok u, w) =
      let h =
        after_call-IsTracked rows next (call row r w) (none_fails row r w)
          (go (call row r w).0.0 (call row r w).1) in
      record {
        seen = row ∷ h.seen;
        rest = h.rest;
        split = ap (λ l. row ∷ l) h.split;
        complete = h.complete;
        track = further row h.seen r w _ _ h.track;
      }

  scan_rows-IsTracked :
      (rows : List RawPacket) (r : R) (w : World) → IsTracked rows r w.db (scan_rows call rows r w)
  unfolding scan_rows
  scan_rows-IsTracked [] r w =
      subst (λ db. IsTracked [] r db (at_end r (exec next_row w))) (next_row-db w)
        (at_end-IsTracked r (exec next_row w))
  scan_rows-IsTracked (row ∷ rows) r w =
      subst
        (λ db.
          IsTracked (row ∷ rows) r db (on_row call (scan_rows call rows) row r (exec next_row w)))
        (next_row-db w)
        (on_row-IsTracked rows (scan_rows call rows) (scan_rows-IsTracked rows) row r
          (exec next_row w))

  abbrev pub HasTracked : Db → R → Scanned R → Type 0
  HasTracked a r x = (rows : List RawPacket) × Permᴰ rows a.raw_packets × IsTracked rows r a x

  on_rows-HasTracked :
      (a : Db) (r : R) (x : Result SqlError (List RawPacket) × World)
      → HasSelected a x
      → HasTracked a r (on_rows call r x)
  unfolding on_rows
  on_rows-HasTracked a r (err f, w) e =
      subst (λ db. HasTracked db r ((r, some f), w)) e
        (w.db.raw_packets, Permᴰ.refl w.db.raw_packets, broken_off w.db.raw_packets r f w)
  on_rows-HasTracked a r (ok rows, w) (e, perm) = (
    rows,
    perm,
    subst (λ db. IsTracked rows r db (scan_rows call rows r w)) e (scan_rows-IsTracked rows r w),
  )

  -- The packets that were handed over and those that were not are those of the store.
  pub for_each-HasTracked :
      (r : R) (w : World) → HasTracked w.db r (for_each_raw_packet_for_restore call r w)
  unfolding for_each_raw_packet_for_restore
  for_each-HasTracked r w = on_rows-HasTracked w.db r (exec select_restore w) (select-HasSelected w)
