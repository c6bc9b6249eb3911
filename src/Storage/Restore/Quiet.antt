-- ===== src/Storage/Restore/Quiet.antt =====
-- A scan during which no statement fails hands every packet to the callback.
use mathlib.Core.List.Permᴰ
use mesh_monday.Base.{
  ℕ, ◌≡◌, refl, ap, sym, subst, arith, any_of, same, same_iff, ◌∙◌, Bool, true, List, [], ◌∷◌, none,
  some, Bytes, has_key, ok, All, All-map,
}
use mesh_monday.Go.Sort.{sort_slice}
use mesh_monday.Go.Sort.Order.{All-perm, sort_slice_rearranges}
use mesh_monday.Storage.Schema.{
  RawPacket, Db, raw_hash, link_key, same_link, same_link_iff, has_raw,
}
use mesh_monday.Storage.Exec.{World, exec}
use mesh_monday.Storage.Queries.{select_restore, restore_less}
use mesh_monday.Storage.Restore.{
  next_row, Scanned, Callback, after_call, on_row, at_end, scan_rows, on_rows,
  for_each_raw_packet_for_restore,
}

abbrev pub has_link : ℕ × Bytes × Bytes → Db → Bool
has_link k db = has_key link_key same_link same_link_iff k db.checkin_packets

-- A world in which nothing is to fail, with the packets of `a` and all of its links.
pub record IsAhead (a : Db) (w : World) : Type 0 where
  pub quiet : w.faults ≡ []
  pub packets : w.db.raw_packets ≡ a.raw_packets
  pub links : (k : ℕ × Bytes × Bytes) → has_link k a ≡ true → has_link k w.db ≡ true

IsAhead-trans : (a : Db) (v w : World) → IsAhead a v → IsAhead v.db w → IsAhead a w
IsAhead-trans a v w h k = record {
  quiet = k.quiet;
  packets = k.packets ∙ h.packets;
  links = λ l e. k.links l (h.links l e);
}

fetch_quiet : (w : World) → w.faults ≡ [] → exec next_row w ≡ (ok tt, w)
unfolding exec next_row
fetch_quiet w e = rw e refl

abbrev IsStored : Db → RawPacket → Type 0
IsStored db row = has_raw row.packet_hash db ≡ true

each_in :
    (rows : List RawPacket)
    → All (λ (r : RawPacket). has_key raw_hash same same_iff r.packet_hash rows ≡ true) rows
unfolding any_of
each_in [] = tt
each_in (r ∷ rows) = (
  ground (arith, (same_iff r.packet_hash r.packet_hash).1 refl),
  All-map (λ (y : RawPacket) e. ground (arith, e)) rows (each_in rows),
)

each-IsStored : (db : Db) → All (IsStored db) db.raw_packets
each-IsStored db = each_in db.raw_packets

module _ {R : Type 0} (call : Callback R) (L : RawPacket → Db → Type 0)
    (none_fails : (row : RawPacket) (r : R) (w : World) → (call row r w).0.1 ≡ none)
    (ahead : (row : RawPacket) (r : R) (w : World) → w.faults ≡ [] → IsAhead w.db (call row r w).1)
    (done : (row : RawPacket) (r : R) (w : World)
      → w.faults ≡ []
      → IsStored w.db row
      → L row (call row r w).1.db)
    (stays : (row : RawPacket) (a : Db) (w : World) → IsAhead a w → L row a → L row w.db) where
  -- The scan ran to its end and did all rows.
  abbrev IsDone : List RawPacket → Db → Scanned R → Type 0
  IsDone rows a x = (x.0.1 ≡ none) × (IsAhead a x.1 × All (λ row. L row x.1.db) rows)

  after_call-IsDone :
      (next : R → World → Scanned R) (rows : List RawPacket) (a : Db) (x : Scanned R)
      → x.0.1 ≡ none
      → IsDone rows a (next x.0.0 x.1)
      → IsDone rows a (after_call next x)
  unfolding after_call
  after_call-IsDone next rows a ((r, none), w) e h = h
  after_call-IsDone next rows a ((r, some f), w) e h = cc

  scan_nothing : (r : R) (w : World) → w.faults ≡ [] → scan_rows call [] r w ≡ ((r, none), w)
  unfolding scan_rows at_end
  scan_nothing r w e = rw (fetch_quiet w e) refl

  scan_one :
      (row : RawPacket) (rows : List RawPacket) (r : R) (w : World)
      → w.faults ≡ []
      → scan_rows call (row ∷ rows) r w ≡ after_call (scan_rows call rows) (call row r w)
  unfolding scan_rows on_row
  scan_one row rows r w e = rw (fetch_quiet w e) refl

  scan_all :
      (r : R) (w : World)
      → w.faults ≡ []
      → for_each_raw_packet_for_restore call r w
        ≡ scan_rows call (sort_slice restore_less w.db.raw_packets) r w
  unfolding for_each_raw_packet_for_restore on_rows exec select_restore
  scan_all r w e = rw e refl

  scan_rows-IsDone :
      (rows : List RawPacket) (r : R) (w : World)
      → w.faults ≡ []
      → All (IsStored w.db) rows
      → IsDone rows w.db (scan_rows call rows r w)
  scan_rows-IsDone [] r w e h =
      subst (IsDone [] w.db) (sym (scan_nothing r w e))
        (refl, (record { quiet = e; packets = refl; links = λ k l. l }, tt))
  scan_rows-IsDone (row ∷ rows) r w e (hx, h) =
      let x = call row r w in
      let step = ahead row r w e in
      let rest = scan_rows-IsDone rows x.0.0 x.1 step.quiet (
        All-map
          (λ (y : RawPacket) l.
            ap (λ t. has_key raw_hash same same_iff y.packet_hash t) step.packets ∙ l)
          rows h) in
      subst (IsDone (row ∷ rows) w.db) (sym (scan_one row rows r w e)) (
        after_call-IsDone (scan_rows call rows) (row ∷ rows) w.db x (none_fails row r w) (
          rest.0,
          (
            IsAhead-trans w.db x.1 _ step rest.1.0,
            (stays row x.1.db _ rest.1.0 (done row r w e hx), rest.1.1),
          ),
        ))

  pub for_each-IsDone :
      (r : R) (w : World)
      → w.faults ≡ []
      → IsDone w.db.raw_packets w.db (for_each_raw_packet_for_restore call r w)
  for_each-IsDone r w e =
      let rows = w.db.raw_packets in
      let sorted = sort_slice_rearranges restore_less rows in
      let (ended, (further, all)) =
        scan_rows-IsDone (sort_slice restore_less rows) r w e
          (All-perm (IsStored w.db) sorted (each-IsStored w.db)) in
      subst (IsDone rows w.db) (sym (scan_all r w e))
        (ended, (further, All-perm _ (Permᴰ.symm sorted) all))
