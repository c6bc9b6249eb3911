-- ===== src/Ingest/Restore/Tally.antt =====
-- What the counters of a restore say, whichever statements fail.
use mathlib.Core.List.{Permᴰ}
use mesh_monday.Base.{ℕ, ◌+◌, ◌≤◌, ◌≡◌, sym, subst, arith, List, [], ◌++◌, not, ◌&&◌, none, length}
use mesh_monday.Platform.{Platform}
use mesh_monday.Storage.Schema.{RawPacket, Db}
use mesh_monday.Storage.Exec.{World}
use mesh_monday.Storage.Restore.{Scanned}
use mesh_monday.Storage.Restore.Tracked.{for_each-HasTracked}
use mesh_monday.Ingest.Service.{Service}
use mesh_monday.Ingest.Restore.{
  RestoreCheckinPacketsResult, nothing_restored, restore_row, restore_checkin_packets_from_raw,
}
use mesh_monday.Ingest.Restore.Adds.{
  count, decodes, checks_in, on_monday, Tracks, further-Tracks, nothing-Tracks, row_none_fails,
}

module _ (p : Platform) (s : Service) where
  -- Of a restore that began with `a`: `seen` are the packets that it was handed, each once, and all of the
  -- store's where it has no error. Each counter is the number of those at its stage, there is at most one
  -- insert for each check-in of a Monday, and the links in the store are those of before and those
  -- that were inserted.
  pub record IsTally (a : Db) (x : Scanned RestoreCheckinPacketsResult) : Type 0 where
    pub seen : List RawPacket
    pub rest : List RawPacket
    pub split : Permᴰ (seen ++ rest) a.raw_packets
    pub complete : x.0.1 ≡ none → rest ≡ []
    pub scanned : x.0.0.raw_scanned ≡ length seen
    pub decoded : x.0.0.decoded ≡ count decodes seen
    pub errors : x.0.0.decode_errors ≡ count (λ row. not (decodes row)) seen
    pub found : x.0.0.checkins_found ≡ count (checks_in p s) seen
    pub monday : x.0.0.monday_checkins ≡ count (λ row. checks_in p s row && on_monday p s row) seen
    pub linked : x.0.0.links_inserted + x.0.0.insert_link_errors ≤ x.0.0.monday_checkins
    pub added : length x.1.db.checkin_packets ≡ length a.checkin_packets + x.0.0.links_inserted

-- Wherever the scan ends and whichever inserts fail, there are packets of the store, each taken once,
-- and all of them if there is no error, of which the counters tell: how many were scanned, decoded
-- and not decoded, how many hold a check-in and how many one of a Monday. There is at most one insert,
-- done or failed, for each of the last, and the number of links that the store has gained is the
-- number that is reported.
pub restore_checkin_packets_from_raw-IsTally :
    (p : Platform) (s : Service) (now : ℕ) (w : World)
    → IsTally p s w.db (restore_checkin_packets_from_raw p s now w)
unfolding restore_checkin_packets_from_raw
restore_checkin_packets_from_raw-IsTally p s now w =
    let (rows, perm, h) =
      for_each-HasTracked (Tracks p s now) (restore_row p s now) (row_none_fails p s now)
        (nothing-Tracks p s now) (further-Tracks p s now) nothing_restored w in
    record {
      seen = h.seen;
      rest = h.rest;
      split = subst (λ l. Permᴰ l w.db.raw_packets) (sym h.split) perm;
      complete = h.complete;
      scanned = omega (arith, h.track.scanned_more);
      decoded = omega (arith, h.track.decoded_more);
      errors = omega (arith, h.track.errors_more);
      found = omega (arith, h.track.found_more);
      monday = omega (arith, h.track.monday_more);
      linked = omega (arith, h.track.linked_more, h.track.monday_more);
      added = omega (arith, h.track.links_more);
    }
