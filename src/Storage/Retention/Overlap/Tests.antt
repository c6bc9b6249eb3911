-- ===== src/Storage/Retention/Overlap/Tests.antt =====
-- A packet of a Monday and its check-in come in between the statements of a pruning.
use mesh_monday.Base.{◌+◌, ◌*◌, ◌≡◌, refl, subst, List, [], ◌∷◌, Bytes, codes, same, any_of, keep}
use mesh_monday.Go.Time.{Time, utc, weekday, day_of, local_seconds, date, instant_of, sub_days}
use mesh_monday.Checkins.Tests.{plain}
use mesh_monday.Checkins.Weeks.{is_monday_in_tz, week_start_monday}
use mesh_monday.Storage.Schema.{RawPacket, Checkin, Db}
use mesh_monday.Storage.Statements.{insert_raw, insert_checkin_row, delete_raw}
use mesh_monday.Storage.Kept.{HasKept}
use mesh_monday.Storage.Retention.{
  prune_raw_packets, needed_hashes, should_retain_raw_packet, to_delete, last_id,
}
use mesh_monday.Storage.Retention.Tests.{
  packet, checkin, three_packets, store, now, store-IsNumbered, three_packets-IsConsistent,
}
use mesh_monday.Storage.Retention.Overlap.{
  scanning, deleting, batch, after_chunk_of, after_scan, read_protected, scan, delete, pruning,
  store_packet, check_in, IsReached, start, next,
}
use mesh_monday.Storage.Retention.Overlap.Alone.{cutoff_of, IsPruning, prune_raw_packets-IsPruned}
use mesh_monday.Storage.Retention.Overlap.Recent.{no_raw-IsRecent, insert_raw-IsRecent}
use mesh_monday.Storage.Retention.Overlap.Safe.{IsReached-HasKept}

-- A Monday a week before the one in the store.
abbrev cutoff : Time
cutoff = record { unix = 739732 * 86400; zone = utc }

abbrev arrival : Time
arrival = record { unix = 739739 * 86400 + 1000; zone = utc }

abbrev new_packet : RawPacket
new_packet = packet 0 (codes "dd") 739739

abbrev new_checkin : Checkin
new_checkin = record checkin {
  packet_hash = codes "dd";
  username = codes "blake";
  week_start = 739739;
}

abbrev needed : List Bytes
needed = needed_hashes three_packets

abbrev with_packet : Db
with_packet = (insert_raw new_packet three_packets).1

abbrev with_checkin : Db
with_checkin = (insert_checkin_row new_checkin with_packet).1

abbrev pruned : Db
pruned = (delete_raw (1 ∷ []) with_checkin).1

arrived : IsReached plain (codes "UTC") cutoff three_packets (scanning needed 0) with_checkin
unfolding is_monday_in_tz week_start_monday weekday day_of local_seconds date instant_of sub_days
    any_of same
arrived =
    next
      (next (next start (pruning (read_protected three_packets)))
        (store_packet (scanning needed 0) new_packet three_packets))
      (check_in (scanning needed 0) new_checkin with_packet (
        insert_raw-IsRecent plain (codes "UTC") cutoff (codes "dd") new_packet arrival three_packets
          refl refl refl
          (no_raw-IsRecent plain (codes "UTC") cutoff (codes "dd") three_packets refl)))

first_batch :
    after_scan plain (codes "UTC") cutoff needed 0 (batch 0 with_checkin)
    ≡ deleting needed 0 (1 ∷ [])
unfolding after_scan should_retain_raw_packet to_delete last_id insert_raw insert_checkin_row
    is_monday_in_tz week_start_monday weekday day_of local_seconds date instant_of sub_days any_of
    same keep
first_batch = refl

one_deleted : IsReached plain (codes "UTC") cutoff three_packets (scanning needed 0) pruned
unfolding after_chunk_of
one_deleted =
    next
      (subst (λ at. IsReached plain (codes "UTC") cutoff three_packets at with_checkin) first_batch
        (next arrived (pruning (scan needed 0 with_checkin))))
      (pruning (delete needed 0 (1 ∷ []) with_checkin))

IsReached-HasKept_example : HasKept (checkin ∷ []) pruned
IsReached-HasKept_example =
    IsReached-HasKept plain (codes "UTC") cutoff one_deleted three_packets-IsConsistent
      store-IsNumbered

prune_raw_packets-IsPruned_example :
    IsPruning plain
      (codes "UTC")
      (cutoff_of plain now (codes "UTC") 1 store)
      store.db
      (prune_raw_packets plain now (codes "UTC") 1 store)
prune_raw_packets-IsPruned_example = prune_raw_packets-IsPruned plain now (codes "UTC") 1 store
