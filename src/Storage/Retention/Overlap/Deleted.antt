-- ===== src/Storage/Retention/Overlap/Deleted.antt =====
-- A chunk of packets that are not retained is deleted, with what else the tables held of them.
use mesh_monday.Base.{
  ℕ, ◌<◌, ◌≡◌, refl, Bool, true, false, not, ◌&&◌, inl, inr, Bool-cases, List, Bytes, same,
  same_iff, has_key, keep, keep-All, any_of_none, any_of-keep, any_of-drop, take, drop, All,
  All-map, All-keep, All-both, ◌==◌,
}
use mesh_monday.Platform.{Platform}
use mesh_monday.Go.Time.{Time}
use mesh_monday.Storage.Schema.{RawPacket, Db, raw_hash, checkin_hash}
use mesh_monday.Storage.Statements.{delete_raw, id_in}
use mesh_monday.Storage.Retention.Rows.{NotRetained}
use mesh_monday.Storage.Retention.Overlap.{retains}
use mesh_monday.Storage.Retention.Overlap.Guarded.{IsHeld, IsGuarded, IsDoomed, All-drop}

-- A packet that is to go has not the hash of one that is held.
held_apart :
    (retain : RawPacket → Bool) (ids : List ℕ) (h : Bytes) (r : RawPacket)
    → (r.packet_hash ≡ h → retain r ≡ true)
    → NotRetained retain ids r
    → (id_in ids r.id && same r.packet_hash h) ≡ false
held_apart retain ids h r held gone = elim (Bool-cases (id_in ids r.id)) [
  | inr f ↦ rw f refl
  | inl f ↦ elim (Bool-cases (same r.packet_hash h)) [
    | inr g ↦ rw (f, g) refl
    | inl g ↦ cc (held ((same_iff r.packet_hash h).0 g), gone f)
  ]
]

held_spared :
    (retain : RawPacket → Bool) (ids : List ℕ) (h : Bytes) (raw : List RawPacket)
    → All (λ (r : RawPacket). r.packet_hash ≡ h → retain r ≡ true) raw
    → All (NotRetained retain ids) raw
    → not (has_key raw_hash same same_iff h (keep (λ (r : RawPacket). id_in ids r.id) raw)) ≡ true
held_spared retain ids h raw held gone =
    rw
      (
        any_of-keep (λ (r : RawPacket). same r.packet_hash h) (λ r. id_in ids r.id) raw,
        any_of_none (λ (r : RawPacket). id_in ids r.id && same r.packet_hash h) raw
            (All-map (λ r (held, gone). held_apart retain ids h r held gone) raw
              (All-both (λ (r : RawPacket). r.packet_hash ≡ h → retain r ≡ true)
                (NotRetained retain ids) raw held gone)),
      )
      refl

module _ (p : Platform) (tz : Bytes) (cutoff : Time) where
  -- A chunk of doomed packets takes no check-in along.
  pub delete_raw-checkins :
      (protected : List Bytes) (ids : List ℕ) (db : Db)
      → IsGuarded p tz cutoff protected db
      → All (NotRetained (retains p tz cutoff protected) ids) db.raw_packets
      → (delete_raw ids db).1.checkins ≡ db.checkins
  unfolding delete_raw
  delete_raw-checkins protected ids db g gone = keep-All _ db.checkins (
      All-map
        (λ c held.
          held_spared (retains p tz cutoff protected) ids (checkin_hash c) db.raw_packets held gone)
        db.checkins g)

  pub chunk_rest :
      (protected : List Bytes) (n : ℕ) (ids : List ℕ) (db : Db)
      → IsGuarded p tz cutoff protected db
      → IsDoomed p tz cutoff protected ids db
      → IsGuarded p tz cutoff protected (delete_raw (take n ids) db).1
        × IsDoomed p tz cutoff protected (drop n ids) (delete_raw (take n ids) db).1
  unfolding delete_raw
  chunk_rest protected n ids db g d =
      let retain = retains p tz cutoff protected in
      let chunk = take n ids in
      let stays : RawPacket → Bool = λ r. not (id_in chunk r.id) in
      (
        All-keep (λ c. IsHeld p tz cutoff protected (checkin_hash c) (delete_raw chunk db).1) _
            db.checkins
            (All-map
              (λ c held.
                All-keep (λ (r : RawPacket). r.packet_hash ≡ checkin_hash c → retain r ≡ true) stays
                  db.raw_packets held)
              db.checkins g),
        record {
          gone = All-keep (NotRetained retain (drop n ids)) stays db.raw_packets (
              All-map {P = NotRetained retain ids} {Q = NotRetained retain (drop n ids)}
                (λ (r : RawPacket) gone e. gone (any_of-drop (λ j. j == r.id) n ids e))
                db.raw_packets d.gone);
          old = All-drop (λ i. i < db.next_raw) n ids d.old;
        },
      )
