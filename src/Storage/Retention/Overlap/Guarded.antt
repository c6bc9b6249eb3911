-- ===== src/Storage/Retention/Overlap/Guarded.antt =====
-- What holds of every check-in while the pruning runs: no packet of its hash is to be deleted.
use mesh_monday.Base.{
  ℕ, zero, suc, ◌<◌, ◌≡◌, refl, subst, Bool, true, false, not, inl, inr, arith, Bool-cases, List,
  [], ◌∷◌, map, Bytes, keep, any_of, take, drop, All, All-map, All-keep,
}
use mesh_monday.Platform.{Platform}
use mesh_monday.Go.Time.{Time}
use mesh_monday.Storage.Schema.{RawPacket, Db, checkin_hash, link_hash}
use mesh_monday.Storage.Statements.{id_in}
use mesh_monday.Storage.Numbering.{IsNumbered}
use mesh_monday.Storage.Retention.{is_protected, needed_hashes, should_retain_raw_packet, to_delete}
use mesh_monday.Storage.Retention.Rows.{above, NotRetained, to_delete-NotRetained}
use mesh_monday.Storage.Retention.Effects.{is_protected-map}
use mesh_monday.Storage.Retention.Overlap.{
  Phase, starting, scanning, deleting, stopped, batch, after_chunk_of, after_marks, retains,
  after_scan,
}

everywhere : {A : Type 0} {P : A → Type 0} → ((x : A) → P x) → (xs : List A) → All P xs
everywhere f [] = tt
everywhere f (x ∷ xs) = (f x, everywhere f xs)

All-take : {A : Type 0} (P : A → Type 0) (n : ℕ) (xs : List A) → All P xs → All P (take n xs)
unfolding take
All-take P zero xs h = tt
All-take P (suc n) [] h = tt
All-take P (suc n) (x ∷ xs) (hx, h) = (hx, All-take P n xs h)

pub All-drop : {A : Type 0} (P : A → Type 0) (n : ℕ) (xs : List A) → All P xs → All P (drop n xs)
unfolding drop
All-drop P zero xs h = h
All-drop P (suc n) [] h = tt
All-drop P (suc n) (x ∷ xs) (hx, h) = All-drop P n xs h

-- No id of the list is the next one.
pub next_id_free : (ids : List ℕ) (n : ℕ) → All (λ i. i < n) ids → id_in ids n ≡ false
unfolding any_of
next_id_free [] n h = refl
next_id_free (i ∷ ids) n (less, h) = ground (arith, next_id_free ids n h)

module _ (p : Platform) (tz : Bytes) (cutoff : Time) where
  -- Every packet with the hash is retained.
  abbrev pub IsHeld : List Bytes → Bytes → Db → Type 0
  IsHeld protected hash db =
      All (λ (r : RawPacket). r.packet_hash ≡ hash → retains p tz cutoff protected r ≡ true)
        db.raw_packets

  abbrev pub IsGuarded : List Bytes → Db → Type 0
  IsGuarded protected db = All (λ c. IsHeld protected (checkin_hash c) db) db.checkins

  -- The ids to be deleted are those of packets that are not retained.
  pub record IsDoomed (protected : List Bytes) (ids : List ℕ) (db : Db) : Type 0 where
    pub gone : All (NotRetained (retains p tz cutoff protected) ids) db.raw_packets
    pub old : All (λ i. i < db.next_raw) ids

  abbrev pub HasGuards : Phase → Db → Type 0
  HasGuards starting db = Unit
  HasGuards (scanning protected last) db = IsGuarded protected db
  HasGuards (deleting protected last ids) db = IsGuarded protected db × IsDoomed protected ids db
  HasGuards stopped db = Unit

  protected_retained :
      (protected : List Bytes) (r : RawPacket) (h : Bytes)
      → r.packet_hash ≡ h
      → is_protected protected h ≡ true
      → retains p tz cutoff protected r ≡ true
  unfolding should_retain_raw_packet
  protected_retained protected r h q e =
      let here : is_protected protected r.packet_hash ≡ true = rw q e in rw here refl

  -- A packet that is retained by its day is retained whatever is protected.
  pub recent_retained :
      (protected : List Bytes) (r : RawPacket)
      → retains p tz cutoff [] r ≡ true
      → retains p tz cutoff protected r ≡ true
  unfolding should_retain_raw_packet any_of
  recent_retained protected r e = ground (arith, e)

  -- The hashes that were read hold the packets of every check-in.
  pub needed_hashes-IsGuarded : (db : Db) → IsGuarded (needed_hashes db) db
  needed_hashes-IsGuarded db =
      All-map {Q = λ c. IsHeld (needed_hashes db) (checkin_hash c) db}
        (λ c h.
          everywhere
            {P = λ r.
              r.packet_hash ≡ checkin_hash c → retains p tz cutoff (needed_hashes db) r ≡ true}
            (λ (r : RawPacket) q. protected_retained (needed_hashes db) r (checkin_hash c) q h)
            db.raw_packets)
        db.checkins (is_protected-map checkin_hash db.checkins (map link_hash db.checkin_packets))

  marks-HasGuards :
      (protected : List Bytes) (last reached : ℕ) (db : Db) (ids : List ℕ)
      → IsGuarded protected db
      → IsDoomed protected ids db
      → HasGuards (after_marks protected last reached ids) db
  unfolding after_marks
  marks-HasGuards protected last reached db [] g d = g
  marks-HasGuards protected last reached db (i ∷ ids) g d = (g, d)

  pub chunk-HasGuards :
      (protected : List Bytes) (last : ℕ) (db : Db) (ids : List ℕ)
      → IsGuarded protected db
      → IsDoomed protected ids db
      → HasGuards (after_chunk_of protected last ids) db
  unfolding after_chunk_of
  chunk-HasGuards protected last db [] g d = g
  chunk-HasGuards protected last db (i ∷ ids) g d = (g, d)

  marked_old :
      (retain : RawPacket → Bool) (n : ℕ) (rows : List RawPacket)
      → All (λ (r : RawPacket). r.id < n) rows
      → All (λ i. i < n) (to_delete retain rows)
  unfolding to_delete keep
  marked_old retain n [] h = tt
  marked_old retain n (r ∷ rows) (less, h) = elim (Bool-cases (not (retain r))) [
    | inl e ↦ rw (e, keep) (less, marked_old retain n rows h)
    | inr e ↦ rw (e, keep) (marked_old retain n rows h)
  ]

  batch-IsDoomed :
      (protected : List Bytes) (last : ℕ) (db : Db)
      → IsNumbered db
      → IsDoomed protected (to_delete (retains p tz cutoff protected) (batch last db)) db
  batch-IsDoomed protected last db v = record {
    gone =
        to_delete-NotRetained (retains p tz cutoff protected) last 400 db.raw_packets v.ascending;
    old = marked_old (retains p tz cutoff protected) db.next_raw (batch last db) (
        All-take _ 400 (keep (above last) db.raw_packets) (
          All-keep (λ (r : RawPacket). r.id < db.next_raw) (above last) db.raw_packets
            (All-map (λ r b. b.1) db.raw_packets v.bounded)));
  }

  pub scan-HasGuards :
      (protected : List Bytes) (last : ℕ) (db : Db)
      → IsNumbered db
      → IsGuarded protected db
      → (rows : List RawPacket) → batch last db ≡ rows
      → HasGuards (after_scan p tz cutoff protected last rows) db
  unfolding after_scan
  scan-HasGuards protected last db v g [] e = tt
  scan-HasGuards protected last db v g (r ∷ rows) e = marks-HasGuards protected last _ db _ g (
      subst (λ t. IsDoomed protected (to_delete (retains p tz cutoff protected) t) db) e
        (batch-IsDoomed protected last db v))
