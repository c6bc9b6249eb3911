-- ===== src/Storage/Retention/Spares.antt =====
-- What a deletion leaves alone: check-ins, links, and the packets that are to be retained.
use mesh_monday.Base.{
  ℕ, ◌≡◌, refl, ◌∙◌, Bool, true, false, not, ◌&&◌, List, inl, inr, arith, Bool-cases, Bytes, same,
  same_iff, keep, keep-All, keep_absorb, any_of-keep, any_of_none, has_key, All, All-map,
}
use mesh_monday.Storage.Schema.{RawPacket, Db, raw_hash, checkin_hash, link_hash}
use mesh_monday.Storage.Statements.{delete_raw, id_in}
use mesh_monday.Storage.Retention.Rows.{NotRetained}

-- `b` has all that `a` has but packets that are not retained, with their observations.
pub record Spares (retain : RawPacket → Bool) (a b : Db) : Type 0 where
  pub checkins : b.checkins ≡ a.checkins
  pub checkin_packets : b.checkin_packets ≡ a.checkin_packets
  pub kept : keep retain b.raw_packets ≡ keep retain a.raw_packets

pub Spares-refl : (retain : RawPacket → Bool) (a : Db) → Spares retain a a
Spares-refl retain a = record { checkins = refl; checkin_packets = refl; kept = refl }

pub Spares-trans :
    (retain : RawPacket → Bool) (a b c : Db)
    → Spares retain a b
    → Spares retain b c
    → Spares retain a c
Spares-trans retain a b c s t = record {
  checkins = t.checkins ∙ s.checkins;
  checkin_packets = t.checkin_packets ∙ s.checkin_packets;
  kept = t.kept ∙ s.kept;
}

module _ (retain : RawPacket → Bool) (protected : Bytes → Bool) where
  -- A packet that is protected is retained, and every check-in and link protects its packet.
  pub record Protects (db : Db) : Type 0 where
    pub retains : (r : RawPacket) → protected r.packet_hash ≡ true → retain r ≡ true
    pub checkins : All (λ c. protected (checkin_hash c) ≡ true) db.checkins
    pub links : All (λ l. protected (link_hash l) ≡ true) db.checkin_packets

  pub Protects-Spares : (a b : Db) → Spares retain a b → Protects a → Protects b
  Protects-Spares a b s v = record {
    retains = v.retains;
    checkins = rw s.checkins v.checkins;
    links = rw s.checkin_packets v.links;
  }

  other_packet :
      (ids : List ℕ) (r : RawPacket) (h : Bytes)
      → (protected r.packet_hash ≡ true → retain r ≡ true)
      → protected h ≡ true
      → NotRetained retain ids r
      → (id_in ids r.id && same r.packet_hash h) ≡ false
  other_packet ids r h guard e gone = elim (Bool-cases (id_in ids r.id)) [
    | inr f ↦ rw f refl
    | inl f ↦ elim (Bool-cases (same r.packet_hash h)) [
      | inr g ↦ rw (f, g) refl
      | inl g ↦
          let here : protected r.packet_hash ≡ true = rw ((same_iff r.packet_hash h).0 g) e in
          cc (guard here, gone f)
    ]
  ]

  -- No packet that is deleted has the hash of one that is protected.
  spared :
      (ids : List ℕ) (h : Bytes) (raw : List RawPacket)
      → ((r : RawPacket) → protected r.packet_hash ≡ true → retain r ≡ true)
      → protected h ≡ true
      → All (NotRetained retain ids) raw
      → not (has_key raw_hash same same_iff h (keep (λ (r : RawPacket). id_in ids r.id) raw)) ≡ true
  spared ids h raw guard e gone =
      rw
        (
          any_of-keep (λ (r : RawPacket). same r.packet_hash h) (λ r. id_in ids r.id) raw,
          any_of_none (λ (r : RawPacket). id_in ids r.id && same r.packet_hash h) raw
              (All-map (λ r n. other_packet ids r h (guard r) e n) raw gone),
        )
        refl

  pub delete_raw-Spares :
      (ids : List ℕ) (db : Db)
      → Protects db
      → All (NotRetained retain ids) db.raw_packets
      → Spares retain db (delete_raw ids db).1
  unfolding delete_raw
  delete_raw-Spares ids db v gone = record {
    checkins = keep-All _ db.checkins (
        All-map (λ c e. spared ids (checkin_hash c) db.raw_packets v.retains e gone) db.checkins
          v.checkins);
    checkin_packets = keep-All _ db.checkin_packets (
        All-map (λ l e. spared ids (link_hash l) db.raw_packets v.retains e gone) db.checkin_packets
          v.links);
    kept =
        keep_absorb retain (λ r. not (id_in ids r.id)) db.raw_packets
          (All-map (λ r n e. stays ids r n e) db.raw_packets gone);
  }
    where
      stays :
          (ids : List ℕ) (r : RawPacket)
          → NotRetained retain ids r
          → retain r ≡ true
          → not (id_in ids r.id) ≡ true
      stays ids r n e = ground (arith, n)
