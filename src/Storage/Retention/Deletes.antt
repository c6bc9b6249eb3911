-- ===== src/Storage/Retention/Deletes.antt =====
-- `deleteRawPacketIDs` deletes the rows with the given ids, in chunks, and those only.
use mesh_monday.Base.{
  ℕ, zero, suc, ◌+◌, ◌≤◌, ◌≡◌, refl, sym, ap, ◌∙◌, Bool, true, false, not, ◌&&◌, ◌||◌, List, [],
  ◌∷◌, arith, ◌==◌, keep, keep-All, keep-keep, keep_same, any_of, any_of-append, any_of-take,
  any_of-drop, length, length-drop, length-keep_both, take, drop, take-append-drop, All, All-map,
  All-keep, Result, ok, err, Bytes,
}
use mesh_monday.Platform.{Platform}
use mesh_monday.Storage.Schema.{RawPacket, Db, IsConsistent}
use mesh_monday.Storage.Exec.{SqlError, World}
use mesh_monday.Storage.Statements.{delete_raw, id_in}
use mesh_monday.Storage.Numbering.{IsNumbered, delete_raw-IsNumbered}
use mesh_monday.Storage.Consistency.{delete_raw-IsConsistent}
use mesh_monday.Storage.Retry.Once.{Ran, IsAtomic, retry-Ran}
use mesh_monday.Storage.Retention.{
  Counted, prune_delete_chunk, retention_busy_max, delete_chunk, delete_chunks,
  delete_raw_packet_ids, after_chunk,
}
use mesh_monday.Storage.Retention.Rows.{NotRetained}
use mesh_monday.Storage.Retention.Spares.{
  Spares, Spares-trans, Protects, Protects-Spares, delete_raw-Spares,
}
use mesh_monday.Storage.Retention.Ends.{Ends, Ends-map, on_context-Ends}

pub delete_raw-IsAtomic : (ids : List ℕ) → IsAtomic (delete_raw ids)
unfolding delete_raw
delete_raw-IsAtomic ids db db' e h = cc

-- What one DELETE did, from its outcome.
pub delete_raw-eq :
    (ids : List ℕ) (db db' : Db) (n : ℕ)
    → delete_raw ids db ≡ (ok n, db')
    → (db' ≡ (delete_raw ids db).1)
      × (n + length (keep (λ (r : RawPacket). not (id_in ids r.id)) db.raw_packets)
          ≡ length db.raw_packets)
unfolding delete_raw
delete_raw-eq ids db db' n e =
    (cc, ground (arith, e, length-keep_both (λ (r : RawPacket). id_in ids r.id) db.raw_packets))

abbrev pub spare_ids : List ℕ → RawPacket → Bool
spare_ids ids r = not (id_in ids r.id)

module _ (retain : RawPacket → Bool) (protected : Bytes → Bool) (p : Platform) (a : Db) where
  -- The store while the deletes go on.
  pub record IsUnderway (db : Db) : Type 0 where
    pub spares : Spares retain a db
    pub numbered : IsNumbered db
    pub consistent : IsConsistent a → IsConsistent db
    pub protects : Protects retain protected db

  -- What the deletes have done when they are done.
  abbrev pub Gone : List ℕ → ℕ → Db → ℕ → Db → Type 0
  Gone ids total db n db' =
      IsUnderway db'
      × (db'.raw_packets ≡ keep (spare_ids ids) db.raw_packets)
      × (n + length db'.raw_packets ≡ total + length db.raw_packets)

  delete_raw-IsUnderway :
      (ids : List ℕ) (db : Db)
      → IsUnderway db
      → All (NotRetained retain ids) db.raw_packets
      → IsUnderway (delete_raw ids db).1
  delete_raw-IsUnderway ids db u gone =
      let s = delete_raw-Spares retain protected ids db u.protects gone in
      record {
        spares = Spares-trans retain a db (delete_raw ids db).1 u.spares s;
        numbered = delete_raw-IsNumbered ids db u.numbered;
        consistent = λ v. delete_raw-IsConsistent ids db (u.consistent v);
        protects = Protects-Spares retain protected db (delete_raw ids db).1 s u.protects;
      }

  after_chunk-Ends :
      (Q : ℕ → Db → Type 0) (ids : List ℕ) (total : ℕ) (next : ℕ → Counted) (db : Db)
      → IsUnderway db
      → All (NotRetained retain ids) db.raw_packets
      → ((n : ℕ) (w : World)
          → w.db ≡ (delete_raw ids db).1
          → n + length (keep (spare_ids ids) db.raw_packets) ≡ length db.raw_packets
          → Ends IsUnderway Q (next (total + n) w))
      → (r : Result SqlError ℕ × World) → Ran (delete_raw ids) db r
      → Ends IsUnderway Q (after_chunk total next r)
  unfolding after_chunk
  after_chunk-Ends Q ids total next db u gone go (err e, w) ran = rw ran u
  after_chunk-Ends Q ids total next db u gone go (ok n, w) ran =
      let (e, count) = delete_raw-eq ids db w.db n ran in
      on_context-Ends IsUnderway Q (total + n) (next (total + n)) w
        (rw e (delete_raw-IsUnderway ids db u gone)) (λ w' same_db. go n w' (same_db ∙ e) count)

  nothing-Gone : (total : ℕ) (db : Db) → IsUnderway db → Gone [] total db total db
  unfolding any_of
  nothing-Gone total db u =
      (u, sym (keep-All (spare_ids []) db.raw_packets (spared db.raw_packets)), refl)
    where
      spared : (rs : List RawPacket) → All (λ r. spare_ids [] r ≡ true) rs
      spared [] = tt
      spared (r ∷ rs) = (refl, spared rs)

  take-NotRetained :
      (n : ℕ) (ids : List ℕ) (raw : List RawPacket)
      → All (NotRetained retain ids) raw
      → All (NotRetained retain (take n ids)) raw
  take-NotRetained n ids raw =
      All-map {P = NotRetained retain ids} {Q = NotRetained retain (take n ids)}
        (λ (r : RawPacket) gone e. gone (any_of-take (λ j. j == r.id) n ids e)) raw

  drop-NotRetained :
      (n : ℕ) (ids : List ℕ) (test : RawPacket → Bool) (raw : List RawPacket)
      → All (NotRetained retain ids) raw
      → All (NotRetained retain (drop n ids)) (keep test raw)
  drop-NotRetained n ids test raw gone = All-keep (NotRetained retain (drop n ids)) test raw (
      All-map {P = NotRetained retain ids} {Q = NotRetained retain (drop n ids)}
        (λ (r : RawPacket) gone e. gone (any_of-drop (λ j. j == r.id) n ids e)) raw gone)

  -- A chunk and the rest spare what all the ids spare.
  spare_ids-take-drop :
      (n : ℕ) (ids : List ℕ) (r : RawPacket)
      → (spare_ids (take n ids) r && spare_ids (drop n ids) r) ≡ spare_ids ids r
  spare_ids-take-drop n ids r =
      let split : id_in ids r.id ≡ (id_in (take n ids) r.id || id_in (drop n ids) r.id) =
        ap (λ l. id_in l r.id) (sym (take-append-drop n ids))
        ∙ any_of-append (λ j. j == r.id) (take n ids) (drop n ids) in
      rw split (not_or (id_in (take n ids) r.id) (id_in (drop n ids) r.id))
    where
      not_or : (x y : Bool) → (not x && not y) ≡ not (x || y)
      not_or true y = refl
      not_or false y = refl

  -- A chunk and then the rest are gone.
  Gone-chunk :
      (n : ℕ) (ids : List ℕ) (total k : ℕ) (db db' : Db)
      → db' ≡ (delete_raw (take n ids) db).1
      → k + length (keep (spare_ids (take n ids)) db.raw_packets) ≡ length db.raw_packets
      → (m : ℕ) (end : Db) → Gone (drop n ids) (total + k) db' m end
      → Gone ids total db m end
  unfolding delete_raw
  Gone-chunk n ids total k db db' e count m end (u, rest, sum) =
      let raw' : db'.raw_packets ≡ keep (spare_ids (take n ids)) db.raw_packets =
        ap (λ (d : Db). d.raw_packets) e in
      (
        u,
        rest
            ∙ ap (keep (spare_ids (drop n ids))) raw'
            ∙ keep-keep (spare_ids (drop n ids)) (spare_ids (take n ids)) db.raw_packets
            ∙ keep_same _ (spare_ids ids) db.raw_packets (spare_ids-take-drop n ids),
        omega (arith, sum, count, ap length raw'),
      )

  delete_chunks-Ends :
      (fuel : ℕ) (ids : List ℕ) (total : ℕ) (w : World)
      → length ids ≤ fuel
      → IsUnderway w.db
      → All (NotRetained retain ids) w.db.raw_packets
      → Ends IsUnderway (Gone ids total w.db) (delete_chunks p fuel ids total w)
  unfolding delete_chunks delete_chunk
  delete_chunks-Ends zero [] total w le u gone = nothing-Gone total w.db u
  delete_chunks-Ends zero (i ∷ ids) total w le u gone = absurd (omega arith)
  delete_chunks-Ends (suc fuel) [] total w le u gone = nothing-Gone total w.db u
  delete_chunks-Ends (suc fuel) (i ∷ ids) total w le u gone =
      let all = i ∷ ids in
      let chunk = take prune_delete_chunk all in
      let rest = drop prune_delete_chunk all in
      let gone' = take-NotRetained prune_delete_chunk all w.db.raw_packets gone in
      let u' = delete_raw-IsUnderway chunk w.db u gone' in
      after_chunk-Ends (Gone all total w.db) chunk total (delete_chunks p fuel rest) w.db u gone'
        (λ k w' e count.
          Ends-map IsUnderway IsUnderway (Gone rest (total + k) w'.db) (Gone all total w.db)
            (λ db h. h) (Gone-chunk prune_delete_chunk all total k w.db w'.db e count)
            (delete_chunks p fuel rest (total + k) w')
            (delete_chunks-Ends fuel rest (total + k) w'
              (omega (arith, length-drop prune_delete_chunk all)) (rw e u')
              (rw e (
                unfold delete_raw in
                drop-NotRetained prune_delete_chunk all (spare_ids chunk) w.db.raw_packets gone))))
        (delete_chunk p chunk w)
        (retry-Ran (delete_raw chunk) (delete_raw-IsAtomic chunk) p w.db retention_busy_max w refl)

  pub delete_raw_packet_ids-Ends :
      (ids : List ℕ) (w : World)
      → IsUnderway w.db
      → All (NotRetained retain ids) w.db.raw_packets
      → Ends IsUnderway (Gone ids 0 w.db) (delete_raw_packet_ids p ids w)
  unfolding delete_raw_packet_ids
  delete_raw_packet_ids-Ends ids w = delete_chunks-Ends (length ids) ids 0 w (omega arith)
