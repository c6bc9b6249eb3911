-- ===== src/Storage/Migrate/Canonical.antt =====
-- Of the check-ins of a user in a week the DELETE of `Migrate` leaves one.
use mesh_monday.Base.{
  ℕ, zero, suc, ◌+◌, ◌<◌, ◌≡◌, ◌≢◌, sym, ◌∙◌, inl, inr, arith, Bool, true, false, ◌&&◌, List, [],
  ◌∷◌, Bool-cases, ltb, keep, any_of, any_of_mono, any_of-keep, has_key, Bytes, All, All-keep_and,
  Distinct,
}
use mesh_monday.Storage.Schema.{Checkin, week_user, same_week_user, same_week_user_iff}
use mesh_monday.Storage.Migrate.{is_canonical}

abbrev pub checkin_id : Checkin → ℕ
checkin_id c = c.id

abbrev rival : Checkin → Checkin → Bool
rival c d = same_week_user (week_user d) (week_user c) && ltb d.id c.id

All-everywhere : (P : Checkin → Type 0) → ((x : Checkin) → P x) → (rows : List Checkin) → All P rows
All-everywhere P f [] = tt
All-everywhere P f (x ∷ rows) = (f x, All-everywhere P f rows)

All-none :
    (p : Checkin → Bool) (rows : List Checkin) → any_of p rows ≡ false → All (λ d. p d ≡ false) rows
unfolding any_of
All-none p [] e = tt
All-none p (d ∷ rows) e = (ground (arith, e), All-none p rows (ground (arith, e)))

none_rivals :
    (rows : List Checkin) (c : Checkin)
    → is_canonical rows c ≡ true
    → All (λ d. rival c d ≡ false) rows
unfolding is_canonical
none_rivals rows c e = All-none (rival c) rows (ground (arith, e))

-- Two rows of one user and week of which neither has a rival in the other have the same id.
one_each :
    (c d : Checkin)
    → rival c d ≡ false
    → rival d c ≡ false
    → c.id ≢ d.id
    → week_user c ≢ week_user d
one_each c d e f ne q =
    let there = (same_week_user_iff (week_user d) (week_user c)).1 (sym q) in
    let back = (same_week_user_iff (week_user c) (week_user d)).1 q in
    ground (arith, e, f, ne, there, back)

module _ (rows : List Checkin) where
  canonical-Distinct :
      (rest : List Checkin)
      → ((P : Checkin → Type 0) → All P rows → All P rest)
      → Distinct checkin_id rest
      → Distinct week_user (keep (is_canonical rows) rest)
  unfolding keep
  canonical-Distinct [] sub h = tt
  canonical-Distinct (c ∷ rest) sub (hc, h) =
      let others = canonical-Distinct rest (λ P k. (sub P k).1) h in
      elim (Bool-cases (is_canonical rows c)) [
        | inr e ↦ rw (keep, e) others
        | inl e ↦
            rw (keep, e)
              (
                All-keep_and {P = λ d. (c.id ≢ d.id) × (rival c d ≡ false)}
                    {Q = λ d. week_user c ≢ week_user d} (is_canonical rows)
                    (λ d l f.
                      one_each c d l.1 (sub (λ x. rival d x ≡ false) (none_rivals rows d f)).0 l.0)
                    rest (both rest hc (sub (λ x. rival c x ≡ false) (none_rivals rows c e)).1),
                others,
              )
      ]
    where
      both :
          (l : List Checkin)
          → All (λ d. c.id ≢ d.id) l
          → All (λ d. rival c d ≡ false) l
          → All (λ d. (c.id ≢ d.id) × (rival c d ≡ false)) l
      both [] a b = tt
      both (x ∷ l) (ax, a) (bx, b) = ((ax, bx), both l a b)

  pub keep-Distinct : Distinct checkin_id rows → Distinct week_user (keep (is_canonical rows) rows)
  keep-Distinct h = canonical-Distinct rows (λ P k. k) h

  module _ (k : ℕ × Bytes) where
    abbrev of_key : Checkin → Bool
    of_key c = same_week_user (week_user c) k

    abbrev below : ℕ → Checkin → Bool
    below n c = of_key c && ltb c.id n

    abbrev chosen : Checkin → Bool
    chosen c = is_canonical rows c && of_key c

    -- With none of the key below `n`, one that is below the next number is canonical.
    least :
        (n : ℕ) (c : Checkin)
        → any_of (below n) rows ≡ false
        → below (suc n) c ≡ true
        → chosen c ≡ true
    unfolding is_canonical
    least n c e f = elim (Bool-cases (any_of (rival c) rows)) [
      | inr g ↦ ground (arith, f, g)
      | inl g ↦
          let lower =
            any_of_mono (rival c) (below n) rows
              (All-everywhere (λ d. rival c d ≡ true → below n d ≡ true) (λ d. lower_key d) rows)
              g in
          cc
    ]
      where
        lower_key : (d : Checkin) → rival c d ≡ true → below n d ≡ true
        lower_key d l =
            let one = (same_week_user_iff (week_user d) (week_user c)).0 in
            let two = (same_week_user_iff (week_user c) k).0 in
            let three = (same_week_user_iff (week_user d) k).1 in
            ground (arith, l, f, one, two, three)

    reach : (n : ℕ) → any_of (below n) rows ≡ true → any_of chosen rows ≡ true
    reach zero e =
        any_of_mono (below 0) chosen rows
          (All-everywhere (λ c. below 0 c ≡ true → chosen c ≡ true) (λ c f. ground (arith, f)) rows)
          e
    reach (suc n) e = elim (Bool-cases (any_of (below n) rows)) [
      | inl f ↦ reach n f
      | inr f ↦
          any_of_mono (below (suc n)) chosen rows
            (All-everywhere (λ c. below (suc n) c ≡ true → chosen c ≡ true) (λ c. least n c f) rows)
            e
    ]

    bound : List Checkin → ℕ
    bound [] = 0
    bound (c ∷ l) = let rest = bound l in c.id + 1 + rest

    bounded :
        (l : List Checkin)
        → any_of of_key l ≡ true
        → (n : ℕ) → bound l < n + 1
        → any_of (below n) l ≡ true
    unfolding any_of bound
    bounded [] e n h = e
    bounded (c ∷ l) e n h =
        let tail : any_of of_key l ≡ true → any_of (below n) l ≡ true =
          λ f. bounded l f n (omega (arith, h)) in
        ground (arith, e, h, tail)

    chosen_some : any_of chosen rows ≡ true → any_of of_key rows ≡ true
    chosen_some =
        any_of_mono chosen of_key rows
          (All-everywhere (λ c. chosen c ≡ true → of_key c ≡ true) (λ c f. ground (arith, f)) rows)

    chosen_none : any_of of_key rows ≡ false → any_of chosen rows ≡ false
    chosen_none e = elim (Bool-cases (any_of chosen rows)) [
      | inr f ↦ f
      | inl f ↦ let some_key = chosen_some f in cc
    ]

    pub has_key-canonical :
        has_key week_user same_week_user same_week_user_iff k (keep (is_canonical rows) rows)
        ≡ has_key week_user same_week_user same_week_user_iff k rows
    has_key-canonical = elim (Bool-cases (any_of of_key rows)) [
      | inl e ↦
          any_of-keep of_key (is_canonical rows) rows
          ∙ reach (bound rows) (bounded rows e (bound rows) (omega arith))
          ∙ sym e
      | inr e ↦ any_of-keep of_key (is_canonical rows) rows ∙ chosen_none e ∙ sym e
    ]
