-- ===== src/Storage/Retention/Rows.antt =====
-- The rows of a batch: which of them are to be deleted, and where the next batch begins.
use mesh_monday.Base.{
  ℕ, zero, suc, ◌≤◌, ◌<◌, ◌≡◌, refl, Bool, true, false, not, ◌&&◌, List, [], ◌∷◌, inl, inr, arith,
  Bool-cases, keep, any_of, length, take, ltb, ◌==◌, All, All-map, All-both, any_of_mono,
  any_of-keep, any_of-take, keep_absorb, keep_comm, length-keep_lt, length-keep_others, All-kept,
  All-keep_inv,
}
use mesh_monday.Storage.Schema.{RawPacket}
use mesh_monday.Storage.Statements.{id_in}
use mesh_monday.Storage.Numbering.{IsAscending, IsAscending-keep}
use mesh_monday.Storage.Retention.{last_id, to_delete}

abbrev pub above : ℕ → RawPacket → Bool
above last r = ltb last r.id

-- An id that is to be deleted is that of a row of the batch that is not retained.
id_in-to_delete :
    (retain : RawPacket → Bool) (i : ℕ) (rows : List RawPacket)
    → id_in (to_delete retain rows) i
      ≡ any_of (λ (r : RawPacket). not (retain r) && (r.id == i)) rows
unfolding to_delete keep any_of
id_in-to_delete retain i [] = refl
id_in-to_delete retain i (r ∷ rows) = ground (arith, id_in-to_delete retain i rows)

no_row_with :
    (retain : RawPacket → Bool) (i : ℕ) (rows : List RawPacket)
    → All (λ (r : RawPacket). i < r.id) rows
    → any_of (λ (r : RawPacket). not (retain r) && (r.id == i)) rows ≡ false
unfolding any_of
no_row_with retain i [] h = refl
no_row_with retain i (r ∷ rows) (lt, h) = ground (arith, no_row_with retain i rows h)

-- Some row that is not retained has the id of `r`.
abbrev doomed : (RawPacket → Bool) → RawPacket → RawPacket → Bool
doomed retain r s = not (retain s) && (s.id == r.id)

abbrev SameFate : (RawPacket → Bool) → List RawPacket → RawPacket → Type 0
SameFate retain rows r = any_of (doomed retain r) rows ≡ true → retain r ≡ false

SameFate-cons :
    (retain : RawPacket → Bool) (r s : RawPacket) (rows : List RawPacket)
    → r.id < s.id
    → SameFate retain rows s
    → SameFate retain (r ∷ rows) s
unfolding any_of
SameFate-cons retain r s rows lt fate e = fate (ground arith)

-- Ids name rows: a row whose id a row that is not retained has is that row.
same_fate :
    (retain : RawPacket → Bool) (rows : List RawPacket)
    → IsAscending rows
    → All (SameFate retain rows) rows
unfolding any_of
same_fate retain [] h = tt
same_fate retain (r ∷ rows) (hr, h) = (
  λ e. ground (arith, no_row_with retain r.id rows hr),
  All-map {Q = SameFate retain (r ∷ rows)}
      (λ (s : RawPacket) both. SameFate-cons retain r s rows both.0 both.1) rows
      (All-both (λ (s : RawPacket). r.id < s.id) (SameFate retain rows) rows hr
        (same_fate retain rows h)),
)

weaken :
    (p q : RawPacket → Bool) (rows : List RawPacket)
    → All (λ s. (p s && q s) ≡ true → q s ≡ true) rows
weaken p q [] = tt
weaken p q (s ∷ rows) = ((λ e. ground arith), weaken p q rows)

pub in_batch :
    (f : RawPacket → Bool) (last n : ℕ) (raw : List RawPacket)
    → any_of f (take n (keep (above last) raw)) ≡ true
    → any_of (λ s. above last s && f s) raw ≡ true
in_batch f last n raw e =
    rw (← any_of-keep f (above last) raw) (any_of-take f n (keep (above last) raw) e)

-- Ids to delete, taken from a batch of the table, are those of rows that are not retained.
abbrev pub NotRetained : (RawPacket → Bool) → List ℕ → RawPacket → Type 0
NotRetained retain ids r = id_in ids r.id ≡ true → retain r ≡ false

pub to_delete-NotRetained :
    (retain : RawPacket → Bool) (last n : ℕ) (raw : List RawPacket)
    → IsAscending raw
    → All (NotRetained retain (to_delete retain (take n (keep (above last) raw)))) raw
to_delete-NotRetained retain last n raw h =
    let rows = take n (keep (above last) raw) in
    All-map {P = SameFate retain raw} {Q = NotRetained retain (to_delete retain rows)}
      (λ (r : RawPacket) fate e.
        let listed : any_of (doomed retain r) rows ≡ true =
          rw (← id_in-to_delete retain r.id rows) e in
        fate (
          any_of_mono (λ s. above last s && doomed retain r s) (doomed retain r) raw
            (weaken (above last) (doomed retain r) raw)
            (in_batch (doomed retain r) last n raw listed)))
      raw (same_fate retain raw h)

-- If there are ids to delete, the batch has a row with one of them.
pub to_delete-some :
    (retain : RawPacket → Bool) (rows : List RawPacket) (i : ℕ) (ids : List ℕ)
    → to_delete retain rows ≡ i ∷ ids
    → any_of (λ (r : RawPacket). id_in (i ∷ ids) r.id) rows ≡ true
unfolding to_delete keep any_of
to_delete-some retain [] i ids e = cc
to_delete-some retain (r ∷ rows) i ids e = ground (arith, to_delete-some retain rows i ids)

-- If there are none, every row of the batch is retained.
pub to_delete-none :
    (retain : RawPacket → Bool) (rows : List RawPacket)
    → to_delete retain rows ≡ []
    → All (λ r. retain r ≡ true) rows
unfolding to_delete keep
to_delete-none retain [] e = tt
to_delete-none retain (r ∷ rows) e = elim (Bool-cases (retain r)) [
  | inl k ↦
      let e' : to_delete retain rows ≡ [] = ground (arith, e, k) in
      (k, to_delete-none retain rows e')
  | inr k ↦ absurd (ground (arith, e, k))
]

abbrev pub RetainedUpTo : (RawPacket → Bool) → ℕ → RawPacket → Type 0
RetainedUpTo retain last r = r.id ≤ last → retain r ≡ true

-- Behind a batch that is retained, what stands up to its last id is retained.
pub batch_retained :
    (retain : RawPacket → Bool) (n : ℕ) (rows : List RawPacket)
    → IsAscending rows
    → All (λ r. retain r ≡ true) (take (suc n) rows)
    → All (RetainedUpTo retain (last_id (take (suc n) rows))) rows
unfolding last_id
batch_retained retain n [] h k = tt
batch_retained retain zero (r ∷ rows) (hr, h) (k, _) = (
  λ _. k,
  All-map {P = λ (s : RawPacket). r.id < s.id} {Q = RetainedUpTo retain r.id}
      (λ s lt le. absurd (omega arith)) rows hr,
)
batch_retained retain (suc n) (r ∷ []) (hr, h) (k, _) = (λ _. k, tt)
batch_retained retain (suc n) (r ∷ s ∷ rows) (hr, h) (k, ks) =
    (λ _. k, batch_retained retain n (s ∷ rows) h ks)

-- The last id of a batch is no smaller than the first.
pub first-le-last_id :
    (n : ℕ) (r : RawPacket) (rows : List RawPacket)
    → IsAscending (r ∷ rows)
    → r.id ≤ last_id (take (suc n) (r ∷ rows))
unfolding last_id
first-le-last_id zero r rows h = omega arith
first-le-last_id (suc n) r [] h = omega arith
first-le-last_id (suc n) r (s ∷ rows) ((lt, _), h) = omega (arith, first-le-last_id n s rows h)

-- How many rows are still to be scanned.
abbrev pub count_above : ℕ → List RawPacket → ℕ
count_above last rows = length (keep (above last) rows)

-- A round that deletes leaves fewer.
pub count_above-deleted :
    (retain : RawPacket → Bool) (last n : ℕ) (raw : List RawPacket) (i : ℕ) (ids : List ℕ)
    → to_delete retain (take n (keep (above last) raw)) ≡ i ∷ ids
    → count_above last (keep (λ (r : RawPacket). not (id_in (i ∷ ids) r.id)) raw)
      < count_above last raw
count_above-deleted retain last n raw i ids e =
    let listed : RawPacket → Bool = λ r. id_in (i ∷ ids) r.id in
    let rows = keep (above last) raw in
    rw (keep_comm (above last) (λ r. not (listed r)) raw) (
      length-keep_others listed rows
        (any_of-take listed n rows (to_delete-some retain (take n rows) i ids e)))

advance :
    (last n : ℕ) (raw rows : List RawPacket) (r : RawPacket)
    → keep (above last) raw ≡ r ∷ rows
    → IsAscending (r ∷ rows)
    → last < r.id
    → count_above (last_id (take (suc n) (r ∷ rows))) raw < count_above last raw
unfolding any_of
advance last n raw rows r e h lt =
    let last' = last_id (take (suc n) (r ∷ rows)) in
    let le = first-le-last_id n r rows h in
    rw (← keep_absorb (above last') (above last) raw (later last last' raw (omega arith)), e)
      (length-keep_lt (above last') (r ∷ rows) (ground (arith, le)))
  where
    later :
        (last last' : ℕ) (raw : List RawPacket)
        → last ≤ last'
        → All (λ r. above last' r ≡ true → above last r ≡ true) raw
    later last last' [] le = tt
    later last last' (r ∷ raw) le = ((λ e. ground arith), later last last' raw le)

-- A round that passes a batch leaves fewer.
pub count_above-advanced :
    (last n : ℕ) (raw batch : List RawPacket) (r : RawPacket)
    → IsAscending raw
    → take (suc n) (keep (above last) raw) ≡ r ∷ batch
    → count_above (last_id (take (suc n) (keep (above last) raw))) raw < count_above last raw
count_above-advanced last n raw batch r h e =
    split (keep (above last) raw) refl (IsAscending-keep (above last) raw h)
      (All-kept (above last) raw) e
  where
    split :
        (rows : List RawPacket)
        → keep (above last) raw ≡ rows
        → IsAscending rows
        → All (λ r. above last r ≡ true) rows
        → take (suc n) rows ≡ r ∷ batch
        → count_above (last_id (take (suc n) rows)) raw < count_above last raw
    split [] e h k t = cc
    split (s ∷ rows) e h (k, _) t = advance last n raw rows s e h (ground (arith, k))

-- Where nothing is left to be scanned and what was scanned is retained, all is retained.
pub nothing_to_delete :
    (retain : RawPacket → Bool) (last : ℕ) (raw : List RawPacket)
    → keep (above last) raw ≡ []
    → All (RetainedUpTo retain last) raw
    → All (λ r. retain r ≡ true) raw
unfolding keep
nothing_to_delete retain last [] e h = tt
nothing_to_delete retain last (r ∷ raw) e (hr, h) = elim (Bool-cases (above last r)) [
  | inl f ↦ absurd (ground (arith, e, f))
  | inr f ↦ (hr (ground (arith, f)), nothing_to_delete retain last raw (ground (arith, e, f)) h)
]

-- Behind a batch that is retained, the scan has passed what is retained.
pub RetainedUpTo-advanced :
    (retain : RawPacket → Bool) (last n : ℕ) (raw : List RawPacket)
    → IsAscending raw
    → to_delete retain (take (suc n) (keep (above last) raw)) ≡ []
    → All (RetainedUpTo retain last) raw
    → All (RetainedUpTo retain (last_id (take (suc n) (keep (above last) raw)))) raw
RetainedUpTo-advanced retain last n raw h e old =
    let rows = keep (above last) raw in
    let last' = last_id (take (suc n) rows) in
    let fresh =
      batch_retained retain n rows (IsAscending-keep (above last) raw h)
        (to_delete-none retain (take (suc n) rows) e) in
    All-map {Q = RetainedUpTo retain last'}
      (λ (r : RawPacket) both le. elim (Bool-cases (above last r)) [
        | inl f ↦ both.1 f le
        | inr f ↦ both.0 (ground (arith, f))
      ])
      raw
      (All-both (RetainedUpTo retain last) (λ r. above last r ≡ true → RetainedUpTo retain last' r)
        raw old (All-keep_inv (RetainedUpTo retain last') (above last) raw fresh))
