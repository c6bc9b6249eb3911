-- ===== src/Storage/Queries/Observers.antt =====
-- The names of observers go through the text that GROUP_CONCAT makes of them.
use mesh_monday.Base.{
  ◌≡◌, ◌≢◌, refl, ap, ◌∙◌, sym, false, List, [], ◌∷◌, ◌++◌, arith, Bytes, same, same_iff, length,
  All, All-append,
}
use mesh_monday.Go.Text.{split}
use mesh_monday.Go.Trim.{trim_space}
use mesh_monday.Go.Trim.Plain.{IsVisible, trim_space-visible}
use mesh_monday.Go.Sort.{sort_slice}
use mesh_monday.Go.Sort.Order.{sort_slice_rearranges, length-perm}
use mesh_monday.Leaderboard.Compute.{string_less}
use mesh_monday.Storage.Schema.{Checkin, Db}
use mesh_monday.Storage.Queries.{
  group_concat, observer_names, parse_observer_names, observers_of, week_row,
}

-- A name of visible ASCII characters, not empty and with no comma.
abbrev pub IsName : Bytes → Type 0
IsName k = (k ≢ []) × All (λ c. IsVisible c × (c ≢ b',')) k

visible : (k : Bytes) → All (λ c. IsVisible c × (c ≢ b',')) k → All IsVisible k
visible [] h = tt
visible (c ∷ k) ((v, _), h) = (v, visible k h)

split-name : (k : Bytes) → All (λ c. IsVisible c × (c ≢ b',')) k → split k b',' ≡ k ∷ []
unfolding split
split-name [] h = refl
split-name (c ∷ k) ((v, ne), h) = ground (arith, split-name k h)

split-append :
    (k rest : Bytes)
    → All (λ c. IsVisible c × (c ≢ b',')) k
    → split (k ++ b',' ∷ rest) b',' ≡ k ∷ split rest b','
unfolding split
split-append [] rest h = refl
split-append (c ∷ k) rest ((v, ne), h) = ground (arith, split-append k rest h)

split-group_concat :
    (k : Bytes) (ks : List Bytes)
    → All IsName (k ∷ ks)
    → split (group_concat (k ∷ ks)) b',' ≡ k ∷ ks
unfolding group_concat
split-group_concat k [] (h, _) = split-name k h.1
split-group_concat k (l ∷ ks) (h, hs) =
    split-append k (group_concat (l ∷ ks)) h.1 ∙ ap (◌∷◌ k) (split-group_concat l ks hs)

group_concat-IsVisible : (ks : List Bytes) → All IsName ks → All IsVisible (group_concat ks)
unfolding group_concat
group_concat-IsVisible [] h = tt
group_concat-IsVisible (k ∷ []) (h, _) = visible k h.1
group_concat-IsVisible (k ∷ l ∷ ks) (h, hs) =
    All-append IsVisible k (b',' ∷ group_concat (l ∷ ks)) (visible k h.1)
      (omega arith, group_concat-IsVisible (l ∷ ks) hs)

observer_names-names : (ks : List Bytes) → All IsName ks → observer_names ks ≡ ks
unfolding observer_names
observer_names-names [] h = refl
observer_names-names (k ∷ ks) (h, hs) =
    rw (trim_space-visible k (visible k h.1))
      (ground (arith, h.0, same_iff k [], observer_names-names ks hs))

group_concat_of_names :
    (k : Bytes) (ks : List Bytes) → IsName k → same (group_concat (k ∷ ks)) [] ≡ false
unfolding group_concat same
group_concat_of_names [] ks h = absurd (h.0 refl)
group_concat_of_names (c ∷ k) [] h = refl
group_concat_of_names (c ∷ k) (l ∷ ks) h = refl

parse_nothing : parse_observer_names (group_concat []) ≡ []
unfolding parse_observer_names same trim_space group_concat
parse_nothing = refl

-- Names of visible ASCII characters without commas come back from the joined text, in order.
pub parse_observer_names-group_concat :
    (names : List Bytes)
    → All IsName names
    → parse_observer_names (group_concat names) ≡ sort_slice string_less names
unfolding parse_observer_names sort_slice
parse_observer_names-group_concat [] h = parse_nothing
parse_observer_names-group_concat (k ∷ ks) h =
    rw
      (
        trim_space-visible (group_concat (k ∷ ks)) (group_concat-IsVisible (k ∷ ks) h),
        group_concat_of_names k ks h.0,
        split-group_concat k ks h,
        observer_names-names (k ∷ ks) h,
      )
      refl

-- If all that heard a user's week have such names, the row of the week lists as many observers as it
-- counts.
pub week_row_observers :
    (db : Db) (c : Checkin)
    → All IsName (observers_of c db)
    → ((week_row db c).observer_names ≡ sort_slice string_less (observers_of c db))
      × (length (week_row db c).observer_names ≡ (week_row db c).observer_count)
unfolding week_row
week_row_observers db c h =
    let names = parse_observer_names-group_concat (observers_of c db) h in
    (
      names,
      ap length names ∙ sym (length-perm (sort_slice_rearranges string_less (observers_of c db))),
    )
