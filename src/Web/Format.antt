-- ===== src/Web/Format.antt =====
-- What the templates compute: the ring of the leaderboard, the tooltip of a check-in, and the list of
-- channels. Counts of rows are natural numbers, far from the bounds of an `int`.
pub mod Bounds
pub mod Channels
use mesh_monday.Base.{
  ℕ, zero, suc, ◌*◌, ◌/◌, Bool, not, List, [], ◌∷◌, ◌++◌, Bytes, codes, ltb, ◌==◌, if◌then◌else◌,
  same, any_of, length,
}
use mesh_monday.Platform.{Platform}
use mesh_monday.Go.Text.{to_lower, has_prefix, join}
use mesh_monday.Go.Trim.{trim_space}
use mesh_monday.Go.Decimal.{decimal}
use mesh_monday.Go.Sort.{sort_slice}
use mesh_monday.Leaderboard.Compute.{string_less}

-- `leaderboardRingFill`, in percent.
pub leaderboard_ring_fill : ℕ → ℕ → ℕ
leaderboard_ring_fill checkins tracked_weeks =
    let p = checkins * 100 / tracked_weeks in
    if tracked_weeks == 0 then 0 else if ltb 100 p then 100 else p

tooltip_of : List Bytes → Bytes
tooltip_of [] = []
tooltip_of (name ∷ []) = codes "1 observer: " ++ name
tooltip_of (a ∷ b ∷ names) =
    decimal (length (a ∷ b ∷ names))
    ++ (codes " observers: " ++ join (a ∷ b ∷ names) (b' ' ∷ 0xE2 ∷ 0x80 ∷ 0xA2 ∷ b' ' ∷ []))

-- `observerTooltip`; the names are joined by bullets.
pub observer_tooltip : ℕ → List Bytes → Bytes
unfolding tooltip_of
observer_tooltip zero names = codes "No observers recorded yet."
observer_tooltip (suc count) [] = codes "Observer data unavailable."
observer_tooltip (suc count) (name ∷ names) = tooltip_of (sort_slice string_less (name ∷ names))

-- A channel as it is listed.
abbrev pub listed_channel : Platform → Bytes → Bytes
listed_channel p channel =
    to_lower p (if not (has_prefix channel (codes "#")) then b'#' ∷ channel else channel)

-- The loop of `configuredHashtagChannels`, with the channels so far.
pub add_channels : Platform → List Bytes → List Bytes → List Bytes
add_channels p out [] = out
add_channels p out (raw ∷ values) =
    let channel = trim_space raw in
    let listed = listed_channel p channel in
    let skip = add_channels p out values in
    let take_it = add_channels p (out ++ listed ∷ []) values in
    if same channel []
    then skip
    else if same listed (codes "#meshmonday")
    then skip
    else if any_of (λ c. same c listed) out
    then skip
    else take_it

-- `configuredHashtagChannels`
unfoldable pub configured_hashtag_channels : Platform → List Bytes → List Bytes
unfolding add_channels
configured_hashtag_channels p values = add_channels p [] values
