-- ===== src/Checkins/Text.antt =====
-- The text side of internal/checkins/service.go: user names, the tag, and who sent a message.
use mesh_monday.Base.{
  ℕ, ◌+◌, Bool, true, false, not, ◌&&◌, ◌||◌, List, [], ◌∷◌, ◌++◌, Option, none, some, Bytes, codes,
  ltb, leb, ◌==◌, if◌then◌else◌, same, take, drop,
}
use mesh_monday.Platform.{Platform, JsonValue, str, other}
use mesh_monday.Go.Text.{to_lower, contains, contains_any, index, join}
use mesh_monday.Go.Trim.{trim_space}
use mesh_monday.Go.Utf8.{rune_count, take_runes, valid}

pub record Candidate : Type 0 where
  pub username : Bytes
  pub display_name : Bytes
  pub message : Bytes

-- The class `[A-Za-z0-9_]` of `wordPattern`.
unfoldable pub is_word : ℕ → Bool
is_word c =
    (leb b'a' c && leb c b'z')
    || (leb b'A' c && leb c b'Z')
    || (leb b'0' c && leb c b'9')
    || c == b'_'

abbrev flush : Bytes → List Bytes → List Bytes
flush [] rest = rest
flush (c ∷ cur) rest = (c ∷ cur) ∷ rest

-- `wordPattern.FindAllString`: the maximal runs, with `cur` the run that is being read.
words : Bytes → Bytes → List Bytes
unfolding is_word
words cur [] = flush cur []
words cur (c ∷ s) = elim (is_word c) [
  | true ↦ words (cur ++ c ∷ []) s
  | false ↦ flush cur (words [] s)
]

abbrev or_anonymous : List Bytes → Bytes
or_anonymous [] = codes "anonymous"
or_anonymous (w ∷ ws) = join (w ∷ ws) (codes "_")

unfoldable pub normalize_username : Platform → Bytes → Bytes
unfolding words join
normalize_username p input =
    let clean = to_lower p (trim_space input) in or_anonymous (words [] clean)

unfoldable pub sanitize_text : Bytes → Bytes
sanitize_text value =
    let trimmed = trim_space value in
    if same trimmed []
    then []
    else if ltb 280 (rune_count trimmed)
    then trim_space (take_runes 280 trimmed)
    else trimmed

lookup : Bytes → List (Bytes × JsonValue) → Option JsonValue
lookup key [] = none
lookup key ((k, v) ∷ body) = elim (same k key) [ true ↦ some v | false ↦ lookup key body ]

-- The trimmed text of a field that holds a text which is not blank.
usable : Option JsonValue → Option Bytes
usable none = none
usable (some other) = none
usable (some (str s)) = let trimmed = trim_space s in if same trimmed [] then none else some trimmed

unfoldable pub string_value : List (Bytes × JsonValue) → List Bytes → Bytes
unfolding lookup usable
string_value body [] = []
string_value body (key ∷ keys) = elim (usable (lookup key body)) [
  | some s ↦ s
  | none ↦ string_value body keys
]

unfoldable pub has_mesh_monday_tag : Platform → Bytes → Bool
has_mesh_monday_tag p message = contains (to_lower p message) (codes "#meshmonday")

-- `parseSenderAndMessage`, at the first `: `, if there is one.
split_at_colon : Bytes → Option ℕ → Bytes × Bytes
split_at_colon text none = ([], text)
split_at_colon text (some idx) =
    let potential_sender = trim_space (take idx text) in
    if ltb 0 idx
      && ltb idx 80
      && (not (same potential_sender []) && not (contains_any potential_sender (codes "[]:")))
    then (potential_sender, trim_space (drop (idx + 2) text))
    else ([], text)

-- The sender, empty if there is none, and the message.
unfoldable pub parse_sender_and_message : Bytes → Bytes × Bytes
unfolding split_at_colon
parse_sender_and_message raw =
    let text = trim_space raw in
    if same text [] then ([], []) else split_at_colon text (index text (codes ": "))

unfoldable pub parse_candidate_from_text : Platform → Bytes → Option Candidate
parse_candidate_from_text p text =
    let (display, msg) = parse_sender_and_message text in
    if same display []
    then none
    else if not (has_mesh_monday_tag p msg)
    then none
    else some
        (record { username = normalize_username p display; display_name = display; message = msg })

-- What stands before the first zero byte.
until_null : Bytes → Bytes
until_null [] = []
until_null (c ∷ s) = elim (c == 0) [ true ↦ [] | false ↦ c ∷ until_null s ]

unfoldable pub decode_null_terminated_utf8 : Bytes → Bytes
unfolding until_null
decode_null_terminated_utf8 raw =
    let content = until_null raw in if valid content then trim_space content else []
