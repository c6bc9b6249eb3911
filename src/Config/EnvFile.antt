-- ===== src/Config/EnvFile.antt =====
-- internal/config/envfile.go: `LoadEnvFile`, and the environment of a process. Reading the file and
-- cutting it into lines is the operating system's and bufio's; the model takes what they give.
pub mod Values
mod Tests
use mesh_monday.Base.{
  ℕ, Bool, true, false, not, ◌&&◌, ◌||◌, List, [], ◌∷◌, Option, none, some, Bytes, codes, ◌==◌,
  if◌then◌else◌, same, any_of, reverse,
}
use mesh_monday.Go.Text.{has_prefix}
use mesh_monday.Go.Trim.{trim_space}

-- The variables with their values; a name that stands twice has the first value.
abbrev pub Env : Type 0
Env = List (Bytes × Bytes)

-- `os.Getenv`; a name that is not there has the empty value.
unfoldable pub getenv : Bytes → Env → Bytes
getenv k [] = []
getenv k ((j, v) ∷ env) = let rest = getenv k env in if same j k then v else rest

-- `os.Setenv` refuses an empty name, a name with `=`, and what holds a null byte.
unfoldable pub settable : Bytes → Bytes → Bool
settable k v =
    not (same k []) && not (any_of (λ c. c == b'=' || c == 0) k) && not (any_of (λ c. c == 0) v)

pub set_env : Bytes → Bytes → Env → Env
unfolding settable
set_env k v env = if settable k v then (k, v) ∷ env else env

-- `strings.SplitN(line, "=", 2)`, where it has two parts.
with_byte : ℕ → Option (Bytes × Bytes) → Option (Bytes × Bytes)
with_byte c none = none
with_byte c (some (k, v)) = some (c ∷ k, v)

pub cut_equals : Bytes → Option (Bytes × Bytes)
unfolding with_byte
cut_equals [] = none
cut_equals (c ∷ s) =
    let rest = with_byte c (cut_equals s) in if c == b'=' then some ([], s) else rest

-- `strings.Trim(value, "\"")`
drop_quotes : Bytes → Bytes
drop_quotes [] = []
drop_quotes (c ∷ s) = let rest = drop_quotes s in if c == b'"' then rest else c ∷ s

pub trim_quotes : Bytes → Bytes
unfolding drop_quotes
trim_quotes s = reverse (drop_quotes (reverse (drop_quotes s)))

trim_pair : Option (Bytes × Bytes) → Option (Bytes × Bytes)
trim_pair none = none
trim_pair (some (k, v)) = some (trim_space k, trim_quotes (trim_space v))

-- What a line assigns; blank lines, comments and lines with no `=` are passed over.
pub assignment_of : Bytes → Option (Bytes × Bytes)
unfolding trim_pair
assignment_of text =
    let line = trim_space text in
    if same line [] || has_prefix line (codes "#") then none else trim_pair (cut_equals line)

-- A variable that has a value keeps it.
assign : Option (Bytes × Bytes) → Env → Env
unfolding set_env
assign none env = env
assign (some (k, v)) env = if same (getenv k env) [] then set_env k v env else env

pub load_lines : List Bytes → Env → Env
unfolding assign
load_lines [] env = env
load_lines (text ∷ lines) env = load_lines lines (assign (assignment_of text) env)

-- A file that is not there, one that cannot be opened, or the lines that were scanned and the error
-- that ended the scan, if one did.
pub data EnvFile : Type 0 where
  missing : EnvFile
  unreadable : Bytes → EnvFile
  scanned : List Bytes → Option Bytes → EnvFile

-- `LoadEnvFile`: the error, if there is one, and the environment.
unfoldable pub load_env_file : EnvFile → Env → Option Bytes × Env
load_env_file missing env = (none, env)
load_env_file (unreadable e) env = (some e, env)
load_env_file (scanned lines e) env = (e, load_lines lines env)
