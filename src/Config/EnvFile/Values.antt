-- ===== src/Config/EnvFile/Values.antt =====
-- The value of every variable after a file was loaded.
use mesh_monday.Base.{
  ◌≡◌, ◌∙◌, inl, inr, arith, ◌&&◌, List, [], ◌∷◌, Option, none, some, Bool-cases, Bytes, same,
  same_iff, if◌then◌else◌,
}
use mesh_monday.Config.EnvFile.{
  Env, getenv, settable, set_env, assignment_of, assign, load_lines, EnvFile, missing, unreadable,
  scanned, load_env_file,
}

-- What an assignment gives the variable: nothing, if it is another's or cannot be made.
value_of : Bytes → Option (Bytes × Bytes) → Bytes
value_of k none = []
value_of k (some (j, v)) = if settable j v && same j k then v else []

-- The first value of the variable in the lines that is not empty.
pub first_value : Bytes → List Bytes → Bytes
first_value k [] = []
first_value k (text ∷ lines) =
    let rest = first_value k lines in
    let v = value_of k (assignment_of text) in if same v [] then rest else v

-- The lines of the file.
pub lines_of : EnvFile → List Bytes
lines_of missing = []
lines_of (unreadable e) = []
lines_of (scanned lines e) = lines

getenv-assign :
    (k : Bytes) (a : Option (Bytes × Bytes)) (env : Env)
    → getenv k (assign a env) ≡ (if same (getenv k env) [] then value_of k a else getenv k env)
unfolding assign set_env getenv value_of
getenv-assign k none env = ground (arith, same_iff (getenv k env) [])
getenv-assign k (some (j, v)) env = elim (Bool-cases (same j k)) [
  | inl e ↦
      let here = (same_iff j k).0 e in
      rw here (ground (arith, same_iff k k, same_iff (getenv k env) []))
  | inr e ↦ ground (arith, e, same_iff (getenv k env) [])
]

getenv-load_lines :
    (k : Bytes) (lines : List Bytes) (env : Env)
    → getenv k (load_lines lines env)
      ≡ (if same (getenv k env) [] then first_value k lines else getenv k env)
unfolding load_lines first_value
getenv-load_lines k [] env = ground (arith, same_iff (getenv k env) [])
getenv-load_lines k (text ∷ lines) env =
    let later = getenv-load_lines k lines (assign (assignment_of text) env) in
    let now = getenv-assign k (assignment_of text) env in later ∙ rw now (ground arith)

-- After the file was loaded, whole or in part, a variable that had a value has it still, and any other
-- has the first value that the lines give it, or none.
pub load_env_file-getenv :
    (k : Bytes) (file : EnvFile) (env : Env)
    → getenv k (load_env_file file env).1
      ≡ (if same (getenv k env) [] then first_value k (lines_of file) else getenv k env)
unfolding load_env_file lines_of first_value
load_env_file-getenv k missing env = ground (arith, same_iff (getenv k env) [])
load_env_file-getenv k (unreadable e) env = ground (arith, same_iff (getenv k env) [])
load_env_file-getenv k (scanned lines e) env = getenv-load_lines k lines env
