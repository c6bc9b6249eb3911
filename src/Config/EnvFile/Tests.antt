-- ===== src/Config/EnvFile/Tests.antt =====
-- A file with a comment, quotes, a variable that is there twice, and one that the process has.
use mesh_monday.Base.{◌≡◌, refl, [], ◌∷◌, none, codes, same, if◌then◌else◌, any_of, reverse}
use mesh_monday.Go.Text.{has_prefix}
use mesh_monday.Go.Trim.{trim_space}
use mesh_monday.Config.EnvFile.{
  Env, getenv, settable, assignment_of, cut_equals, trim_quotes, load_lines, EnvFile, scanned,
  load_env_file,
}
use mesh_monday.Config.EnvFile.Values.{first_value, lines_of, load_env_file-getenv}

abbrev env_local : EnvFile
env_local =
    scanned
      (codes "# local settings"
        ∷ codes "TZ=\"UTC\""
        ∷ codes " MESH_NAME = Cascadia=Mesh"
        ∷ codes "MESH_NAME=Other"
        ∷ codes "TRACK_FROM_DATE=2026-02-02"
        ∷ [])
      none

abbrev process : Env
process = (codes "TRACK_FROM_DATE", codes "2026-01-12") ∷ []

values :
    (getenv (codes "TZ") (load_env_file env_local process).1 ≡ codes "UTC")
    × (getenv (codes "MESH_NAME") (load_env_file env_local process).1 ≡ codes "Cascadia=Mesh")
    × (getenv (codes "TRACK_FROM_DATE") (load_env_file env_local process).1 ≡ codes "2026-01-12")
unfolding load_env_file load_lines getenv settable assignment_of cut_equals trim_quotes trim_space
    has_prefix same any_of reverse
values = (refl, refl, refl)

load_env_file-getenv_example : getenv (codes "TZ") (load_env_file env_local process).1 ≡ (
    if same (getenv (codes "TZ") process) []
    then first_value (codes "TZ") (lines_of env_local)
    else getenv (codes "TZ") process)
load_env_file-getenv_example = load_env_file-getenv (codes "TZ") env_local process
