-- ===== src/Config/Load/Tests.antt =====
-- Environments that are read, and ones that are not.
use mesh_monday.Base.{◌≡◌, refl, [], ◌∷◌, codes, same, err}
use mesh_monday.Go.Text.{contains, to_upper, has_prefix}
use mesh_monday.Go.Trim.{trim_space}
use mesh_monday.Go.Number.{atoi}
use mesh_monday.Checkins.Tests.{plain}
use mesh_monday.Config.Tests.{test_config}
use mesh_monday.Config.EnvFile.{Env, getenv}
use mesh_monday.Config.Load.{bad_number, get_env, number, load, topic_for_iata}
use mesh_monday.Config.Load.Loaded.{Ends, IsLoaded, load-Ends}

abbrev env : Env
env = (codes "TRACK_FROM_DATE", codes "2026-05-04") ∷ (codes "IATA_FILTERS", codes "sea,pdx") ∷ []

load-Ends_example : Ends plain env (IsLoaded plain env) (load plain env)
load-Ends_example = load-Ends plain env

-- A number with a blank behind it is refused.
bad_weeks :
    number
      ((codes "RAW_MONDAY_RETAIN_WEEKS", codes "12 ") ∷ [])
      (codes "RAW_MONDAY_RETAIN_WEEKS")
      (codes "12")
    ≡ err (bad_number (codes "RAW_MONDAY_RETAIN_WEEKS"))
unfolding number get_env getenv atoi same
bad_weeks = refl

topic :
    topic_for_iata plain
      (record test_config { mqtt_topic_template = codes "mesh/{IATA}/{IATA}/packets" })
      (codes " pdx")
    ≡ codes "mesh/PDX/PDX/packets"
unfolding topic_for_iata contains to_upper trim_space has_prefix same
topic = refl
