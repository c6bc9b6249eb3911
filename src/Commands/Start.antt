-- ===== src/Commands/Start.antt =====
-- cmd/server/main.go: `main` up to the point where the server listens, and what the other programs of cmd
-- do as they begin.
use mesh_monday.Base.{◌≡◌, refl, Result, ok, err, [], ◌∷◌}
use mesh_monday.Platform.{Platform}
use mesh_monday.Config.{Config}
use mesh_monday.Config.EnvFile.{Env, EnvFile, load_env_file}
use mesh_monday.Config.Load.{LoadError, load, topic_for_iata}
use mesh_monday.Config.Load.Loaded.{Ends, IsLoaded, load-Ends}
use mesh_monday.Storage.Exec.{SqlError, World}
use mesh_monday.Storage.Migrate.{migrate}
use mesh_monday.Mqtt.Consumer.{Consumer, new_consumer, add_subscription}
use mesh_monday.Ingest.Service.{Service, new_service}

-- Why a program ends before it has begun.
pub data StartError : Type 0 where
  load_failed : LoadError → StartError
  store_failed : SqlError → StartError

pub record Running : Type 0 where
  pub cfg : Config
  pub service : Service
  pub consumer : Consumer

-- The handlers, and the subscription, which waits for the connection.
wire : Platform → Config → Running
wire p c = record {
  cfg = c;
  service = new_service p c;
  consumer = add_subscription (topic_for_iata p c c.iata_default) new_consumer;
}

opened : Platform → Config → Result SqlError (Unit {0}) × World → Result StartError Running × World
unfolding wire
opened p c (err e, w) = (err (store_failed e), w)
opened p c (ok u, w) = (ok (wire p c), w)

with_config : Platform → Result LoadError Config → World → Result StartError Running × World
unfolding opened
with_config p (err e) w = (err (load_failed e), w)
with_config p (ok c) w = opened p c (migrate w)

-- An env file that cannot be read is none.
pub start_server : Platform → EnvFile → Env → World → Result StartError Running × World
unfolding with_config
start_server p file env w = with_config p (load p (load_env_file file env).1) w

-- What `start_server` promises: a configuration as the environment says, with its topic subscribed; or the error
-- of `Load`, and the store is not touched; or that of `Migrate`.
abbrev IsStarted : Platform → Env → World → Result StartError Running × World → Type 0
IsStarted p env w (ok r, w') =
    IsLoaded p env r.cfg × (r.consumer.subs ≡ topic_for_iata p r.cfg r.cfg.iata_default ∷ [])
IsStarted p env w (err (load_failed e), w') = (load p env ≡ err e) × (w' ≡ w)
IsStarted p env w (err (store_failed e), w') = migrate w ≡ (err e, w')

opened-IsStarted :
    (p : Platform) (env : Env) (w : World) (c : Config) (x : Result SqlError (Unit {0}) × World)
    → IsLoaded p env c
    → migrate w ≡ x
    → IsStarted p env w (opened p c x)
unfolding opened wire add_subscription
opened-IsStarted p env w c (err e, w') v h = h
opened-IsStarted p env w c (ok u, w') v h = (v, refl)

with_config-IsStarted :
    (p : Platform) (env : Env) (w : World) (r : Result LoadError Config)
    → load p env ≡ r
    → Ends p env (IsLoaded p env) r
    → IsStarted p env w (with_config p r w)
unfolding with_config
with_config-IsStarted p env w (err e) h v = (h, refl)
with_config-IsStarted p env w (ok c) h v = opened-IsStarted p env w c (migrate w) v refl

pub start_server-IsStarted :
    (p : Platform) (file : EnvFile) (env : Env) (w : World)
    → IsStarted p (load_env_file file env).1 w (start_server p file env w)
unfolding start_server
start_server-IsStarted p file env w =
    let env' = (load_env_file file env).1 in
    with_config-IsStarted p env' w (load p env') refl (load-Ends p env')
