-- ===== src/Runelog.antt =====
-- runelog/runelog.go: how the logger is made.
use runetale.Common.{
  ℕ, String, ◌≡◌, refl, sym, ap, ◌≢◌, Bool, true, Option, none, some, List, [], ◌∷◌, arith, str_eq,
  if◌then◌else◌, Error, message, Outcome, ok, err, panic, Action, pure, ◌>>=◌, concat, Fallible,
  value, error, bound,
}

-- The levels of zap that a command can ask for.
pub data Level : Type 0 where
  debug_level info_level warn_level error_level : Level

-- The settings of lumberjack.Logger.
pub record Rotation : Type 0 where
  pub filename : String
  pub max_size : ℕ
  pub max_backups : ℕ
  pub max_age : ℕ
  pub compress : Bool

-- zap.Config, with the names of its encoder's keys.
pub record LoggerConfig : Type 0 where
  pub level : Level
  pub development : Bool
  pub encoding : String
  pub encoder_keys : List String
  pub output_paths : List String

-- zap over loggers `L`: `register_sink` is RegisterSink, whose error is not read, `build` is
-- Config.Build, and `replace_globals` is ReplaceGlobals.
pub record ZapCalls (L W : Type 0) : Type 0 where
  pub register_sink : String → Rotation → W → W
  pub build : LoggerConfig → W → Fallible L × W
  pub replace_globals : L → W → W
  pub named : L → String → L

-- The `switch` on the level's name.
unfoldable pub level_named : String → Option Level
level_named t =
    if str_eq t "debug"
    then some debug_level
    else if str_eq t "info"
    then some info_level
    else if str_eq t "warning"
    then some warn_level
    else if str_eq t "error"
    then some error_level
    else none

unfoldable pub rotation : String → Rotation
rotation log_file = record {
  filename = log_file;
  max_size = 1024;
  max_backups = 30;
  max_age = 90;
  compress = true;
}

unfoldable pub logger_config : Level → String → Bool → LoggerConfig
logger_config l log_file dev = record {
  level = l;
  development = dev;
  encoding = "console";
  encoder_keys = "ts" ∷ "level" ∷ "logger" ∷ "caller" ∷ "msg" ∷ "stacktrace" ∷ [];
  output_paths = concat "lumberjack:" log_file ∷ "stderr" ∷ [];
}

module _ {L W : Type 0} (zap : ZapCalls L W) where
  -- A failed Build panics.
  unfoldable pub after_build : Fallible L × W → Outcome L × W
  after_build (value l, w) = (ok l, zap.replace_globals l w)
  after_build (error e, w) = (panic, w)

  unfoldable pub with_level : Option Level → String → Bool → Action W L
  with_level none log_file dev w = (err (message "unknown log level %s"), w)
  with_level (some l) log_file dev w = after_build (
      zap.build (logger_config l log_file dev)
        (zap.register_sink "lumberjack" (rotation log_file) w))

  -- `initRunelog` and `NewRunelog`
  unfoldable pub init_runelog : String → String → Bool → Action W L
  init_runelog log_level log_file dev = with_level (level_named log_level) log_file dev

  unfoldable pub new_runelog : String → String → String → Bool → Action W L
  new_runelog name log_level log_file dev = do
    l ← init_runelog log_level log_file dev
    pure (zap.named l name)

  after_build-err :
      (name : String) (r : Fallible L × W) (e : Error) (w' : W)
      → bound (λ l. pure (zap.named l name)) (after_build r) ≢ (err e, w')
  unfolding after_build
  after_build-err name (value l, w) e w' h = absurd (ground (arith, ap (λ p. p.0) h))
  after_build-err name (error x, w) e w' h = absurd (ground (arith, ap (λ p. p.0) h))

  with_level-err :
      (name : String) (level : Option Level) (log_file : String) (dev : Bool) (w : W) (e : Error)
      (w' : W)
      → bound (λ l. pure (zap.named l name)) (with_level level log_file dev w) ≡ (err e, w')
      → (level ≡ none) × (w' ≡ w)
  unfolding with_level
  with_level-err name none log_file dev w e w' h = (refl, sym (ap (λ p. p.1) h))
  with_level-err name (some l) log_file dev w e w' h = absurd (after_build-err name _ e w' h)

  -- NewRunelog returns an error only for a level that the `switch` does not name, and then it has
  -- changed nothing. A Build that fails is no error: it panics.
  pub new_runelog-err :
      (name log_level log_file : String) (dev : Bool) (w : W) (e : Error) (w' : W)
      → new_runelog name log_level log_file dev w ≡ (err e, w')
      → (level_named log_level ≡ none) × (w' ≡ w)
  unfolding new_runelog init_runelog
  new_runelog-err name log_level log_file dev w e w' h =
      with_level-err name (level_named log_level) log_file dev w e w' h
