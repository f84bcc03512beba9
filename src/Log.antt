-- ===== src/Log.antt =====
-- pkg/logger/logger.go: which logger is the global one, and what is written to it. zap is a parameter;
-- a logger is what has been written so far.
use evm_rpc.Prelude.{ℕ, Bool, Option, none, some, Text, text, text_eq, List, [], ◌∷◌, if◌then◌else◌}
use evm_rpc.Api.Error.{GoError, Result, ok, err, panic}

pub data Level : Type 0 where
  debug : Level
  info : Level
  warn : Level
  error : Level

-- The part of a `zap.Config` that is set, on the production or the development defaults.
pub record LogConfig : Type 0 where
  pub production : Bool
  pub level : Level
  pub output_paths : List Text

abbrev pub level_of : Text → Level
level_of level =
    if text_eq level (text "debug")
    then debug
    else if text_eq level (text "info")
    then info
    else if text_eq level (text "warn")
    then warn
    else if text_eq level (text "error")
    then error
    else info

abbrev pub config_of : Text → Text → Text → LogConfig
config_of level format output = record {
  production = text_eq format (text "json");
  level = level_of level;
  output_paths = if text_eq output (text "stdout") then text "stdout" ∷ [] else output ∷ [];
}

pub record Zap : Type 1 where
  pub Logger : Type 0
  pub build : LogConfig → Result Logger
  pub new_production : Logger
  pub sync : Logger → Logger
  pub write : Level → Text → Logger → Logger
  pub write_fatal : Text → Logger → Logger

module _ (zap : Zap) where
  open zap use {Logger}

  abbrev set_global : Result Logger → Option Logger → Option Logger × Option GoError
  set_global (ok logger) global = (some logger, none)
  set_global (err e) global = (global, some e)
  set_global panic global = (global, none)

  -- The global logger is kept where the new one cannot be built.
  unfoldable pub init_logger : Text → Text → Text → Option Logger → Option Logger × Option GoError
  init_logger level format output global =
      set_global (zap.build (config_of level format output)) global

  -- Without a logger a production one is made, and kept.
  unfoldable pub get_logger : Option Logger → Option Logger × Logger
  get_logger none = (some zap.new_production, zap.new_production)
  get_logger (some logger) = (some logger, logger)

  unfoldable pub sync : Option Logger → Option Logger
  sync none = none
  sync (some logger) = some (zap.sync logger)

  -- `Debug` to `Errorf`, each at its level: a message, formatted, goes to the global logger.
  unfoldable pub log_message : Level → Text → Option Logger → Option Logger
  unfolding get_logger
  log_message level msg global =
      let (_, logger) = get_logger global in some (zap.write level msg logger)

  -- `Fatal` and `Fatalf`: the message, and the exit status.
  unfoldable pub log_fatal : Text → Option Logger → Option Logger × ℕ
  unfolding get_logger
  log_fatal msg global =
      let (_, logger) = get_logger global in (some (zap.write_fatal msg logger), 1)
