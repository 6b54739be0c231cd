-- ===== src/Config.antt =====
-- pkg/config/config.go: the configuration and its two providers.
pub mod Usable
mod Tests
use execgo.Base.{String, Bool, not, Option, none, some, if◌then◌else◌, ◌==◌, ℤ, pos, is_nonpos}
use execgo.Base.Dict.{Dict, lookup}

pub record Config : Type 0 where
  pub http_addr : String
  pub grpc_addr : String
  pub data_dir : String
  pub max_concurrency : ℤ
  pub shutdown_timeout : ℤ

pub record Provider : Type 0 where
  pub get_string : String → String → String
  pub get_int : String → ℤ → ℤ

unfoldable pub load : Provider → Config
load p = record {
  http_addr = p.get_string "http_addr" ":8080";
  grpc_addr = p.get_string "grpc_addr" ":50051";
  data_dir = p.get_string "data_dir" "data";
  max_concurrency = p.get_int "max_concurrency" (pos 10);
  shutdown_timeout = p.get_int "shutdown_timeout" (pos 15);
}

unfoldable pub non_empty : String → String → String
non_empty s def = if not (s == "") then s else def

pub record FlagEnvProvider : Type 0 where
  pub http_addr : String
  pub grpc_addr : String
  pub data_dir : String
  pub max_concurrency : ℤ
  pub shutdown_timeout : ℤ

abbrev pub or_default {ℓ} : {A : Type ℓ} → Option A → A → A
or_default none d = d
or_default (some a) d = a

-- `if p.maxConcurrency > 0 { return p.maxConcurrency }`, and the return that follows.
unfoldable pub positive_or : ℤ → ℤ → ℤ
positive_or n def = if not (is_nonpos n) then n else def

unfoldable pub flag_get_string : FlagEnvProvider → String → String → String
flag_get_string p key def =
    if key == "http_addr"
    then non_empty p.http_addr def
    else if key == "grpc_addr"
    then non_empty p.grpc_addr def
    else if key == "data_dir"
    then non_empty p.data_dir def
    else def

unfoldable pub flag_get_int : FlagEnvProvider → String → ℤ → ℤ
flag_get_int p key def =
    if key == "max_concurrency"
    then positive_or p.max_concurrency def
    else if key == "shutdown_timeout"
    then positive_or p.shutdown_timeout def
    else def

-- `environment` is os.Getenv, `atoi` is strconv.Atoi where it returns no error, and `text_flag` and
-- `int_flag` are the flags that flag.Parse has found on the command line.
module _ (environment : String → String) (atoi : String → Option ℤ) where
  unfoldable pub env_or_default : String → String → String
  env_or_default key fallback = let v = environment key in if not (v == "") then v else fallback

  unfoldable pub env_or_default_int : String → ℤ → ℤ
  env_or_default_int key fallback =
      let v = environment key in if not (v == "") then or_default (atoi v) fallback else fallback

  module _ (text_flag : String → Option String) (int_flag : String → Option ℤ) where
    unfoldable pub new_flag_env_provider : FlagEnvProvider
    new_flag_env_provider = record {
      http_addr = or_default (text_flag "addr") (env_or_default "EXECGO_ADDR" ":8080");
      grpc_addr = or_default (text_flag "grpc-addr") (env_or_default "EXECGO_GRPC_ADDR" ":50051");
      data_dir = or_default (text_flag "data-dir") (env_or_default "EXECGO_DATA_DIR" "data");
      max_concurrency =
          or_default (int_flag "max-concurrency")
            (env_or_default_int "EXECGO_MAX_CONCURRENCY" (pos 10));
      shutdown_timeout =
          or_default (int_flag "shutdown-timeout")
            (env_or_default_int "EXECGO_SHUTDOWN_TIMEOUT" (pos 15));
    }

abbrev pub flag_provider : FlagEnvProvider → Provider
flag_provider p = record { get_string = flag_get_string p; get_int = flag_get_int p }

-- A nil map is an empty one here: both have no key.
pub record MapProvider : Type 0 where
  pub strings : Dict String
  pub ints : Dict ℤ

-- `if v, ok := m.Strings[key]; ok && v != "" { return v }`, and the return that follows.
abbrev pub text_or : Option String → String → String
text_or none def = def
text_or (some v) def = non_empty v def

unfoldable pub map_get_string : MapProvider → String → String → String
map_get_string m key def = text_or (lookup key m.strings) def

unfoldable pub map_get_int : MapProvider → String → ℤ → ℤ
map_get_int m key def = or_default (lookup key m.ints) def

abbrev pub map_provider : MapProvider → Provider
map_provider m = record { get_string = map_get_string m; get_int = map_get_int m }
