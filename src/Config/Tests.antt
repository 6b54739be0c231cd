-- ===== src/Config/Tests.antt =====
-- Load on a small environment.
use execgo.Base.{
  String, ◌≡◌, refl, Option, none, some, [], ◌∷◌, if◌then◌else◌, ◌==◌, ℤ, pos, negsuc,
}
use execgo.Config.{
  load, FlagEnvProvider, non_empty, positive_or, flag_get_string, flag_get_int, flag_provider,
  env_or_default, env_or_default_int, new_flag_env_provider, MapProvider, map_get_string,
  map_get_int, map_provider,
}
use execgo.Config.Usable.{IsUsable, load-IsUsable}

program : Unit {0}
unfolding load non_empty positive_or flag_get_string flag_get_int env_or_default env_or_default_int
    new_flag_env_provider map_get_string map_get_int
program = tt

-- EXECGO_ADDR=:9000 EXECGO_MAX_CONCURRENCY=20, and the flag -max-concurrency=-5.
abbrev environment : String → String
environment key =
    if key == "EXECGO_ADDR" then ":9000" else if key == "EXECGO_MAX_CONCURRENCY" then "20" else ""

abbrev atoi : String → Option ℤ
atoi s = if s == "20" then some (pos 20) else none

abbrev minus_five : String → Option ℤ
minus_five key = if key == "max-concurrency" then some (negsuc 4) else none

unfoldable started : FlagEnvProvider
started = new_flag_env_provider environment atoi (λ key. none) minus_five

-- A flag that is not positive gives the default, and not the environment's number.
load-started : load (flag_provider started) ≡ record {
  http_addr = ":9000";
  grpc_addr = ":50051";
  data_dir = "data";
  max_concurrency = pos 10;
  shutdown_timeout = pos 15;
}
unfolding program started
load-started = refl

load-IsUsable_example : IsUsable (load (flag_provider started))
load-IsUsable_example = load-IsUsable started

abbrev by_hand : MapProvider
by_hand = record { strings = ("data_dir", "") ∷ []; ints = ("max_concurrency", pos 0) ∷ [] }

-- The numbers of a map are taken as they are.
load-by_hand : (load (map_provider by_hand)).max_concurrency ≡ pos 0
unfolding program
load-by_hand = refl
