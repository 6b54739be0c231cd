-- ===== src/Config/Usable.antt =====
-- What Load reads from each provider.
use execgo.Base.{String, ◌≡◌, refl, ◌≢◌, false, eq_iff, arith, ℤ, pos, is_nonpos}
use execgo.Config.{
  Config, load, non_empty, FlagEnvProvider, positive_or, flag_get_string, flag_get_int,
  flag_provider,
}

abbrev pub IsPositive : ℤ → Type 0
IsPositive n = is_nonpos n ≡ false

-- Texts that are not empty, and numbers above 0.
pub record HasTexts (c : Config) : Type 0 where
  pub http_addr : c.http_addr ≢ ""
  pub grpc_addr : c.grpc_addr ≢ ""
  pub data_dir : c.data_dir ≢ ""

pub record IsUsable (c : Config) : Type 0 where
  pub texts : HasTexts c
  pub max_concurrency : IsPositive c.max_concurrency
  pub shutdown_timeout : IsPositive c.shutdown_timeout

non_empty_lem : (s d : String) → d ≢ "" → non_empty s d ≢ ""
unfolding non_empty
non_empty_lem s d n = ground (arith, eq_iff s "")

positive_or-IsPositive : (n d : ℤ) → IsPositive d → IsPositive (positive_or n d)
unfolding positive_or
positive_or-IsPositive n d p = ground arith

-- For whatever the flags and the environment hold: Load of a FlagEnvProvider gives addresses and
-- a data directory that are not empty, and a concurrency and a timeout above 0.
pub load-IsUsable : (p : FlagEnvProvider) → IsUsable (load (flag_provider p))
unfolding load flag_get_string flag_get_int
load-IsUsable p = record {
  texts = record {
    http_addr = non_empty_lem p.http_addr ":8080" (λ e. cc);
    grpc_addr = non_empty_lem p.grpc_addr ":50051" (λ e. cc);
    data_dir = non_empty_lem p.data_dir "data" (λ e. cc);
  };
  max_concurrency = positive_or-IsPositive p.max_concurrency (pos 10) refl;
  shutdown_timeout = positive_or-IsPositive p.shutdown_timeout (pos 15) refl;
}
