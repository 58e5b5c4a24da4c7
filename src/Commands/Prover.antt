-- ===== src/Commands/Prover.antt =====
-- src/cmd/prover/src/cli.rs: the options of a prover.
use mojave.Base.{ℕ, String, Bool, Option}
use mojave.Commands.{Level}

pub record ProverOptions : Type 0 where
  pub prover_port : ℕ
  pub prover_host : String
  pub queue_capacity : ℕ
  pub aligned_mode : Bool
  pub private_key : String
  pub no_daemon : Bool

-- no option given beside the private key, which has no default
unfoldable pub default_prover_options : String → ProverOptions
default_prover_options private_key = record {
  prover_port = 3900;
  prover_host = "0.0.0.0";
  queue_capacity = 100;
  aligned_mode = Bool.false;
  private_key = private_key;
  no_daemon = Bool.false;
}

pub data Command : Type 0 where
  start : ProverOptions → Command
  stop : Command

pub record Cli : Type 0 where
  pub log_level : Option Level
  pub datadir : String
  pub command : Command
