-- ===== src/Commands.antt =====
-- src/cmd/: the options of the command lines of the node, the sequencer and the prover, with their
-- defaults, and what they become. Clap's parsing and the environment are not modelled: an option is
-- what was parsed, and `default_options` is what no argument gives.
pub mod Node
pub mod Sequencer
pub mod Prover
use mojave.Base.{ℕ, String, Bool, true, false, Option, none, some, List, [], ◌∷◌, Result, ok, err}
use mojave.Utils.Network.{Network, mainnet}

pub data SyncMode : Type 0 where
  full snap : SyncMode

pub data Level : Type 0 where
  error warn info debug trace : Level

-- `NodeOptions` of crates/node/src/types.rs; `N` is ethrex's node.
pub record NodeOptions (N : Type 0) : Type 0 where
  pub network : Network
  pub bootnodes : List N
  pub syncmode : SyncMode
  pub sponsorable_addresses_file_path : Option String
  pub datadir : String
  pub force : Bool
  pub metrics_addr : String
  pub metrics_port : String
  pub metrics_enabled : Bool
  pub http_addr : Option String
  pub http_port : Option String
  pub authrpc_addr : Option String
  pub authrpc_port : Option String
  pub authrpc_jwtsecret : Option String
  pub p2p_enabled : Bool
  pub p2p_addr : String
  pub p2p_port : String
  pub discovery_addr : String
  pub discovery_port : String
  pub health_addr : String
  pub health_port : String

unfoldable pub default_node_options : {N : Type 0} → NodeOptions N
default_node_options = record {
  network = mainnet;
  bootnodes = [];
  syncmode = full;
  sponsorable_addresses_file_path = none;
  datadir = "";
  force = false;
  metrics_addr = "0.0.0.0";
  metrics_port = "";
  metrics_enabled = false;
  http_addr = none;
  http_port = none;
  authrpc_addr = none;
  authrpc_port = none;
  authrpc_jwtsecret = none;
  p2p_enabled = false;
  p2p_addr = "";
  p2p_port = "";
  discovery_addr = "";
  discovery_port = "";
  health_addr = "";
  health_port = "";
}

-- `syncmode.unwrap_or(SyncMode::Full)`
abbrev pub or_full : Option SyncMode → SyncMode
or_full none = full
or_full (some mode) = mode

-- the subcommands of the node and of the sequencer
pub data Command : Type 0 where
  stop get_pub_key : Command

module _ {F Signer W : Type 0} (stop_daemonized : String → W → Result F (Unit {0}) × W)
    (get_signer : String → W → Result F Signer × W) (join : String → String → String)
    (public_key : Signer → String) (println : String → W → W) where
  shown : Result F Signer × W → Result F (Unit {0}) × W
  shown (ok signer, world) = (ok tt, println (public_key signer) world)
  shown (err e, world) = (err e, world)

  -- `Command::run`, with the name of the pid file of the program
  unfoldable pub run_command : String → Command → String → W → Result F (Unit {0}) × W
  unfolding shown
  run_command pid_file_name stop datadir world = stop_daemonized (join datadir pid_file_name) world
  run_command pid_file_name get_pub_key datadir world = shown (get_signer datadir world)
