-- ===== src/Commands/Sequencer.antt =====
-- src/cmd/sequencer/src/cli.rs: the options of a sequencer.
use mojave.Base.{ℕ, String, Bool, true, false, Option, none, some, List, []}
use mojave.Utils.Network.{Network, default_net}
use mojave.Commands.{SyncMode, full, Level, NodeOptions, or_full}

pub record Options (N : Type 0) : Type 0 where
  pub log_level : Option Level
  pub datadir : String
  pub health_port : String
  pub health_addr : String
  pub network : Network
  pub bootnodes : List N
  pub syncmode : Option SyncMode
  pub sponsorable_addresses_file_path : Option String
  pub force : Bool
  pub metrics_addr : String
  pub metrics_port : String
  pub metrics_enabled : Bool
  pub p2p_enabled : Bool
  pub p2p_addr : String
  pub p2p_port : String
  pub discovery_addr : String
  pub discovery_port : String
  pub no_daemon : Bool

-- no option given
unfoldable pub default_options : {N : Type 0} → Options N
default_options = record {
  log_level = none;
  datadir = ".mojave/sequencer";
  health_port = "9595";
  health_addr = "0.0.0.0";
  network = default_net;
  bootnodes = [];
  syncmode = some full;
  sponsorable_addresses_file_path = none;
  force = false;
  metrics_addr = "0.0.0.0";
  metrics_port = "9090";
  metrics_enabled = false;
  p2p_enabled = true;
  p2p_addr = "0.0.0.0";
  p2p_port = "30303";
  discovery_addr = "0.0.0.0";
  discovery_port = "30303";
  no_daemon = false;
}

unfoldable pub node_options : {N : Type 0} → Options N → NodeOptions N
node_options options = record {
  http_addr = none;
  http_port = none;
  authrpc_addr = none;
  authrpc_port = none;
  authrpc_jwtsecret = none;
  p2p_enabled = options.p2p_enabled;
  p2p_addr = options.p2p_addr;
  p2p_port = options.p2p_port;
  discovery_addr = options.discovery_addr;
  discovery_port = options.discovery_port;
  network = options.network;
  bootnodes = options.bootnodes;
  datadir = options.datadir;
  syncmode = or_full options.syncmode;
  sponsorable_addresses_file_path = options.sponsorable_addresses_file_path;
  metrics_addr = options.metrics_addr;
  metrics_port = options.metrics_port;
  metrics_enabled = options.metrics_enabled;
  force = options.force;
  health_addr = options.health_addr;
  health_port = options.health_port;
}

pub record SequencerOptions : Type 0 where
  pub prover_address : String
  pub block_time : ℕ
  pub private_key : String

unfoldable pub default_sequencer_options : SequencerOptions
default_sequencer_options = record {
  prover_address = "http://0.0.0.0:3900";
  block_time = 1000;
  private_key = "0xabc";
}

pub record BlockProducerOptions : Type 0 where
  pub block_time : ℕ
  pub private_key : String

pub record ProofCoordinatorOptions : Type 0 where
  pub prover_address : String

unfoldable pub block_producer_options : SequencerOptions → BlockProducerOptions
block_producer_options value = record {
  block_time = value.block_time;
  private_key = value.private_key;
}

unfoldable pub proof_coordinator_options : SequencerOptions → ProofCoordinatorOptions
proof_coordinator_options value = record { prover_address = value.prover_address }
