-- ===== src/Commands/Node.antt =====
-- src/cmd/node/src/cli.rs: the options of a full node, and its boot nodes by name. Within `from_str` a
-- text is the list of its character codes.
use mojave.Base.{
  ℕ, String, Bool, true, false, Option, none, some, List, [], ◌∷◌, ◌++◌, eqb, if◌then◌else◌, Result,
  ok, err, ◌>>=◌,
}
use mojave.Utils.Network.{Network, default_net}
use mojave.Commands.{SyncMode, Level, NodeOptions, or_full}

-- `DNSNode` is the node that it holds.
pub record Options (N : Type 0) : Type 0 where
  pub log_level : Option Level
  pub datadir : String
  pub health_port : String
  pub health_addr : String
  pub network : Network
  pub bootnodes : List N
  pub syncmode : Option SyncMode
  pub sponsorable_addresses_file_path : Option String
  pub force : Bool
  pub metrics_addr : String
  pub metrics_port : String
  pub metrics_enabled : Bool
  pub http_addr : String
  pub http_port : String
  pub authrpc_addr : String
  pub authrpc_port : String
  pub authrpc_jwtsecret : String
  pub p2p_enabled : Bool
  pub p2p_addr : String
  pub p2p_port : String
  pub discovery_addr : String
  pub discovery_port : String
  pub no_daemon : Bool

-- no option given
unfoldable pub default_options : {N : Type 0} → Options N
default_options = record {
  log_level = none;
  datadir = ".mojave/node";
  health_port = "9595";
  health_addr = "0.0.0.0";
  network = default_net;
  bootnodes = [];
  syncmode = none;
  sponsorable_addresses_file_path = none;
  force = false;
  metrics_addr = "0.0.0.0";
  metrics_port = "9090";
  metrics_enabled = false;
  http_addr = "0.0.0.0";
  http_port = "8545";
  authrpc_addr = "localhost";
  authrpc_port = "8551";
  authrpc_jwtsecret = "jwt.hex";
  p2p_enabled = true;
  p2p_addr = "0.0.0.0";
  p2p_port = "30303";
  discovery_addr = "0.0.0.0";
  discovery_port = "30303";
  no_daemon = false;
}

unfoldable pub node_options : {N : Type 0} → Options N → NodeOptions N
node_options options = record {
  http_addr = some options.http_addr;
  http_port = some options.http_port;
  authrpc_addr = some options.authrpc_addr;
  authrpc_port = some options.authrpc_port;
  authrpc_jwtsecret = some options.authrpc_jwtsecret;
  p2p_enabled = options.p2p_enabled;
  p2p_addr = options.p2p_addr;
  p2p_port = options.p2p_port;
  discovery_addr = options.discovery_addr;
  discovery_port = options.discovery_port;
  network = options.network;
  bootnodes = options.bootnodes;
  datadir = options.datadir;
  syncmode = or_full options.syncmode;
  sponsorable_addresses_file_path = options.sponsorable_addresses_file_path;
  metrics_addr = options.metrics_addr;
  metrics_port = options.metrics_port;
  metrics_enabled = options.metrics_enabled;
  force = options.force;
  health_addr = options.health_addr;
  health_port = options.health_port;
}

-- `find(c)`, with the text before the first `c` and the text from it on
unfoldable pub split_at : ℕ → List ℕ → Option (List ℕ × List ℕ)
split_at c [] = none
split_at c (x ∷ s) =
    let later = split_at c s in
    if eqb x c
    then some ([], x ∷ s)
    else elim later [ none ↦ none | some (before, after) ↦ some (x ∷ before, after) ]

-- the text to the first `c`, and the rest, which may be empty
abbrev pub cut : ℕ → List ℕ → List ℕ × List ℕ
cut c s = elim (split_at c s) [ none ↦ (s, []) | some (before, after) ↦ (before, after) ]

module _ {F N Addr : Type 0} (missing_at : F) (no_addresses : List ℕ → F)
    (to_socket_addrs : List ℕ → Result F (List Addr)) (show_addr : Addr → List ℕ)
    (node_from_str : List ℕ → Result F N) where
  first_of : List ℕ → List Addr → Result F (List ℕ)
  first_of addr [] = err (no_addresses addr)
  first_of addr (socket_addr ∷ more) = ok (show_addr socket_addr)

  unfoldable pub resolve_dns_host_port : List ℕ → Result F (List ℕ)
  unfolding first_of
  resolve_dns_host_port addr = do found ← to_socket_addrs addr; first_of addr found

  -- the text after the `@`, with its port and its options
  with_host : List ℕ → List ℕ → Result F N
  with_host name after_at = do
    resolved ← resolve_dns_host_port (cut 63 after_at).0
    node_from_str (name ++ resolved ++ (cut 63 after_at).1)

  at_host : Option (List ℕ × List ℕ) → Result F N
  unfolding with_host
  at_host none = err missing_at
  at_host (some (name, [])) = err missing_at
  at_host (some (name, at ∷ after_at)) = with_host (name ++ at ∷ []) after_at

  -- `DNSNode::from_str`
  unfoldable pub from_str : List ℕ → Result F N
  unfolding at_host
  from_str enode = at_host (split_at 64 enode)
