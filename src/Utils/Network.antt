-- ===== src/Utils/Network.antt =====
-- crates/utils/src/network.rs. Files, sockets and the resolution of names are parameters; a path is its
-- text.
use mojave.Base.{
  String, Option, none, some, List, [], ◌∷◌, Result, ok, err, map_err, ok_or, ◌>>=◌, ◌==◌,
  string_key, if◌then◌else◌,
}

abbrev pub testnet_genesis_path : String
testnet_genesis_path = "data/testnet-genesis.json"

abbrev pub testnet_bootnodes_path : String
testnet_bootnodes_path = "cmd/mojave/networks/testnet/bootnodes.json"

abbrev pub mainnet_genesis_path : String
mainnet_genesis_path = "cmd/mojave/networks/mainnet/genesis.json"

abbrev pub mainnet_bootnodes_path : String
mainnet_bootnodes_path = "cmd/mojave/networks/mainnet/bootnodes.json"

-- `NetworkError`, in which `F` stands for the errors of input and output
pub data Error (F : Type 0) : Type 0 where
  custom : String → Error F
  io : F → Error F

pub data Network : Type 0 where
  default_net mainnet testnet : Network
  genesis_path : String → Network

unfoldable pub from_str : String → Network
from_str s =
    if s == "default"
    then default_net
    else if s == "mainnet"
    then mainnet
    else if s == "testnet"
    then testnet
    else genesis_path s

-- `Display`; `quoted` is the debug form of a path
unfoldable pub to_string : (String → String) → Network → String
to_string quoted default_net = "default"
to_string quoted mainnet = "mainnet"
to_string quoted testnet = "testnet"
to_string quoted (genesis_path path) = quoted path

-- The default network has no path: `none` is the panic.
unfoldable pub get_genesis_path : Network → Option String
get_genesis_path default_net = none
get_genesis_path mainnet = some mainnet_genesis_path
get_genesis_path testnet = some testnet_genesis_path
get_genesis_path (genesis_path path) = some path

-- `default` and `read` are ethrex's
unfoldable pub get_genesis :
    {F Genesis : Type 0} → Genesis → (String → Result F Genesis) → Network → Result F Genesis
get_genesis default read default_net = ok default
get_genesis default read mainnet = read mainnet_genesis_path
get_genesis default read testnet = read testnet_genesis_path
get_genesis default read (genesis_path path) = read path

-- A file that cannot be opened or parsed holds no nodes.
unfoldable pub read_bootnodes :
    {F Node File : Type 0}
    → (String → Result F File)
    → (File → Result F (List Node))
    → String
    → List Node
read_bootnodes open_file from_reader path = elim (open_file path) [
  | err e ↦ []
  | ok file ↦ elim (from_reader file) [ err e ↦ [] | ok nodes ↦ nodes ]
]

unfoldable pub get_bootnodes :
    {F Node File : Type 0}
    → (String → Result F File)
    → (File → Result F (List Node))
    → Network
    → List Node
get_bootnodes open_file from_reader mainnet =
    read_bootnodes open_file from_reader mainnet_bootnodes_path
get_bootnodes open_file from_reader testnet =
    read_bootnodes open_file from_reader testnet_bootnodes_path
get_bootnodes open_file from_reader default_net = []
get_bootnodes open_file from_reader (genesis_path path) = []

-- What the operating system answers to an attempt to bind.
pub data Bind (F : Type 0) : Type 0 where
  bound : Bind F
  addr_in_use : Bind F
  failed : F → Bind F

module _ {F SocketAddr : Type 0} (lookup_host : String → Result F (List SocketAddr))
    (host_port : String → String → String) (unresolved : String → String → String) where
  abbrev first : List SocketAddr → Option SocketAddr
  first [] = none
  first (a ∷ addrs) = some a

  unfoldable pub parse_socket_addr : String → String → Result (Error F) SocketAddr
  parse_socket_addr addr port = do
    addrs ← map_err io (lookup_host (host_port addr port))
    ok_or (first addrs) (custom (unresolved addr port))

  abbrev pub get_http_socket_addr : String → String → Result (Error F) SocketAddr
  get_http_socket_addr http_addr http_port = parse_socket_addr http_addr http_port

  abbrev pub get_authrpc_socket_addr : String → String → Result (Error F) SocketAddr
  get_authrpc_socket_addr authrpc_addr authrpc_port = parse_socket_addr authrpc_addr authrpc_port

  available : String → Bind F → Result (Error F) (Unit {0})
  available in_use bound = ok tt
  available in_use addr_in_use = err (custom in_use)
  available in_use (failed e) = err (io e)

  -- `ensure_tcp_port_available`, by the TCP bind
  unfoldable pub ensure_tcp_port_available :
      (SocketAddr → Bind F) → (SocketAddr → String) → String → String → Result (Error F) (Unit {0})
  unfolding available
  ensure_tcp_port_available bind in_use addr port = do
    socket_addr ← parse_socket_addr addr port
    available (in_use socket_addr) (bind socket_addr)

  -- `ensure_udp_port_available`, by the UDP bind
  unfoldable pub ensure_udp_port_available :
      (SocketAddr → Bind F) → (SocketAddr → String) → String → String → Result (Error F) (Unit {0})
  unfolding available
  ensure_udp_port_available bind in_use addr port = do
    socket_addr ← parse_socket_addr addr port
    available (in_use socket_addr) (bind socket_addr)
