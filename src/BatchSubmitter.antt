-- ===== src/BatchSubmitter.antt =====
-- crates/batch-submitter/src/: the pair of bitcoin transactions that inscribes payloads (builder.rs),
-- and the committer, which passes on each batch (committer.rs). The bitcoin crate, the wallet behind
-- bitcoind, the queue and the network are parameters.
pub mod Scripts
pub mod Inscription
pub mod Committer
mod Tests
use mojave.Base.{String}

-- `F` stands for the errors of other crates that the variants wrap.
pub data Error (F : Type 0) : Type 0 where
  batch_notifier_error bitcoin_io_error bitcoin_rpc_error encode_error : F → Error F
  hex_to_array_error secp256k1_error sighash_taproot_error taproot_error : F → Error F
  push_bytes_error recv_error msgio_error bincode_error p2p_network_error : F → Error F
  internal : String → Error F
