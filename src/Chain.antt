-- ===== src/Chain.antt =====
-- internal/chain: what ingestion calls outside the program, and the data that it hands over.
-- go-ethereum's `types.Log` is given by the fields that the program reads or sets.
pub mod Client
pub mod Errors
pub mod Pagination
use ff_eth_logs.Base.{ℕ, Bool, Option, List}
use ff_eth_logs.Base.Exec.{Exec}
use ff_eth_logs.Base.Int.{ℤ}
use ff_eth_logs.Eventset.{Hash, Address}

pub record Log : Type 0 where
  pub address : Address
  pub topics : List Hash
  pub bytes : List ℕ
  pub block_number : ℕ
  pub tx_hash : Hash
  pub tx_index : ℕ
  pub block_hash : Hash
  pub block_timestamp : ℕ
  pub index : ℕ

pub record BlockHead : Type 0 where
  pub number : ℕ
  pub hash : Hash
  pub parent_hash : Hash
  pub timestamp : ℕ

-- An error of a provider: its text, and its JSON-RPC code if it carries one.
pub record RpcError : Type 0 where
  pub code : Option ℤ
  pub message : List ℕ

-- `EthClient`, with the context that a call runs under and the clock. An answer may depend on all that
-- was asked before, and may change from one call to the next. The heads of a subscription come as the
-- events of Ingestion.Run.
pub record EthClient : Type 1 where
  pub State : Type 0
  pub subscribe_new_head : Exec State RpcError (Unit {0})
  pub filter_logs : ℕ → ℕ → List (List Hash) → Exec State RpcError (List Log)
  pub head_by_number : ℕ → Exec State RpcError BlockHead
  pub block_receipts : ℕ → Exec State RpcError (List (List Log))
  pub block_number : Exec State RpcError ℕ
  pub chain_id : Exec State RpcError ℕ
  -- Whether `ctx.Err()` is set.
  pub ctx_err : State → Bool × State
  pub sleep : State → State
