-- ===== src/Ingestion/Fetcher.antt =====
-- internal/ingestion/fetcher.go: the logs of a range of blocks, with the blocks that the provider
-- cannot serve through eth_getLogs read from their receipts. The recursion runs on fuel.
pub mod Total
pub mod Chain
pub mod Complete
pub mod Examples
use ff_eth_logs.Base.{
  none, false, ℕ, zero, suc, ◌+◌, ◌-◌, ◌≡◌, Bool, true, List, [], ◌∷◌, ◌++◌, Option, some, String,
  filter, elem, ltb, if◌then◌else◌, add64, sub64,
}
use ff_eth_logs.Base.Sort.{sort_by}
use ff_eth_logs.Base.Exec.{Result, ok, err, Exec, pure, ◌>>=◌}
use ff_eth_logs.Eventset.{Hash, topics}
use ff_eth_logs.Chain.{Log, RpcError, EthClient}
use ff_eth_logs.Chain.Pagination.{WalkError, filter_logs, single_block_overflow}
use ff_eth_logs.Logstore.Read.Rows.{log_before}

pub data FetchError : Type 0 where
  walk : WalkError → FetchError
  receipts : ℕ → RpcError → FetchError
  too_deep : FetchError

-- The logs of a block's receipts, in order.
unfoldable pub receipt_logs : List (List Log) → List Log
receipt_logs [] = []
receipt_logs (r ∷ rs) = r ++ receipt_logs rs

abbrev pub is_wanted : List Hash → List Hash → Bool
is_wanted wanted [] = false
is_wanted wanted (topic0 ∷ rest) = elem topic0 wanted

-- `sort.SliceStable`.
abbrev pub sorted : Result FetchError (List Log) → Result FetchError (List Log)
sorted (ok logs) = ok (sort_by log_before logs)
sorted (err e) = err e

module _ (keccak256 : String → Hash) (C : EthClient) (span_cap : ℕ) where
  abbrev pub Fetch : Type 0
  Fetch = C.State → Result FetchError (List Log) × C.State

  abbrev pub selected : ℕ → Result RpcError (List (List Log)) → Result FetchError (List Log)
  selected n (err e) = err (receipts n e)
  selected n (ok rs) = ok (filter (λ l. is_wanted (topics keccak256) l.topics) (receipt_logs rs))

  -- `denseBlockLogs`.
  unfoldable pub dense_block_logs : ℕ → Fetch
  unfolding topics elem filter receipt_logs
  dense_block_logs n s = (selected n (C.block_receipts n s).0, (C.block_receipts n s).1)

  -- What becomes of the walk: a block that overflows alone is fetched around.
  abbrev pub settle : Result WalkError (List Log) → (ℕ → Fetch) → Fetch
  settle (ok logs) around s = (ok (sort_by log_before logs), s)
  settle (err (single_block_overflow n e)) around s = (sorted (around n s).0, (around n s).1)
  settle (err e) around s = (err (walk e), s)

  -- `fetchAroundDenseBlock`, given the fetch of a smaller range.
  unfoldable pub fetch_around : (ℕ → ℕ → Fetch) → ℕ → ℕ → ℕ → Fetch
  unfolding dense_block_logs
  fetch_around fetch from to_block dense = do
    left ← if ltb from dense then fetch from (sub64 dense 1) else pure []
    mid ← dense_block_logs dense
    right ← if ltb dense to_block then fetch (add64 dense 1) to_block else pure []
    pure (left ++ (mid ++ right))

  -- `FetchIngestionLogs`.
  unfoldable pub fetch_ingestion_logs : ℕ → ℕ → ℕ → Fetch
  unfolding fetch_around filter_logs sort_by
  fetch_ingestion_logs zero from to_block s = (err too_deep, s)
  fetch_ingestion_logs (suc fuel) from to_block s =
      let walked = filter_logs C span_cap (topics keccak256 ∷ []) (some from) (some to_block) s in
      settle walked.0 (fetch_around (fetch_ingestion_logs fuel) from to_block) walked.1
