-- ===== src/Ingestion/Provider.antt =====
-- internal/chain/client.go under internal/ingestion: what ingestion relies on of its provider, of the
-- client with retries.
use ff_eth_logs.Base.{ℕ, ◌≡◌, List, [], ◌∷◌, Option, none, some, String}
use ff_eth_logs.Base.Exec.{Result, ok, err}
use ff_eth_logs.Base.Ensures.{Outcome}
use ff_eth_logs.Eventset.{Hash, topics}
use ff_eth_logs.Chain.{Log, BlockHead}
use ff_eth_logs.Chain.Pagination.Complete.{logs_between}
use ff_eth_logs.Chain.Client.{
  CallError, RawClient, Backoff, Urls, Calls, to_rpc, execute_with_retry, method, found,
  real_eth_client,
}
use ff_eth_logs.Chain.Client.Retries.{Attempted, IsTold, execute_with_retry-IsTold}
use ff_eth_logs.Ingestion.Fetcher.{receipt_logs}
use ff_eth_logs.Ingestion.Fetcher.Chain.{wanted_logs}
use ff_eth_logs.Ingestion.Fetcher.Complete.{Provides}
use ff_eth_logs.Ingestion.Aligned.{Numbers}

-- Whenever the node answers, it answers with these blocks.
pub record IsNodeOf (keccak256 : String → Hash) (R : RawClient) (blocks : ℕ → List Log)
    : Type 0 where
  pub filtered :
      (from to_block : ℕ) (s : R.State) (logs : List Log)
      → (R.filter_logs from to_block (topics keccak256 ∷ []) s).0 ≡ ok logs
      → logs ≡ logs_between (wanted_logs keccak256 blocks) from to_block
  pub receipts_of :
      (n : ℕ) (s : R.State) (rs : List (List Log))
      → (R.block_receipts n s).0 ≡ ok rs
      → receipt_logs rs ≡ blocks n
  pub numbered :
      (n : ℕ) (s : R.State) (h : BlockHead) → (R.block_by_number n s).0 ≡ ok (some h) → h.number ≡ n

module _ (R : RawClient) (B : Backoff R) (U : Urls) where
  method-Attempted :
      {A : Type 0} (name : String) (op : Calls R B U A) (s : R.State) (a : A)
      → (method R B U name op s).0 ≡ ok a
      → Attempted R B U op (ok a)
  method-Attempted {A} name op s a e =
      after (execute_with_retry R B U name op s).0 (execute_with_retry R B U name op s).1 e
        (execute_with_retry-IsTold R B U op name s)
    where
      after :
          (r : Result CallError A) (t : R.State)
          → to_rpc r ≡ ok a
          → Outcome (λ a _. Attempted R B U op (ok a)) (λ e _. IsTold R B U op e) r t
          → Attempted R B U op (ok a)
      after (ok b) t e o = (o.0, cc (o.1, e))
      after (err x) t e o = absurd (cc e)

  found-some :
      (n : ℕ) (r : Result CallError (Option BlockHead) × R.State) (h : BlockHead)
      → (found R B U n r).0 ≡ ok h
      → r.0 ≡ ok (some h)
  found-some n (ok none, s) h e = absurd (cc e)
  found-some n (ok (some g), s) h e = cc e
  found-some n (err x, s) h e = absurd (cc e)

  -- Behind the client with retries, a node that answers with the blocks of one chain is the provider
  -- that ingestion relies on: its logs and its receipts are those of the chain, and a head has the
  -- height that it was asked for, however often and for whatever reason calls are tried again.
  pub real_eth_client-Provides :
      (keccak256 : String → Hash) (blocks : ℕ → List Log)
      → IsNodeOf keccak256 R blocks
      → Provides keccak256 (real_eth_client R B U) blocks × Numbers (real_eth_client R B U)
  real_eth_client-Provides keccak256 blocks is_node = (
    record {
      filtered = λ from to_block s logs e.
          let at =
            method-Attempted "FilterLogs" (R.filter_logs from to_block (topics keccak256 ∷ [])) s
              logs e in
          is_node.filtered from to_block at.0 logs at.1;
      receipts_of = λ n s rs e.
          let at = method-Attempted "BlockReceipts" (R.block_receipts n) s rs e in
          is_node.receipts_of n at.0 rs at.1;
    },
    λ n s h e.
        let at =
          method-Attempted "HeadByNumber" (λ t. found R B U n (R.block_by_number n t)) s h e in
        is_node.numbered n at.0 h (found-some n (R.block_by_number n at.0) h at.1),
  )
