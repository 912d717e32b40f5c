-- ===== src/Chain/Pagination/Examples.antt =====
-- A provider that serves windows of at most three blocks, tests of the walk, and instances.
use ff_eth_logs.Base.{
  if◌then◌else◌, ℕ, ◌+◌, ◌-◌, ◌≡◌, refl, true, false, List, [], ◌∷◌, none, some, arith, ltb,
}
use ff_eth_logs.Base.Exec.{ok, err}
use ff_eth_logs.Base.Text.{codes}
use ff_eth_logs.Chain.{Log, RpcError, EthClient}
use ff_eth_logs.Chain.Errors.{is_too_many_results_error, contains_any}
use ff_eth_logs.Chain.Pagination.{filter_logs}
use ff_eth_logs.Chain.Pagination.Windows.{Cancelled}
use ff_eth_logs.Chain.Pagination.Ranges.{Fetched, filter_logs-Fetched}
use ff_eth_logs.Chain.Pagination.Complete.{Serves, Splits, logs_between, filter_logs-logs_between}

abbrev pub sample_log : ℕ → ℕ → Log
sample_log n i = record {
  address = 7;
  topics = [];
  bytes = [];
  block_number = n;
  tx_hash = 1;
  tx_index = 0;
  block_hash = n + 1000;
  block_timestamp = 0;
  index = i;
}

abbrev pub one_each : ℕ → List Log
one_each n = sample_log n 0 ∷ []

abbrev too_big : RpcError
too_big = record { code = none; message = codes "Query returned MORE than 10000 results" }

abbrev pub capped : EthClient
capped = record {
  State = ℕ;
  filter_logs = λ from to_block _ s. (
    if ltb (to_block - from) 3 then ok (logs_between one_each from to_block) else err too_big,
    s + 1,
  );
  head_by_number =
      λ n s. (ok (record { number = n; hash = n + 1000; parent_hash = n + 999; timestamp = 0 }), s);
  block_receipts = λ n s. (ok (one_each n ∷ []), s);
  block_number = λ s. (ok 100, s);
  chain_id = λ s. (ok 1, s);
  subscribe_new_head = λ s. (ok tt, s);
  ctx_err = λ s. (false, s);
  sleep = λ s. s;
}

too_big_splits : is_too_many_results_error (some too_big) ≡ true
unfolding is_too_many_results_error contains_any
too_big_splits = refl

capped-Serves : Serves capped [] one_each
capped-Serves from to_block s logs h = ground arith

capped-Splits : Splits capped []
capped-Splits from to_block e f = ground (arith, f.1, too_big_splits)

capped-live : ¬ Cancelled capped
capped-live c = cc c.1

filter_logs-Fetched_example :
    Fetched capped [] 10 25 (filter_logs capped 0 [] (some 10) (some 25) 0).0
filter_logs-Fetched_example =
    filter_logs-Fetched capped [] 0 10 25 0 (omega arith) (omega arith) (omega arith)

filter_logs-logs_between_example :
    (filter_logs capped 0 [] (some 10) (some 25) 0).0 ≡ ok (logs_between one_each 10 25)
filter_logs-logs_between_example =
    filter_logs-logs_between capped [] one_each 0 10 25 0 capped-Serves capped-Splits capped-live
      (omega arith) (omega arith) (omega arith)
