-- ===== src/Ingestion/Fetcher/Examples.antt =====
-- A provider of one chain whose block 12 has more logs than it answers with, a test of the fetch
-- around it, and instances.
use ff_eth_logs.Base.{
  ℕ, suc, ◌+◌, ◌-◌, ◌≡◌, refl, false, ◌&&◌, ◌||◌, List, [], ◌∷◌, none, some, arith, ltb, leb,
  if◌then◌else◌, add64, sub64, filter, elem,
}
use ff_eth_logs.Base.Exec.{ok, err}
use ff_eth_logs.Base.Ensures.{Outcome}
use ff_eth_logs.Base.Loop.{loop}
use ff_eth_logs.Base.Text.{codes}
use ff_eth_logs.Eventset.{topics, transfer}
use ff_eth_logs.Eventset.Examples.{real_keccak256}
use ff_eth_logs.Chain.{Log, RpcError, EthClient}
use ff_eth_logs.Chain.Errors.{is_too_many_results_error, is_block_range_cap_error, contains_any}
use ff_eth_logs.Chain.Pagination.{walk_window, initial_step}
use ff_eth_logs.Chain.Pagination.Complete.{logs_between}
use ff_eth_logs.Chain.Pagination.Examples.{sample_log}
use ff_eth_logs.Ingestion.Fetcher.{fetch_ingestion_logs, receipt_logs}
use ff_eth_logs.Ingestion.Fetcher.Chain.{IsChain, wanted_logs}
use ff_eth_logs.Chain.Client.{RawClient, real_eth_client}
use ff_eth_logs.Chain.Client.Examples.{three_tries, no_urls}
use ff_eth_logs.Ingestion.Aligned.{Numbers}
use ff_eth_logs.Ingestion.Provider.{IsNodeOf, real_eth_client-Provides}
use ff_eth_logs.Ingestion.Fetcher.Complete.{Provides, Refused, fetch_ingestion_logs-logs_between}

-- In each block a transfer and a log that no filter selects.
abbrev pub two_each : ℕ → List Log
two_each n =
    (record (sample_log n 0) { topics = transfer real_keccak256 ∷ 0 ∷ 5 ∷ 9 ∷ [] })
    ∷ sample_log n 1
    ∷ []

abbrev too_many : RpcError
too_many = record { code = none; message = codes "query returned more than 10000 results" }

abbrev pub crowded : EthClient
crowded = record {
  State = ℕ;
  filter_logs = λ from to_block _ s. (
    if leb from 12 && leb 12 to_block || ltb 2 (to_block - from)
        then err too_many
        else ok (logs_between (wanted_logs real_keccak256 two_each) from to_block),
    s + 1,
  );
  head_by_number =
      λ n s. (ok (record { number = n; hash = n + 1000; parent_hash = n + 999; timestamp = 0 }), s);
  block_receipts = λ n s. (ok (two_each n ∷ []), s);
  block_number = λ s. (ok 100, s);
  chain_id = λ s. (ok 1, s);
  subscribe_new_head = λ s. (ok tt, s);
  ctx_err = λ s. (false, s);
  sleep = λ s. s;
}

pub two_each-IsChain : IsChain two_each
two_each-IsChain = record {
  numbered = λ n. (refl, (refl, tt));
  in_order = λ n. ((ground arith, tt), (tt, tt));
}

pub crowded-Provides : Provides real_keccak256 crowded two_each
unfolding receipt_logs
crowded-Provides = record {
  filtered = λ from to_block s logs h. ground (arith, h);
  receipts_of = λ n s rs h. ground (arith, h);
}

-- The transfers of blocks 11 to 13, that of block 12 from its receipts.
fetch_around_12 :
    (fetch_ingestion_logs real_keccak256 crowded 0 5 11 13 0).0
    ≡ ok (logs_between (wanted_logs real_keccak256 two_each) 11 13)
unfolding fetch_ingestion_logs loop walk_window initial_step logs_between add64 sub64 receipt_logs
    topics elem filter real_keccak256 is_too_many_results_error contains_any
    is_block_range_cap_error
fetch_around_12 = refl

fetch_ingestion_logs-logs_between_example :
    Outcome
      (λ found _. found ≡ logs_between (wanted_logs real_keccak256 two_each) 10 25)
      (λ e _. Refused real_keccak256 crowded e)
      (fetch_ingestion_logs real_keccak256 crowded 0 (suc (suc 25) - 10) 10 25 0).0
      (fetch_ingestion_logs real_keccak256 crowded 0 (suc (suc 25) - 10) 10 25 0).1
fetch_ingestion_logs-logs_between_example =
    fetch_ingestion_logs-logs_between real_keccak256 crowded 0 two_each (omega arith)
      two_each-IsChain crowded-Provides 10 25 0 (omega arith) (omega arith)

-- A node of the chain, behind retries of three attempts.
abbrev node : RawClient
node = record {
  State = ℕ;
  subscribe = λ s. (ok tt, s + 1);
  filter_logs = λ from to_block topics s.
      (ok (logs_between (wanted_logs real_keccak256 two_each) from to_block), s + 1);
  block_by_number = λ n s. (
    ok (some (record { number = n; hash = n + 1000; parent_hash = n + 999; timestamp = 0 })),
    s + 1,
  );
  block_receipts = λ n s. (ok (two_each n ∷ []), s + 1);
  block_number = λ s. (ok 100, s + 1);
  chain_id = λ s. (ok 1, s + 1);
  ctx_err = λ s. (false, s);
  sleep = λ s. s;
  wait = λ s. s;
  call_timeout = codes "1m0s";
}

node-IsNodeOf : IsNodeOf real_keccak256 node two_each
unfolding receipt_logs
node-IsNodeOf = record {
  filtered = λ from to_block s logs h. ground (arith, h);
  receipts_of = λ n s rs h. ground (arith, h);
  numbered = λ n s h e. ground (arith, e);
}

real_eth_client-Provides_example :
    Provides real_keccak256 (real_eth_client node (three_tries node) no_urls) two_each
    × Numbers (real_eth_client node (three_tries node) no_urls)
real_eth_client-Provides_example =
    real_eth_client-Provides node (three_tries node) no_urls real_keccak256 two_each node-IsNodeOf
