-- ===== src/Ingestion/Warehouse/Examples.antt =====
-- An instance of what a batch leaves in the tables, over a provider of one chain.
use ff_eth_logs.Base.{ℕ, false, Bool, arith, refl}
use ff_eth_logs.Base.Ensures.{Outcome}
use ff_eth_logs.Eventset.Examples.{real_keccak256}
use ff_eth_logs.Logstore.Write.{Statement}
use ff_eth_logs.Logstore.Write.Covered.{no_rows}
use ff_eth_logs.Logstore.Read.{Access}
use ff_eth_logs.Ingestion.Subscriber.{Config, World}
use ff_eth_logs.Ingestion.Batch.{ingest_batch}
use ff_eth_logs.Ingestion.Run.{stream_from}
use ff_eth_logs.Ingestion.Fetcher.Examples.{crowded, two_each, two_each-IsChain, crowded-Provides}
use ff_eth_logs.Ingestion.Aligned.{Numbers, Stops}
use ff_eth_logs.Ingestion.Warehouse.{store}
use ff_eth_logs.Ingestion.Warehouse.Laws.{store_laws, store_laws-StandsAt, StandsAt}
use ff_eth_logs.Ingestion.Warehouse.Complete.{HoldsChain, ingest_batch-HoldsChain}

abbrev no_faults : ℕ → Statement → Bool
no_faults n st = false

abbrev no_read_faults : ℕ → Access → Bool
no_read_faults n a = false

abbrev config : Config
config = record { max_catchup_blocks = 100; confirmation_blocks = 2; head_timeout = 0 }

abbrev fresh : World crowded (store no_faults no_read_faults)
fresh = record {
  provider = 0;
  sink = record { database = no_rows; calls = 0 };
  stream = stream_from 11;
}

crowded-Numbers : Numbers crowded
crowded-Numbers n s h e = ground (arith, e)

fresh-StandsAt : StandsAt fresh.sink 11
fresh-StandsAt = (λ c e. absurd (cc e), tt)

ingest_batch-HoldsChain_example :
    Outcome
      (λ _ w. HoldsChain real_keccak256 two_each 11 13 w.sink.database)
      (Stops crowded (store no_faults no_read_faults) (store_laws no_faults no_read_faults))
      (ingest_batch real_keccak256 crowded (store no_faults no_read_faults) 0 11 13 fresh).0
      (ingest_batch real_keccak256 crowded (store no_faults no_read_faults) 0 11 13 fresh).1
ingest_batch-HoldsChain_example =
    ingest_batch-HoldsChain real_keccak256 crowded config 0 no_faults no_read_faults crowded-Numbers
      (omega arith) two_each two_each-IsChain crowded-Provides 11 13 fresh (omega arith)
      (omega arith)
      (
        (
          store_laws-StandsAt no_faults no_read_faults fresh.sink 11 fresh-StandsAt,
          (omega arith, omega arith),
          omega arith,
        ),
        refl,
      )
