-- ===== src/Rpcapi/Health.antt =====
-- internal/rpcapi/server.go: what the health page says of the warehouse, next to eth_blockNumber.
use ff_eth_logs.Base.{ℕ, ◌≡◌, Bool, true, false, inl, inr, arith, Option-cases}
use ff_eth_logs.Base.Exec.{Result, ok, err}
use ff_eth_logs.Logstore.{Database}
use ff_eth_logs.Logstore.Read.{Access, commit, read_coverage, read}
use ff_eth_logs.Rpcapi.{block_number, ApiError, scope, store, empty_warehouse, under_maintenance}
use ff_eth_logs.Rpcapi.Server.{Health, healthy, error, health}

-- What eth_blockNumber answers where the page says this.
abbrev pub number_of : Health → Result ApiError ℕ
number_of Health.under_maintenance = err (scope under_maintenance)
number_of (error e) = err (store e)
number_of (healthy head start true chain_id) = err (scope empty_warehouse)
number_of (healthy head start false chain_id) = ok head

-- The health page and eth_blockNumber agree, whatever the tables hold and whichever read fails: the page
-- is healthy with a head just where the method answers that head, healthy and empty where the method
-- refuses for an empty warehouse, under maintenance where the method says so, and an error where it
-- fails with that error. The commit of the snapshot does not fail.
pub health-block_number :
    (chain_id : ℕ) (faults : Access → Bool) (locked : Bool) (db : Database)
    → faults commit ≡ false
    → block_number faults locked db ≡ number_of (health chain_id faults locked db)
unfolding health block_number read read_coverage
health-block_number chain_id faults locked db h = elim (Option-cases db.cursor) [
  | inl e ↦ ground (arith, e, h)
  | inr (c, e) ↦ ground (arith, e, h)
]
