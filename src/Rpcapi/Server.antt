-- ===== src/Rpcapi/Server.antt =====
-- internal/rpcapi/server.go: how the server ends, and the health page. net/http and the routing of
-- requests are left out; a failure of the listener or of the shutdown comes as a text.
use ff_eth_logs.Base.{ℕ, Bool, true, false, Option, none, some}
use ff_eth_logs.Base.Exec.{Result, ok, err}
use ff_eth_logs.Logstore.{Coverage, Database}
use ff_eth_logs.Logstore.Read.{Access, ReadError, maintenance, read_coverage, read}
use ff_eth_logs.Backfill.Manifest.{Text}

pub data ServerError : Type 0 where
  listener not_shut_down : Text → ServerError
  -- `ctx.Err()`.
  context_done : ServerError

-- What `Run` meets first: the listener ends, with `ErrServerClosed` or another error, or the context
-- does, and then the shutdown may fail.
pub data Ending : Type 0 where
  closed : Ending
  listener_failed : Text → Ending
  done : Option Text → Ending

-- `Server.Run`.
unfoldable pub run_server : Ending → Result ServerError (Unit {0})
run_server closed = ok tt
run_server (listener_failed e) = err (listener e)
run_server (done none) = err context_done
run_server (done (some e)) = err (not_shut_down e)

-- A response of the health page, whose fields are those of its JSON object, less its hint.
pub data Health : Type 0 where
  under_maintenance : Health
  error : ReadError → Health
  -- The head, the start, whether the warehouse is empty, and the chain.
  healthy : ℕ → ℕ → Bool → ℕ → Health

abbrev pub status_code : Health → ℕ
status_code under_maintenance = 503
status_code (error e) = 503
status_code (healthy head start is_empty chain_id) = 200

-- The page after the snapshot; a missing coverage is the zero value.
abbrev pub page : ℕ → Result ReadError (Option Coverage) → Health
page chain_id (ok none) = healthy 0 0 true chain_id
page chain_id (ok (some c)) = healthy c.head c.start false chain_id
page chain_id (err maintenance) = under_maintenance
page chain_id (err e) = error e

-- `health`.
unfoldable pub health : ℕ → (Access → Bool) → Bool → Database → Health
unfolding read read_coverage
health chain_id faults locked db =
    page chain_id (read faults locked (λ e. e) (λ snapshot. read_coverage faults snapshot) db)
