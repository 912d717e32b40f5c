-- ===== src/Command/Outside.antt =====
-- cmd/ff-eth-logs: what a process meets outside the program, and the state that its commands change.
use ff_eth_logs.Base.{ℕ, Bool, true, false, List, [], ◌∷◌, Option}
use ff_eth_logs.Base.Exec.{Result, ok, err}
use ff_eth_logs.Base.Int.{ℤ, pos, negsuc}
use ff_eth_logs.Logger.{Logging, Part}
use ff_eth_logs.Config.{Settings}
use ff_eth_logs.Chain.{EthClient, RpcError}
use ff_eth_logs.Logstore.Write.{Statement, Faults}
use ff_eth_logs.Logstore.Read.{Access}
use ff_eth_logs.Logstore.Locks.{Advisory}
use ff_eth_logs.Backfill.Manifest.{Text, Export}
use ff_eth_logs.Backfill.Checks.{Step, Site}
use ff_eth_logs.Backfill.Stages.{Stage, prepare_stage, logs_stage, blocks_stage, finish_stage}
use ff_eth_logs.Ingestion.Subscriber.{IngestError, World}
use ff_eth_logs.Ingestion.Subscriber
use ff_eth_logs.Ingestion.Run.{Event}
use ff_eth_logs.Rpcapi.Server.{Ending}
use ff_eth_logs.Command.{Subcommand, CommandError}

-- What a process meets that is not of the program.
pub record Outside : Type 0 where
  -- The flags that are set, in order, and whether all of the arguments could be read as such.
  pub flags : Subcommand → List Text → List (Text × Text) × Bool
  -- The settings of a file and of the files of the environment.
  pub read_settings : Text → Text → Option Settings
  pub declines : Part → Bool
  pub opens : Bool
  -- The tries for a lock that its deadline leaves.
  pub tries : ℕ
  -- The export in a directory, and what fails in a stage.
  pub export : Text → Export
  pub stage_faults : Stage → Step → Bool
  pub stage_store_faults : Stage → Faults
  pub store_faults : ℕ → Statement → Bool
  pub read_faults : ℕ → Access → Bool
  pub dial : Result RpcError (Unit {0})
  pub events : List Event
  -- How the server ends, and whether before ingestion.
  pub server_ends : Ending
  pub server_first : Bool
  -- `errors.Is(err, context.Canceled)`.
  pub is_canceled : CommandError → Bool

-- A duration above 0, else 0.
abbrev pub duration : ℤ → ℕ
duration (pos n) = n
duration (negsuc n) = 0

abbrev pub subscriber_config : Settings → ff_eth_logs.Ingestion.Subscriber.Config
subscriber_config cfg = record {
  max_catchup_blocks = cfg.ethereum.max_catchup_blocks;
  confirmation_blocks = cfg.ethereum.confirmation_blocks;
  head_timeout = duration cfg.ethereum.head_timeout;
}

abbrev pub all_stages : List Stage
all_stages = prepare_stage ∷ logs_stage ∷ blocks_stage ∷ finish_stage ∷ []

-- `g.Wait()`: the error of the goroutine that fails first.
abbrev pub first_error :
    Bool
    → Result CommandError (Unit {0})
    → Result CommandError (Unit {0})
    → Result CommandError (Unit {0})
first_error true (err e) b = err e
first_error true (ok u) b = b
first_error false a (err e) = err e
first_error false a (ok u) = a

module _ (C : EthClient) (A : Advisory) where
  pub record Host : Type 0 where
    pub site : Site
    pub locks : A.State
    pub logging : Logging CommandError
    pub provider : C.State
    pub calls : ℕ
