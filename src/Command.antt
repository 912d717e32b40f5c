-- ===== src/Command.antt =====
-- cmd/ff-eth-logs: the subcommands, of which `rewind`, `backfill` and the ingestion of `serve` write, each
-- under the writer lock. What comes from outside the program is a record: the flags that Go's flag
-- package finds, the settings that viper reads, what fails, and what the group of goroutines of `serve`
-- meets first. Cancelling the other goroutine shows in the events that ingestion is given.
pub mod Outside
pub mod Process
pub mod Kept
pub mod Standing
pub mod Lasts
pub mod Launches
pub mod Unlocked
pub mod Exclusive
pub mod Reports
pub mod Examples
use ff_eth_logs.Base.{
  ℕ, zero, suc, ◌+◌, ◌-◌, ◌*◌, ◌≡◌, Bool, true, false, not, ◌&&◌, ◌||◌, List, [], ◌∷◌, Option, none,
  some, String, ltb, leb, ◌==◌, if◌then◌else◌, u64_mod,
}
use ff_eth_logs.Base.Exec.{Exec, Result, ok, err, pure, raise, continue, ◌>>=◌, ◌>>◌}
use ff_eth_logs.Base.Int.{ℤ, pos, negsuc}
use ff_eth_logs.Base.Text.{codes}
use ff_eth_logs.Logger.{Logging, Part, initialized, initialize, flush, error}
use ff_eth_logs.Config.{Settings, LoadError, load}
use ff_eth_logs.Eventset.{Hash}
use ff_eth_logs.Chain.{EthClient, RpcError}
use ff_eth_logs.Logstore.{Database}
use ff_eth_logs.Logstore.Write
use ff_eth_logs.Logstore.Write.{StoreError, Statement, Faults}
use ff_eth_logs.Logstore.Read.{Access}
use ff_eth_logs.Logstore.Locks.{
  Advisory, LockError, Locking, acquire_writer_lock, acquire_backfill_locks,
}
use ff_eth_logs.Backfill.Manifest.{Text, same_text, BackfillError, Export}
use ff_eth_logs.Backfill.Checks.{Step, Site}
use ff_eth_logs.Backfill.Stages.{
  Stage, prepare_stage, logs_stage, blocks_stage, finish_stage, Attempt, call,
}
use ff_eth_logs.Ingestion.Subscriber.{IngestError, World}
use ff_eth_logs.Ingestion.Subscriber
use ff_eth_logs.Ingestion.Sink.{Sink}
use ff_eth_logs.Ingestion.Warehouse.{Warehouse, WarehouseError, store}
use ff_eth_logs.Ingestion.Run
use ff_eth_logs.Ingestion.Run.{Event, stream_from}
use ff_eth_logs.Rpcapi.Server.{ServerError, Ending}
use ff_eth_logs.Rpcapi.Server

pub data Subcommand : Type 0 where
  serve backfill rewind : Subcommand

pub data CommandError : Type 0 where
  usage bad_block_number : CommandError
  settings : LoadError → CommandError
  no_logger : Part → CommandError
  to_required dir_required not_opened : CommandError
  locked : LockError → CommandError
  not_rewound : StoreError → CommandError
  unknown_stage : Text → CommandError
  stage_failed : Stage → BackfillError → CommandError
  not_dialled : RpcError → CommandError
  ingestion : IngestError WarehouseError → CommandError
  server : ServerError → CommandError

-- The variables that the flags set.
pub record Arguments : Type 0 where
  pub config_file : Text
  pub env_path : Text
  pub dir : Text
  pub stage : Text
  pub to_block : Option ℕ

abbrev pub no_arguments : Arguments
no_arguments = record {
  config_file = [];
  env_path = codes "config/";
  dir = [];
  stage = codes "all";
  to_block = none;
}

-- `strconv.ParseUint` of base 10 and 64 bits, with the value of the digits so far.
abbrev pub digits : ℕ → Text → Option ℕ
digits n [] = if ltb n u64_mod then some n else none
digits n (c ∷ cs) = if leb b'0' c && leb c b'9' then digits (n * 10 + (c - b'0')) cs else none

unfoldable pub parse_uint : Text → Option ℕ
parse_uint [] = none
parse_uint (c ∷ cs) = digits 0 (c ∷ cs)

-- What the flag `-to` does with its value.
abbrev pub with_to : Arguments → Option ℕ → Option Arguments
with_to a none = none
with_to a (some n) = some (record a { to_block = some n })

unfoldable pub set_flag : Arguments → Text → Text → Option Arguments
unfolding parse_uint same_text
set_flag a name value =
    if same_text name (codes "config")
    then some (record a { config_file = value })
    else if same_text name (codes "env")
    then some (record a { env_path = value })
    else if same_text name (codes "dir")
    then some (record a { dir = value })
    else if same_text name (codes "stage")
    then some (record a { stage = value })
    else if same_text name (codes "to")
    then with_to a (parse_uint value)
    else none

-- The flags in the order in which they are given; the end says whether the rest could be read.
unfoldable pub set_flags : Arguments → List (Text × Text) → Bool → Result CommandError Arguments
unfolding set_flag
set_flags a [] readable = if readable then ok a else err usage
set_flags a ((name, value) ∷ rest) readable = elim (set_flag a name value) [
  | none ↦ err bad_block_number
  | some b ↦ set_flags b rest readable
]

abbrev pub is_flag : Text → Bool
is_flag [] = true
is_flag (c ∷ cs) = c == b'-'

-- The subcommand's name and its arguments; without a name it is `serve`.
unfoldable pub split_command : List Text → Text × List Text
split_command [] = (codes "serve", [])
split_command (a ∷ rest) = if is_flag a then (codes "serve", a ∷ rest) else (a, rest)

unfoldable pub find_command : Text → Option Subcommand
unfolding same_text
find_command name =
    if same_text name (codes "serve")
    then some serve
    else if same_text name (codes "backfill")
    then some backfill
    else if same_text name (codes "rewind")
    then some rewind
    else none

unfoldable pub find_stage : Text → Option Stage
unfolding same_text
find_stage name =
    if same_text name (codes "prepare")
    then some prepare_stage
    else if same_text name (codes "logs")
    then some logs_stage
    else if same_text name (codes "blocks")
    then some blocks_stage
    else if same_text name (codes "finish")
    then some finish_stage
    else none
