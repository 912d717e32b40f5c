-- ===== src/Command/Process.antt =====
-- cmd/ff-eth-logs: what the subcommands do to the tables, the locks and the log. Each takes its locks on
-- a connection of its own, `session`, and gives them back however it ends.
use ff_eth_logs.Base.{
  ◌++◌, ℕ, Bool, true, false, List, [], ◌∷◌, Option, none, some, String, if◌then◌else◌,
}
use ff_eth_logs.Base.Exec.{Exec, Result, ok, err, pure, raise, ◌>>=◌, ◌>>◌}
use ff_eth_logs.Base.Text.{codes}
use ff_eth_logs.Logger.{Logging, Part, initialized, initialize, flush, error}
use ff_eth_logs.Config.{Settings, LoadError, load}
use ff_eth_logs.Eventset.{Hash}
use ff_eth_logs.Chain.{EthClient, RpcError}
use ff_eth_logs.Logstore.{Database}
use ff_eth_logs.Logstore.Write
use ff_eth_logs.Logstore.Write.{StoreError, Statement, Faults}
use ff_eth_logs.Logstore.Locks.{
  Advisory, LockError, Locking, acquire_writer_lock, acquire_backfill_locks,
}
use ff_eth_logs.Backfill.Manifest.{Text, same_text, BackfillError, Export, is_empty}
use ff_eth_logs.Backfill.Checks.{Site}
use ff_eth_logs.Backfill.Stages.{Stage, Attempt, call}
use ff_eth_logs.Ingestion.Subscriber.{IngestError, World}
use ff_eth_logs.Ingestion.Warehouse.{WarehouseError, store}
use ff_eth_logs.Ingestion.Run
use ff_eth_logs.Ingestion.Run.{Event, stream_from}
use ff_eth_logs.Rpcapi.Server.{ServerError, run_server}
use ff_eth_logs.Command.{
  Subcommand, serve, backfill, rewind, CommandError, settings, no_logger, to_required, dir_required,
  not_opened, locked, not_rewound, unknown_stage, stage_failed, not_dialled, ingestion, server,
  Arguments, no_arguments, set_flags, split_command, find_command, find_stage,
}
use ff_eth_logs.Command.Outside.{Outside, subscriber_config, all_stages, first_error, Host}

module _ (keccak256 : String → Hash) (C : EthClient) (A : Advisory) (session : ℕ)
    (O : Outside) where
  abbrev pub Process : Type 0 → Type 0
  Process X = Exec (Host C A) CommandError X

  -- `defer release()`.
  abbrev pub release :
      Result CommandError (Unit {0}) × Host C A → Result CommandError (Unit {0}) × Host C A
  release (r, h) = (r, record h { locks = A.unlock_all session h.locks })

  abbrev pub with_locks :
      Process (Unit {0})
      → Result LockError (Unit {0})
      → Host C A
      → Result CommandError (Unit {0}) × Host C A
  with_locks body (err e) h = (err (locked e), h)
  with_locks body (ok u) h = release (body h)

  -- The locks, the body if they are taken, and their release.
  unfoldable pub under : Locking A session → Process (Unit {0}) → Process (Unit {0})
  under acquire body h =
      with_locks body (acquire h.locks).0 (record h { locks = (acquire h.locks).1 })

  abbrev pub of_rewind :
      Host C A → Result StoreError (Unit {0}) × Database → Result CommandError (Unit {0}) × Host C A
  of_rewind h (ok u, db) = (ok tt, record h { site = record h.site { database = db } })
  of_rewind h (err e, db) =
      (err (not_rewound e), record h { site = record h.site { database = db } })

  abbrev pub rewinds : ℕ → Process (Unit {0})
  rewinds to_block h =
      of_rewind h
        (ff_eth_logs.Logstore.Write.rewind (O.store_faults h.calls) to_block h.site.database)

  abbrev pub opened : Process (Unit {0})
  opened = if O.opens then pure tt else raise not_opened

  abbrev pub rewind_to : Option ℕ → Process (Unit {0})
  rewind_to none = raise to_required
  rewind_to (some n) = opened >> under (acquire_writer_lock A session O.tries) (rewinds n)

  abbrev pub attempt_of : Stage → Attempt
  attempt_of stage = record {
    stage = stage;
    faults = O.stage_faults stage;
    store_faults = O.stage_store_faults stage;
  }

  abbrev pub of_stage :
      Stage
      → Host C A
      → Result BackfillError (Unit {0}) × Site
      → Result CommandError (Unit {0}) × Host C A
  of_stage stage h (ok u, s) = (ok tt, record h { site = s })
  of_stage stage h (err e, s) = (err (stage_failed stage e), record h { site = s })

  abbrev pub run_stage : Export → Stage → Process (Unit {0})
  run_stage E stage h = of_stage stage h (call E (attempt_of stage) stage h.site)

  unfoldable pub run_stages : Export → List Stage → Process (Unit {0})
  run_stages E [] = pure tt
  run_stages E (stage ∷ rest) = run_stage E stage >> run_stages E rest

  abbrev pub one_stage : Export → Text → Option Stage → Process (Unit {0})
  one_stage E name none = raise (unknown_stage name)
  one_stage E name (some stage) = run_stages E (stage ∷ [])

  abbrev pub stages_of : Export → Text → Process (Unit {0})
  stages_of E name =
      if same_text name (codes "all")
      then run_stages E all_stages
      else one_stage E name (find_stage name)

  abbrev pub backfill_from : Arguments → Process (Unit {0})
  backfill_from a =
      if is_empty a.dir
      then raise dir_required
      else opened
        >> under (acquire_backfill_locks A session O.tries) (stages_of (O.export a.dir) a.stage)

  abbrev pub world_of : Host C A → World C (store O.store_faults O.read_faults)
  world_of h = record {
    provider = h.provider;
    sink = record { database = h.site.database; calls = h.calls };
    stream = stream_from 0;
  }

  abbrev pub of_ingestion :
      Host C A
      → Result (IngestError WarehouseError) (Unit {0})
        × World C (store O.store_faults O.read_faults)
      → Result CommandError (Unit {0}) × Host C A
  of_ingestion h (ok u, w) = (
    ok tt,
    record h {
      site = record h.site { database = w.sink.database };
      provider = w.provider;
      calls = w.sink.calls;
    },
  )
  of_ingestion h (err e, w) = (
    err (ingestion e),
    record h {
      site = record h.site { database = w.sink.database };
      provider = w.provider;
      calls = w.sink.calls;
    },
  )

  abbrev pub ingests : Settings → Process (Unit {0})
  ingests cfg h = of_ingestion h (
      ff_eth_logs.Ingestion.Run.run keccak256 C (store O.store_faults O.read_faults)
        (subscriber_config cfg) cfg.ethereum.get_logs_span_cap cfg.ethereum.chain_id
        cfg.ethereum.start_block O.events (world_of h))

  abbrev pub dialled : Result RpcError (Unit {0}) → Settings → Process (Unit {0})
  dialled (err e) cfg = raise (not_dialled e)
  dialled (ok u) cfg = ingests cfg

  -- `runIngestion`.
  unfoldable pub run_ingestion : Settings → Process (Unit {0})
  run_ingestion cfg = under (acquire_writer_lock A session O.tries) (dialled O.dial cfg)

  abbrev pub of_server : Result ServerError (Unit {0}) → Result CommandError (Unit {0})
  of_server (ok u) = ok tt
  of_server (err e) = err (server e)

  -- The server alone, and beside ingestion.
  abbrev pub serves : Process (Unit {0})
  serves h = (of_server (run_server O.server_ends), h)

  abbrev pub serves_and_ingests : Settings → Process (Unit {0})
  serves_and_ingests cfg h = (
    first_error O.server_first (of_server (run_server O.server_ends)) (run_ingestion cfg h).0,
    (run_ingestion cfg h).1,
  )

  -- The group of goroutines of `runServe`.
  abbrev pub serving : Settings → Process (Unit {0})
  serving cfg = if cfg.ethereum.ingestion_enabled then serves_and_ingests cfg else serves

  abbrev pub parsed : Result CommandError Arguments → Process Arguments
  parsed r h = (r, h)

  abbrev pub loaded : Result LoadError Settings → Process Settings
  loaded (ok cfg) h = (ok cfg, h)
  loaded (err e) h = (err (settings e), h)

  abbrev pub of_logger :
      Host C A
      → Result Part (Unit {0}) × Logging CommandError
      → Result CommandError (Unit {0}) × Host C A
  of_logger h (ok u, l) = (ok tt, record h { logging = l })
  of_logger h (err p, l) = (err (no_logger p), record h { logging = l })

  abbrev pub has_dsn : Settings → Bool
  has_dsn cfg = elim cfg.sentry_dsn [ String.[] ↦ false | String.◌∷◌ c s ↦ true ]

  abbrev pub starts_logger : Settings → Process (Unit {0})
  starts_logger cfg h = of_logger h (initialize O.declines (has_dsn cfg) h.logging)

  -- `commonFlags`.
  unfoldable pub common_flags : Subcommand → List Text → Process (Arguments × Settings)
  unfolding set_flags load initialize
  common_flags c args = do
    a ← parsed (set_flags no_arguments (O.flags c args).0 (O.flags c args).1)
    cfg ← loaded (load (O.read_settings a.config_file a.env_path))
    starts_logger cfg
    pure (a, cfg)

  abbrev pub body_of : Subcommand → Arguments × Settings → Process (Unit {0})
  body_of serve (a, cfg) = opened >> serving cfg
  body_of backfill (a, cfg) = backfill_from a
  body_of rewind (a, cfg) = rewind_to a.to_block

  -- `runServe`, `runBackfill` and `runRewind`.
  unfoldable pub run_command : Subcommand → List Text → Process (Unit {0})
  unfolding common_flags under run_stages run_ingestion
  run_command c args = common_flags c args >>= body_of c

  abbrev pub fatal : CommandError → Logging CommandError → Logging CommandError
  fatal e l = if initialized l then error e l else record l { stderr = l.stderr ++ (e ∷ []) }

  -- `exit`: the code, and the log after its flush.
  unfoldable pub exit :
      Result CommandError (Unit {0}) → Logging CommandError → ℕ × Logging CommandError
  unfolding flush error
  exit (ok u) l = (0, flush l)
  exit (err e) l = if O.is_canceled e then (0, flush l) else (1, flush (fatal e l))

  abbrev pub exits : Result CommandError (Unit {0}) × Host C A → ℕ × Host C A
  exits (r, h) = ((exit r h.logging).0, record h { logging = (exit r h.logging).1 })

  abbrev pub dispatched : Option Subcommand → List Text → Host C A → ℕ × Host C A
  dispatched none args h = (2, h)
  dispatched (some c) args h = exits (run_command c args h)

  -- `run` of the command, with its arguments.
  unfoldable pub run : List Text → Host C A → ℕ × Host C A
  unfolding split_command find_command run_command exit
  run args = dispatched (find_command (split_command args).0) (split_command args).1
