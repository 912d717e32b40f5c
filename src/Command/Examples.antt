-- ===== src/Command/Examples.antt =====
-- A backfill and a rewind from the command line, next to no writer and next to another, and instances.
use ff_eth_logs.Base.{
  ◌≡◌, refl, Bool, true, false, List, [], ◌∷◌, none, some, arith, any, add64, sub64,
}
use ff_eth_logs.Base.Exec.{ok, err}
use ff_eth_logs.Base.Text.{codes}
use ff_eth_logs.Logger.{Logging, initialize, flush, error}
use ff_eth_logs.Config.{defaults}
use ff_eth_logs.Config.Examples.{deployed}
use ff_eth_logs.Eventset.Examples.{real_keccak256}
use ff_eth_logs.Chain.Pagination.Examples.{capped}
use ff_eth_logs.Logstore.Write.{publish_body}
use ff_eth_logs.Logstore.Locks.{
  Key, writer_lock_key, maintenance_lock_key, acquire_locks, OthersKept,
}
use ff_eth_logs.Logstore.Locks.Examples.{two_locks, two_locks_laws}
use ff_eth_logs.Backfill.Manifest.{Text}
use ff_eth_logs.Backfill.Checks.{parts_from}
use ff_eth_logs.Backfill.Loader.{prepare, load_logs, load_blocks, finish}
use ff_eth_logs.Backfill.Examples.{export, new_site, two_blocks, new_site-Stands}
use ff_eth_logs.Rpcapi.Server.{closed}
use ff_eth_logs.Command.{CommandError, to_required, dir_required}
use ff_eth_logs.Command.Outside.{Outside, Host}
use ff_eth_logs.Command.Process.{run, exit}
use ff_eth_logs.Command.Unlocked.{run-Unlocked}
use ff_eth_logs.Command.Exclusive.{Excludes, run-Undisturbed}
use ff_eth_logs.Command.Lasts.{IsUsable, HasRoom}
use ff_eth_logs.Command.Launches.{Launches, unused, launched, Launches-Served}
use ff_eth_logs.Logstore.Read.{ReadError, read}
use ff_eth_logs.Logstore.Write.Covered.{IsCovered}
use ff_eth_logs.Command.Reports.{SetUp, Reported, exit-Reported}

abbrev undashed : Text → Text
undashed [] = []
undashed (c ∷ cs) = cs

-- A flag and its value, again and again.
abbrev in_pairs : List Text → List (Text × Text) × Bool
in_pairs [] = ([], true)
in_pairs (a ∷ []) = ([], false)
in_pairs (a ∷ b ∷ rest) =
    let (pairs, readable) = in_pairs rest in ((undashed a, b) ∷ pairs, readable)

abbrev outside : Outside
outside = record {
  flags = λ c args. in_pairs args;
  read_settings = λ config_file env_path. some deployed;
  declines = λ p. false;
  opens = true;
  tries = 3;
  export = λ dir. export;
  stage_faults = λ stage st. false;
  stage_store_faults = λ stage st. false;
  store_faults = λ n st. false;
  read_faults = λ n a. false;
  dial = ok tt;
  events = [];
  server_ends = closed;
  server_first = false;
  is_canceled = λ e. false;
}

abbrev no_log : Logging CommandError
no_log = record { log = none; client = false; stderr = []; lines = []; queued = []; delivered = [] }

abbrev alone : Host capped two_locks
alone = record {
  site = new_site;
  locks = record { writer = none; maintenance = none };
  logging = no_log;
  provider = 0;
  calls = 0;
}

-- A service, session 1, holds the writer lock.
abbrev beside : Host capped two_locks
beside = record alone { locks = record { writer = some 1; maintenance = none } }

abbrev backfill_line : List Text
backfill_line = codes "backfill" ∷ codes "-dir" ∷ codes "export" ∷ []

backfill_publishes :
    (run real_keccak256 capped two_locks 2 outside backfill_line alone).1.site.database.cursor
    ≡ some (record { start = 5; head = 6 })
unfolding run defaults acquire_locks prepare add64 sub64 load_logs parts_from any load_blocks finish
    publish_body
backfill_publishes = refl

backfill_frees :
    (run real_keccak256 capped two_locks 2 outside backfill_line alone).1.locks ≡ alone.locks
unfolding run defaults acquire_locks prepare add64 sub64 load_logs parts_from any load_blocks finish
    publish_body
backfill_frees = refl

rewind_wants_to :
    (run real_keccak256 capped two_locks 2 outside (codes "rewind" ∷ []) alone).1.logging.lines
    ≡ to_required ∷ []
unfolding run defaults error flush
rewind_wants_to = refl

alone_free : (k : Key) → ¬ two_locks_laws.Holds k 2 alone.locks
unfolding two_locks_laws
alone_free writer_lock_key h = cc h
alone_free maintenance_lock_key h = cc h

two_locks_excludes : Excludes two_locks 2 two_locks_laws
unfolding two_locks_laws
two_locks_excludes writer_lock_key t a other h = ground (arith, other, h)
two_locks_excludes maintenance_lock_key t a other h = ground (arith, other, h)

service-Holds : two_locks_laws.Holds writer_lock_key 1 beside.locks
unfolding two_locks_laws
service-Holds = refl

run-Unlocked_example :
    ((k : Key)
      → ¬ two_locks_laws.Holds k 2
          (run real_keccak256 capped two_locks 2 outside backfill_line alone).1.locks)
    × OthersKept two_locks two_locks_laws 2 alone.locks
        (run real_keccak256 capped two_locks 2 outside backfill_line alone).1.locks
run-Unlocked_example =
    run-Unlocked real_keccak256 capped two_locks 2 outside two_locks_laws backfill_line alone
      alone_free

run-Undisturbed_example :
    ((run real_keccak256 capped two_locks 2 outside backfill_line beside).1.site ≡ beside.site)
    × two_locks_laws.Holds writer_lock_key 1
        (run real_keccak256 capped two_locks 2 outside backfill_line beside).1.locks
run-Undisturbed_example =
    run-Undisturbed real_keccak256 capped two_locks 2 outside two_locks_laws backfill_line beside 1
      two_locks_excludes (omega arith) service-Holds

-- Sentry was set up, and an event waits for it.
abbrev attached : Logging CommandError
attached = record no_log { log = some true; client = true; queued = dir_required ∷ [] }

attached-SetUp : SetUp outside.declines true attached
unfolding initialize
attached-SetUp = record {
  before = no_log;
  unbuilt = (refl, refl);
  same_log = refl;
  same_client = refl;
}

exit-Reported_example :
    ((exit real_keccak256 capped two_locks 2 outside (err to_required) attached).0 ≡ 1)
    × Reported to_required attached
        (exit real_keccak256 capped two_locks 2 outside (err to_required) attached).1
exit-Reported_example =
    exit-Reported real_keccak256 capped two_locks 2 outside true attached to_required attached-SetUp
      refl

outside-IsUsable : IsUsable capped outside
unfolding defaults
outside-IsUsable = record {
  numbers = λ n s h e. ground (arith, e);
  latest = λ p n e. ground (arith, e);
  low = tt;
  bounded = λ cfg was_read. (ground (arith, was_read.2), ground (arith, was_read.2));
}

alone-HasRoom : HasRoom alone.site
alone-HasRoom c e = absurd (cc e)

backfilled :
    Launches real_keccak256 capped two_locks two_blocks alone
      (run real_keccak256 capped two_locks 2 outside backfill_line alone).1
backfilled = launched 2 outside backfill_line unused outside-IsUsable (λ dir. refl) alone-HasRoom

served_range :
    read {E = ReadError}
      (λ a. false)
      false
      (λ e. e)
      (λ db. ok db.cursor)
      (run real_keccak256 capped two_locks 2 outside backfill_line alone).1.site.database
    ≡ ok (some (record { start = 5; head = 6 }))
unfolding run defaults acquire_locks prepare add64 sub64 load_logs parts_from any load_blocks finish
    publish_body read
served_range = refl

Launches-Served_example :
    IsCovered (run real_keccak256 capped two_locks 2 outside backfill_line alone).1.site.database
Launches-Served_example =
    Launches-Served real_keccak256 capped two_locks two_blocks alone
      (run real_keccak256 capped two_locks 2 outside backfill_line alone).1 (λ a. false) false
      (λ e. e) (λ db. ok db.cursor) (some (record { start = 5; head = 6 })) (omega arith)
      new_site-Stands backfilled served_range
