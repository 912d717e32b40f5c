-- ===== src/Command/Kept.antt =====
-- What every command keeps, or establishes from another property: one that the three writers, under
-- their locks, establish.
use ff_eth_logs.Base.{
  ℕ, ◌≡◌, Bool, true, false, List, Option, none, some, String, refl, if◌then◌else◌,
}
use ff_eth_logs.Base.Exec.{Result, ok, err, pure, raise, continue, ◌>>=◌, ◌>>◌}
use ff_eth_logs.Base.Ensures.{Outcome, Ensures, Ensures-bind, Ensures-pure}
use ff_eth_logs.Eventset.{Hash}
use ff_eth_logs.Chain.{EthClient}
use ff_eth_logs.Logger.{Logging, Part, initialize}
use ff_eth_logs.Config.{Settings, LoadError, ConfigError, load, validate, validated}
use ff_eth_logs.Backfill.Manifest.{Text, is_empty}
use ff_eth_logs.Logstore.Locks.{Advisory, acquire_writer_lock, acquire_backfill_locks}
use ff_eth_logs.Command.{
  dir_required, Subcommand, serve, backfill, rewind, CommandError, Arguments, find_command,
  split_command, no_arguments, set_flags,
}
use ff_eth_logs.Command.Outside.{Outside, Host}
use ff_eth_logs.Command.Process.{
  Process, under, rewinds, rewind_to, stages_of, run_ingestion, serving, common_flags, body_of,
  run_command, exit, run, dispatched, exits, of_logger, loaded, starts_logger, parsed, opened,
  serves, serves_and_ingests, has_dsn,
}

-- The settings come from some file and environment.
abbrev pub WasRead : Outside → Settings → Type 0
WasRead O cfg =
    (config_file : Text) × (env_path : Text) × (O.read_settings config_file env_path ≡ some cfg)

load_ok : (o : Option Settings) (cfg : Settings) → load o ≡ ok cfg → o ≡ some cfg
unfolding load
load_ok none cfg e = absurd (cc e)
load_ok (some given) cfg e = validated_ok (validate given) e
  where
    validated_ok : (o : Option ConfigError) → validated given o ≡ ok cfg → some given ≡ some cfg
    validated_ok none e = cc e
    validated_ok (some x) e = absurd (cc e)

module _ (keccak256 : String → Hash) (C : EthClient) (A : Advisory) (session : ℕ)
    (O : Outside) where
  abbrev pub Leads :
      {X : Type 0}
      → (Host C A → Type 0)
      → (Host C A → Type 0)
      → Process keccak256 C A session O X
      → Type 0
  Leads P Q m = (h : Host C A) → P h → Q (m h).1

  pub record Kept (P Q : Host C A → Type 0) : Type 0 where
    pub weakened : (h : Host C A) → P h → Q h
    pub logged : (h : Host C A) (l : Logging CommandError) → P h → P (record h { logging = l })
    pub logged_after :
        (h : Host C A) (l : Logging CommandError) → Q h → Q (record h { logging = l })
    pub rewinding :
        (n : ℕ)
        → Leads P Q (
            under keccak256 C A session O
              (acquire_writer_lock A session O.tries)
              (rewinds keccak256 C A session O n))
    pub backfilling :
        (dir stage : Text)
        → Leads P Q (
            under keccak256 C A session O
              (acquire_backfill_locks A session O.tries)
              (stages_of keccak256 C A session O (O.export dir) stage))
    pub ingesting :
        (cfg : Settings) → WasRead O cfg → Leads P Q (run_ingestion keccak256 C A session O cfg)

  bind-Leads :
      {X Y : Type 0} (P Q : Host C A → Type 0) (m : Process keccak256 C A session O X)
      (f : X → Process keccak256 C A session O Y)
      → ((h : Host C A) → P h → Q h)
      → Leads P P m
      → ((x : X) → Leads P Q (f x))
      → Leads P Q (m >>= f)
  bind-Leads {X = X} {Y = Y} P Q m f weaken a b h p = after (m h).0 (m h).1 (a h p)
    where
      after : (r : Result CommandError X) (h' : Host C A) → P h' → Q (continue r f h').1
      after (ok x) h' q = b x h' q
      after (err x) h' q = weaken h' q

  module _ (P Q : Host C A → Type 0) (kept : Kept P Q) where
    abbrev Keeps : {X : Type 0} → Process keccak256 C A session O X → Type 0
    Keeps m = Leads P P m

    abbrev Ends : {X : Type 0} → Process keccak256 C A session O X → Type 0
    Ends m = Leads P Q m

    bind-Keeps :
        {X Y : Type 0} (m : Process keccak256 C A session O X)
        (f : X → Process keccak256 C A session O Y)
        → Keeps m
        → ((x : X) → Keeps (f x))
        → Keeps (m >>= f)
    bind-Keeps m f = bind-Leads P P m f (λ h p. p)

    if-Keeps :
        {X : Type 0} (b : Bool) (m n : Process keccak256 C A session O X)
        → Keeps m
        → Keeps n
        → Keeps (if b then m else n)
    if-Keeps true m n a b = a
    if-Keeps false m n a b = b

    if-Ends :
        {X : Type 0} (b : Bool) (m n : Process keccak256 C A session O X)
        → Ends m
        → Ends n
        → Ends (if b then m else n)
    if-Ends true m n a b = a
    if-Ends false m n a b = b

    opened-Keeps : Keeps (opened keccak256 C A session O)
    opened-Keeps = if-Keeps O.opens (pure tt) _ (λ h p. p) (λ h p. p)

    serving-Ends : (cfg : Settings) → WasRead O cfg → Ends (serving keccak256 C A session O cfg)
    serving-Ends cfg was_read =
        if-Ends cfg.ethereum.ingestion_enabled (serves_and_ingests keccak256 C A session O cfg)
          (serves keccak256 C A session O) (kept.ingesting cfg was_read) kept.weakened

    -- The flags, the settings and the logger change nothing that counts.
    abbrev Prepares : {X : Type 0} → (X → Type 0) → Process keccak256 C A session O X → Type 0
    Prepares R m = Ensures P (λ x h. P h × R x) (λ e h. P h) m

    loaded-Prepares :
        (config_file env_path : Text)
        → Prepares
            (WasRead O)
            (loaded keccak256 C A session O (load (O.read_settings config_file env_path)))
    loaded-Prepares config_file env_path = record {
      at = λ h p. after h p (load (O.read_settings config_file env_path)) refl;
    }
      where
        after :
            (h : Host C A)
            → P h
            → (r : Result LoadError Settings) → load (O.read_settings config_file env_path) ≡ r
            → Outcome
                (λ cfg h. P h × WasRead O cfg)
                (λ e h. P h)
                (loaded keccak256 C A session O r h).0
                (loaded keccak256 C A session O r h).1
        after h p (ok cfg) e =
            (p, (config_file, env_path, load_ok (O.read_settings config_file env_path) cfg e))
        after h p (err x) e = p

    parsed-Prepares :
        (r : Result CommandError Arguments)
        → Ensures P (λ a h. P h) (λ e h. P h) (parsed keccak256 C A session O r)
    parsed-Prepares (ok a) = record { at = λ h p. p }
    parsed-Prepares (err e) = record { at = λ h p. p }

    starts_logger-Prepares :
        (cfg : Settings)
        → Ensures
            (λ h. P h × WasRead O cfg)
            (λ u h. P h × WasRead O cfg)
            (λ e h. P h)
            (starts_logger keccak256 C A session O cfg)
    starts_logger-Prepares cfg = record {
      at = λ h p. after h p (initialize O.declines (has_dsn keccak256 C A session O cfg) h.logging);
    }
      where
        after :
            (h : Host C A)
            → P h × WasRead O cfg
            → (r : Result Part (Unit {0}) × Logging CommandError)
            → Outcome
                (λ u h. P h × WasRead O cfg)
                (λ e h. P h)
                (of_logger keccak256 C A session O h r).0
                (of_logger keccak256 C A session O h r).1
        after h p (ok u, l) = (kept.logged h l p.0, p.1)
        after h p (err e, l) = kept.logged h l p.0

    common_flags-Prepares :
        (c : Subcommand) (args : List Text)
        → Prepares (λ a. WasRead O a.1) (common_flags keccak256 C A session O c args)
    unfolding common_flags
    common_flags-Prepares c args =
        Ensures-bind
          (parsed keccak256 C A session O
            (set_flags no_arguments (O.flags c args).0 (O.flags c args).1))
          (λ a. do
            cfg ← loaded keccak256 C A session O (load (O.read_settings a.config_file a.env_path))
            starts_logger keccak256 C A session O cfg
            pure (a, cfg))
          (parsed-Prepares (set_flags no_arguments (O.flags c args).0 (O.flags c args).1))
          (λ a.
            Ensures-bind
              (loaded keccak256 C A session O (load (O.read_settings a.config_file a.env_path)))
              (λ cfg. starts_logger keccak256 C A session O cfg >> pure (a, cfg))
              (loaded-Prepares a.config_file a.env_path)
              (λ cfg.
                Ensures-bind (starts_logger keccak256 C A session O cfg) (λ _. pure (a, cfg))
                  (starts_logger-Prepares cfg) (λ _. Ensures-pure (a, cfg) (λ h p. p))))

    after_opening :
        (m : Process keccak256 C A session O (Unit {0}))
        → Ends m
        → Ends (opened keccak256 C A session O >> m)
    after_opening m k =
        bind-Leads P Q (opened keccak256 C A session O) (λ _. m) kept.weakened opened-Keeps (λ _. k)

    rewind_to-Ends : (to_block : Option ℕ) → Ends (rewind_to keccak256 C A session O to_block)
    rewind_to-Ends none h p = kept.weakened h p
    rewind_to-Ends (some n) h p =
        after_opening
          (under keccak256 C A session O (acquire_writer_lock A session O.tries)
            (rewinds keccak256 C A session O n))
          (kept.rewinding n) h p

    body-Ends :
        (c : Subcommand) (a : Arguments × Settings)
        → WasRead O a.1
        → Ends (body_of keccak256 C A session O c a)
    body-Ends serve (a, cfg) was_read =
        after_opening (serving keccak256 C A session O cfg) (serving-Ends cfg was_read)
    body-Ends backfill (a, cfg) was_read =
        if-Ends (is_empty a.dir) (raise dir_required)
          (opened keccak256 C A session O
            >> under keccak256 C A session O (acquire_backfill_locks A session O.tries)
                (stages_of keccak256 C A session O (O.export a.dir) a.stage))
          kept.weakened
          (after_opening
            (under keccak256 C A session O (acquire_backfill_locks A session O.tries)
              (stages_of keccak256 C A session O (O.export a.dir) a.stage))
            (kept.backfilling a.dir a.stage))
    body-Ends rewind (a, cfg) was_read = rewind_to-Ends a.to_block

    exits_kept :
        (r : Result CommandError (Unit {0}) × Host C A)
        → Q r.1
        → Q (exits keccak256 C A session O r).1
    exits_kept (r, h) p = kept.logged_after h (exit keccak256 C A session O r h.logging).1 p

    after_flags :
        (c : Subcommand) (r : Result CommandError (Arguments × Settings)) (h : Host C A)
        → Outcome (λ a h. P h × WasRead O a.1) (λ e h. P h) r h
        → Q (continue r (body_of keccak256 C A session O c) h).1
    after_flags c (ok a) h o = body-Ends c a o.1 h o.0
    after_flags c (err e) h o = kept.weakened h o

    dispatched-Ends :
        (c : Option Subcommand) (args : List Text) (h : Host C A)
        → P h
        → Q (dispatched keccak256 C A session O c args h).1
    unfolding run_command
    dispatched-Ends none args h p = kept.weakened h p
    dispatched-Ends (some c) args h p = exits_kept (run_command keccak256 C A session O c args h) (
        after_flags c (common_flags keccak256 C A session O c args h).0
          (common_flags keccak256 C A session O c args h).1 ((common_flags-Prepares c args).at h p))

    pub run-Kept :
        (args : List Text) (h : Host C A) → P h → Q (run keccak256 C A session O args h).1
    unfolding run
    run-Kept args h p =
        dispatched-Ends (find_command (split_command args).0) (split_command args).1 h p
