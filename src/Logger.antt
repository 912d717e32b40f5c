-- ===== src/Logger.antt =====
-- internal/logger/logger.go: the logger of the process and its events for Sentry. What zap and Sentry
-- decline to build is a parameter; a message is the error that it is about, and its fields and the
-- component are left out, and so is a flush that meets its time limit.
use ff_eth_logs.Base.{Bool, true, false, List, [], ◌∷◌, ◌++◌, Option, none, some, if◌then◌else◌}
use ff_eth_logs.Base.Exec.{Result, ok, err}

-- What `Initialize` builds.
pub data Part : Type 0 where
  base_logger sentry_client sentry_core : Part

-- `log` and `sentryClient`, with what was written where: `queued` events wait for Sentry. A built
-- logger is given by whether Sentry's core is attached to it.
pub record Logging (Message : Type 0) : Type 0 where
  pub log : Option Bool
  pub client : Bool
  pub stderr : List Message
  pub lines : List Message
  pub queued : List Message
  pub delivered : List Message

module _ {Message : Type 0} where
  -- `Initialized`.
  abbrev pub initialized : Logging Message → Bool
  initialized l = elim l.log [ some _ ↦ true | none ↦ false ]

  -- `Initialize`, given whether there is a DSN.
  unfoldable pub initialize :
      (Part → Bool) → Bool → Logging Message → Result Part (Unit {0}) × Logging Message
  initialize declines dsn l =
      if declines base_logger
      then (err base_logger, l)
      else if dsn
      then if declines sentry_client
        then (err sentry_client, record l { client = false })
        else if declines sentry_core
        then (err sentry_core, record l { client = true })
        else (ok tt, record l { log = some true; client = true })
      else (ok tt, record l { log = some false })

  -- `Flush`.
  unfoldable pub flush : Logging Message → Logging Message
  flush l = if l.client then record l { delivered = l.delivered ++ l.queued; queued = [] } else l

  abbrev written_to : Option Bool → Message → Logging Message → Logging Message
  written_to none m l = l
  written_to (some false) m l = record l { lines = l.lines ++ (m ∷ []) }
  written_to (some true) m l = record l {
    lines = l.lines ++ (m ∷ []);
    queued = l.queued ++ (m ∷ []);
  }

  -- `ErrorCtx`: before `Initialize` it goes nowhere.
  unfoldable pub error : Message → Logging Message → Logging Message
  error m l = written_to l.log m l
