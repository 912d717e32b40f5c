-- ===== src/Command/Reports.antt =====
-- cmd/ff-eth-logs: how the error that ends the process is told.
use ff_eth_logs.Base.{◌≡◌, Bool, true, false, [], ◌∷◌, ◌++◌, none, some, ℕ, refl, arith, String}
use ff_eth_logs.Base.Exec.{err}
use ff_eth_logs.Eventset.{Hash}
use ff_eth_logs.Chain.{EthClient}
use ff_eth_logs.Logger.{Logging, Part, initialize, flush, error}
use ff_eth_logs.Logstore.Locks.{Advisory}
use ff_eth_logs.Command.{CommandError}
use ff_eth_logs.Command.Outside.{Outside}
use ff_eth_logs.Command.Process.{exit}

-- Without a logger the error is on stderr; with one it is in the log, and with Sentry its event is
-- delivered, after those that waited.
pub record Reported (e : CommandError) (l l' : Logging CommandError) : Type 0 where
  pub unlogged : l.log ≡ none → l'.stderr ≡ l.stderr ++ (e ∷ [])
  pub logged : l.log ≡ some false → l'.lines ≡ l.lines ++ (e ∷ [])
  pub sent :
      l.log ≡ some true
      → (l'.lines ≡ l.lines ++ (e ∷ []))
        × (l'.delivered ≡ l.delivered ++ (l.queued ++ (e ∷ [])))
        × (l'.queued ≡ [])

-- `l` is a log to which lines may have been added since the logger was set up, or could not be.
pub record SetUp (declines : Part → Bool) (dsn : Bool) (l : Logging CommandError) : Type 0 where
  pub before : Logging CommandError
  pub unbuilt : (before.log ≡ none) × (before.client ≡ false)
  pub same_log : l.log ≡ (initialize declines dsn before).1.log
  pub same_client : l.client ≡ (initialize declines dsn before).1.client

module _ (keccak256 : String → Hash) (C : EthClient) (A : Advisory) (session : ℕ)
    (O : Outside) where
  attached :
      (dsn : Bool) (l : Logging CommandError)
      → SetUp O.declines dsn l
      → l.log ≡ some true
      → l.client ≡ true
  unfolding initialize
  attached dsn l s h = ground (arith, s.unbuilt, s.same_log, s.same_client)

  -- Whatever of the logger could be built when it was set up, once in a process: an error that ends a
  -- command, other than the cancellation of its context, makes the exit code 1 and is told. It
  -- is written to stderr where there is no logger, and to the log where there is one; with Sentry its
  -- event is delivered before the exit, after all that waited, and nothing is left waiting.
  pub exit-Reported :
      (dsn : Bool) (l : Logging CommandError) (e : CommandError)
      → SetUp O.declines dsn l
      → O.is_canceled e ≡ false
      → ((exit keccak256 C A session O (err e) l).0 ≡ 1)
        × Reported e l (exit keccak256 C A session O (err e) l).1
  unfolding exit flush error
  exit-Reported dsn l e s fatal = (
    rw fatal refl,
    record {
      unlogged = λ h. ground (arith, fatal);
      logged = λ h. ground (arith, fatal);
      sent = λ h.
          let on = attached dsn l s h in
          (
            ground (arith, fatal, h, on),
            ground (arith, fatal, h, on),
            ground (arith, fatal, h, on),
          );
    },
  )
