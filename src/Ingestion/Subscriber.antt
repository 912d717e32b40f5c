-- ===== src/Ingestion/Subscriber.antt =====
-- internal/ingestion/subscriber.go: heads are recorded, reconciled with the provider's canonical
-- chain and turned into ranges to write; a reorganisation below what is written is rewound. A
-- `Subscriber` acts on a `World`: the provider, the sink and its own position. The loops over heights
-- recur on the height; `record` recurs on fuel. Log messages and the texts of errors are left out.
use ff_eth_logs.Base.{ℕ, zero, suc, ◌-◌, List, Option, none, some, ltb, ◌==◌, if◌then◌else◌}
use ff_eth_logs.Base.Exec.{Exec, Result, ok, err, pure, raise, ◌>>=◌, ◌>>◌}
use ff_eth_logs.Eventset.{Hash}
use ff_eth_logs.Chain.{BlockHead, RpcError, EthClient}
use ff_eth_logs.Ingestion.Fetcher.{FetchError}
use ff_eth_logs.Ingestion.Sink.{Sink}
use ff_eth_logs.Ingestion.Stream.{StreamState, restart}

-- `Config`; a timeout of 0 is none.
pub record Config : Type 0 where
  pub max_catchup_blocks : ℕ
  pub confirmation_blocks : ℕ
  pub head_timeout : ℕ

pub data IngestError (E : Type 0) : Type 0 where
  provider : RpcError → IngestError E
  sink : E → IngestError E
  fetch : FetchError → IngestError E
  -- `ErrCatchupTooLarge`, with the first block, the last and the bound.
  catchup_too_large : ℕ → ℕ → ℕ → IngestError E
  no_ancestor_within below_coverage : ℕ → IngestError E
  no_ancestor_above_genesis : IngestError E
  -- `deepReorgError` and `discontinuityError`, at a height.
  deep_reorg discontinuity : ℕ → IngestError E
  unstable_headers : ℕ → IngestError E
  unstable_blocks : List ℕ → IngestError E
  -- `errReplan`.
  replan : IngestError E
  cancelled subscription_failed heads_silent : IngestError E
  wrong_chain : ℕ → ℕ → IngestError E
  start_block_set : ℕ → IngestError E
  -- The fuel of the model has run out.
  out_of_rounds : IngestError E

abbrev pub max_bridge_walk : ℕ
max_bridge_walk = 64

abbrev pub max_fork_walk : ℕ
max_fork_walk = 1024

module _ (C : EthClient) (S : Sink) where
  pub record World : Type 0 where
    pub provider : C.State
    pub sink : S.State
    pub stream : StreamState

  abbrev pub Ingest : Type 0 → Type 0
  Ingest A = Exec World (IngestError S.Error) A

  abbrev pub of_provider : {A : Type 0} → Result RpcError A → Result (IngestError S.Error) A
  of_provider (ok a) = ok a
  of_provider (err e) = err (provider e)

  abbrev pub of_sink : {A : Type 0} → Result S.Error A → Result (IngestError S.Error) A
  of_sink (ok a) = ok a
  of_sink (err e) = err (sink e)

  -- The canonical head of a height.
  unfoldable pub head_by_number : ℕ → Ingest BlockHead
  head_by_number n w =
      let answer = C.head_by_number n w.provider in
      (of_provider answer.0, record w { provider = answer.1 })

  unfoldable pub stored_block_hash : ℕ → Ingest (Option Hash)
  stored_block_hash n w =
      let answer = S.stored_block_hash n w.sink in (of_sink answer.0, record w { sink = answer.1 })

  unfoldable pub rewind : ℕ → Ingest (Unit {0})
  rewind n w = let answer = S.rewind n w.sink in (of_sink answer.0, record w { sink = answer.1 })

  abbrev pub position : Ingest StreamState
  position w = (ok w.stream, w)

  abbrev pub change : (StreamState → StreamState) → Ingest (Unit {0})
  change f w = (ok tt, record w { stream = f w.stream })

  -- One round of `findForkPoint`, at height `n`: `lower` looks further down.
  abbrev pub fork_found : Hash → Ingest BlockHead → BlockHead → Ingest BlockHead
  fork_found stored lower canonical = if canonical.hash == stored then pure canonical else lower

  abbrev pub fork_at : ℕ → Ingest BlockHead → Option Hash → Ingest BlockHead
  fork_at n lower none = raise (below_coverage n)
  fork_at n lower (some stored) = head_by_number n >>= fork_found stored lower

  -- The loop of `findForkPoint`, from the height below `k` on.
  unfoldable pub fork_below : ℕ → ℕ → Ingest BlockHead
  unfolding head_by_number stored_block_hash
  fork_below height zero = raise no_ancestor_above_genesis
  fork_below height (suc n) =
      let lower = fork_below height n in
      if ltb max_fork_walk (height - n)
      then raise (no_ancestor_within height)
      else stored_block_hash n >>= fork_at n lower

  -- `findForkPoint`.
  unfoldable pub find_fork_point : ℕ → Ingest BlockHead
  unfolding fork_below
  find_fork_point height = fork_below height height

  -- `recoverDeepReorg`.
  unfoldable pub recover_deep_reorg : ℕ → Ingest (Unit {0})
  unfolding find_fork_point rewind restart
  recover_deep_reorg height = do
    ancestor ← find_fork_point height
    rewind ancestor.number
    change (restart ancestor)
