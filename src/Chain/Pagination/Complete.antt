-- ===== src/Chain/Pagination/Complete.antt =====
-- The walk against a provider that serves one chain: nothing is lost, doubled or reordered, and the
-- walk succeeds if the provider accepts windows of one block.
use ff_eth_logs.Base.{
  append_assoc, sym, u64_mod, ◌∙◌, ap, true, ℕ, zero, suc, ◌+◌, ◌-◌, ◌≤◌, ◌<◌, ◌≡◌, List, [], ◌++◌,
  some, arith,
}
use ff_eth_logs.Base.Exec.{Result, ok, err}
use ff_eth_logs.Chain.{RpcError, Hash, Log, EthClient}
use mathlib.Core.Path.{ap₂}
use ff_eth_logs.Chain.Errors.{is_too_many_results_error}
use ff_eth_logs.Chain.Pagination.{
  WalkError, interrupted, rpc, single_block_overflow, step_size_exhausted, no_bounds, diverged,
  default_step_size, filter_logs,
}
use ff_eth_logs.Chain.Pagination.Windows.{Cancelled, Failed, Covers}
use ff_eth_logs.Chain.Pagination.Ranges.{Fetched, filter_logs-Fetched}

-- The logs of `count` blocks from `first` on, where `at n` are the matching logs of block n.
unfoldable pub logs_of : (ℕ → List Log) → ℕ → ℕ → List Log
logs_of at first zero = []
logs_of at first (suc count) = at first ++ logs_of at (suc first) count

-- The logs of the blocks `from` to `to_block`.
unfoldable pub logs_between : (ℕ → List Log) → ℕ → ℕ → List Log
unfolding logs_of
logs_between at from to_block = logs_of at from (suc to_block - from)

pub logs_of-append :
    (at : ℕ → List Log) (first m n : ℕ)
    → logs_of at first (m + n) ≡ logs_of at first m ++ logs_of at (first + m) n
unfolding logs_of
logs_of-append at first zero n =
    let e : 0 + n ≡ n = omega arith in let e' : first + 0 ≡ first = omega arith in rw (e, e')
logs_of-append at first (suc m) n =
    let e : suc m + n ≡ suc (m + n) = omega arith in
    let e' : first + suc m ≡ suc first + m = omega arith in
    rw (e, e')
      (ap (◌++◌ (at first)) (logs_of-append at (suc first) m n) ∙ sym (append_assoc (at first) _ _))

module _ (C : EthClient) (topics : List (List Hash)) where
  -- No request fails but for being too big, and requests for one block do not fail.
  abbrev pub Splits : Type 0
  Splits =
      (from to_block : ℕ) (e : RpcError)
      → Failed C topics from to_block e
      → (is_too_many_results_error (some e) ≡ true) × (from < to_block)

module _ (C : EthClient) (topics : List (List Hash)) (at : ℕ → List Log) where
  -- Every answer is the logs of the blocks asked for, in order.
  abbrev pub Serves : Type 0
  Serves =
      (from to_block : ℕ) (s : C.State) (logs : List Log)
      → (C.filter_logs from to_block topics s).0 ≡ ok logs
      → logs ≡ logs_between at from to_block

  pub Covers-logs :
      Serves
      → (from end : ℕ) (logs : List Log) → Covers C topics from end logs
      → (from ≤ end) × (logs ≡ logs_of at from (end - from))
  unfolding logs_between
  Covers-logs serves from end logs Covers.start =
      let e : from - from ≡ 0 = omega arith in (omega arith, rw e)
  Covers-logs serves from end logs (Covers.window {mid} {last} {logs = before} {found} c h a e) =
      let ih = Covers-logs serves from mid before c in
      let e₁ : (mid - from) + (suc last - mid) ≡ suc last - from = omega (arith, ih.0) in
      let e₂ : from + (mid - from) ≡ mid = omega (arith, ih.0) in
      let joined = rw (e₁, e₂) at (logs_of-append at from (mid - from) (suc last - mid)) in
      (omega (arith, ih.0), e ∙ (ap₂ ◌++◌ ih.1 (serves mid last a.0 found a.1) ∙ sym joined))

  -- From a provider that serves one chain and refuses only requests for several blocks, and only
  -- for being too big, `FilterLogs` gets all the logs of the range, in order, if the context is
  -- not done before.
  pub filter_logs-logs_between :
      (span_cap from_block to_block : ℕ) (s : C.State)
      → Serves
      → Splits C topics
      → ¬ Cancelled C
      → from_block ≤ suc to_block
      → to_block + default_step_size < u64_mod
      → span_cap + 1 < u64_mod
      → (filter_logs C span_cap topics (some from_block) (some to_block) s).0
        ≡ ok (logs_between at from_block to_block)
  unfolding logs_between
  filter_logs-logs_between span_cap from_block to_block s serves splits live h to_bound cap_bound =
      go _ (filter_logs-Fetched C topics span_cap from_block to_block s h to_bound cap_bound)
    where
      go :
          (r : Result WalkError (List Log))
          → Fetched C topics from_block to_block r
          → r ≡ ok (logs_of at from_block (suc to_block - from_block))
      go (ok logs) f = ap ok (Covers-logs serves from_block (suc to_block) logs f).1
      go (err (interrupted logs)) f = absurd (live f.0)
      go (err (rpc e)) f = cc (f.0, (splits (f.1.0) (f.1.1) e f.1.2).0)
      go (err (single_block_overflow n e)) f = absurd (omega (arith, splits n n e f.3))
      go (err (step_size_exhausted a b e)) f = absurd f
      go (err no_bounds) f = absurd f
      go (err diverged) f = absurd f
