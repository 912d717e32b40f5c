-- ===== src/Chain/Pagination.antt =====
-- internal/chain/pagination.go: the adaptive walk over a block range. A loop recurs on fuel, which
-- `Pagination.Windows` and `Pagination.Ranges` show to suffice: `diverged` is never returned. Progress logs are left out,
-- and the deadline that a walk without one is given belongs to `ctx_err`.
pub mod Windows
pub mod Ranges
pub mod Complete
pub mod Examples
use ff_eth_logs.Base.{
  ℕ, zero, suc, ◌+◌, ◌-◌, ◌*◌, ◌/◌, ◌%◌, Bool, true, false, ◌&&◌, List, [], ◌∷◌, ◌++◌, Option, none,
  some, min, add64, sub64, u64_mod, ltb, leb, ◌==◌, if◌then◌else◌,
}
use ff_eth_logs.Base.Exec.{Result, ok, err, Exec}
use ff_eth_logs.Base.Loop.{Turn, stop, again, loop}
use ff_eth_logs.Eventset.{Hash}
use ff_eth_logs.Chain.{Log, RpcError, EthClient}
use ff_eth_logs.Chain.Errors.{is_block_range_cap_error, is_too_many_results_error}

pub data WalkError : Type 0 where
  -- `ctx.Err()`, with the logs of the windows that were complete.
  interrupted : List Log → WalkError
  rpc : RpcError → WalkError
  single_block_overflow : ℕ → RpcError → WalkError
  step_size_exhausted : ℕ → ℕ → RpcError → WalkError
  no_bounds : WalkError
  diverged : WalkError

abbrev pub default_step_size : ℕ
default_step_size = 1_000_000

-- `Paginator.initialStep`.
unfoldable pub initial_step : ℕ → ℕ
initial_step span_cap =
    if ltb 0 span_cap && ltb (add64 span_cap 1) default_step_size
    then add64 span_cap 1
    else default_step_size

-- `currentFrom`, `currentStepSize`, `maxStepSize` and `allLogs` of `walkWindow`.
pub record Position : Type 0 where
  pub from : ℕ
  pub step : ℕ
  pub max_step : ℕ
  pub logs : List Log

-- The last block of the window at a position.
unfoldable pub window_end : Position → ℕ → ℕ
window_end p to_block = min (sub64 (add64 p.from p.step) 1) to_block

-- The branches after `FilterLogs` failed; `stopped` is `ctx.Err() != nil`.
unfoldable pub rejected : Position → ℕ → RpcError → Bool → Turn WalkError (List Log × ℕ) Position
rejected p current_to e stopped =
    if stopped
    then stop (err (interrupted p.logs))
    else if is_too_many_results_error (some e)
    then if p.from == current_to
      then stop (err (single_block_overflow p.from e))
      else if p.step / 2 == 0
      then stop (err (step_size_exhausted p.from current_to e))
      else again (record p {
        step = p.step / 2;
        max_step = if is_block_range_cap_error (some e) then p.step / 2 else p.max_step;
      })
    else stop (err (rpc e))

-- The branch after `FilterLogs` answered.
unfoldable pub accepted : Position → ℕ → List Log → Position
accepted p current_to logs = record p {
  from = add64 current_to 1;
  step = min ((p.step * 2) % u64_mod) p.max_step;
  logs = p.logs ++ logs;
}

abbrev WindowTurn : Type 0
WindowTurn = Turn WalkError (List Log × ℕ) Position

module _ (C : EthClient) (topics : List (List Hash)) (to_block : ℕ) where
  -- `p.clock.Sleep` when the loop goes on after a rejection.
  abbrev pause : WindowTurn → C.State → WindowTurn × C.State
  pause (stop r) s = (stop r, s)
  pause (again p) s = (again p, C.sleep s)

  -- What follows the answer to a request for the window from `p` to `current_to`.
  abbrev judge : Position → ℕ → Result RpcError (List Log) → C.State → WindowTurn × C.State
  judge p current_to (ok logs) s = (again (accepted p current_to logs), s)
  judge p current_to (err e) s = pause (rejected p current_to e (C.ctx_err s).0) (C.ctx_err s).1

  -- One request and what follows it.
  unfoldable pub attempt : Position → C.State → WindowTurn × C.State
  unfolding window_end accepted rejected
  attempt p s =
      let current_to = window_end p to_block in
      let (answer, s') = C.filter_logs p.from current_to topics s in judge p current_to answer s'

  -- A round after `ctx.Err()` was read.
  abbrev checked : Position → Bool → C.State → WindowTurn × C.State
  checked p true s = (stop (err (interrupted p.logs)), s)
  checked p false s = attempt p s

  -- One round of `walkWindow`, the loop's condition first.
  unfoldable pub window_turn : Position → C.State → WindowTurn × C.State
  unfolding attempt
  window_turn p s =
      if leb p.from to_block
      then checked p (C.ctx_err s).0 (C.ctx_err s).1
      else (stop (ok (p.logs, p.max_step)), s)

  -- Enough rounds: each takes a window off the range or halves the step.
  unfoldable pub rounds : ℕ → ℕ → ℕ
  rounds from step = (suc to_block - from) * suc step + step + 1

  -- `walkWindow` from a block to `to_block`.
  unfoldable pub walk_window : ℕ → ℕ → Exec C.State WalkError (List Log × ℕ)
  unfolding rounds window_turn attempt
  walk_window from step =
      loop diverged window_turn (rounds from step)
        (record { from = from; step = step; max_step = step; logs = [] })

-- A walk that fails returns no logs beside the error.
abbrev pub no_logs : WalkError → WalkError
no_logs (interrupted logs) = interrupted []
no_logs (rpc e) = rpc e
no_logs (single_block_overflow n e) = single_block_overflow n e
no_logs (step_size_exhausted from current_to e) = step_size_exhausted from current_to e
no_logs no_bounds = no_bounds
no_logs diverged = diverged

-- `currentFrom`, `stepSize` and `allLogs` of `FilterLogs`.
pub record Range : Type 0 where
  pub from : ℕ
  pub step : ℕ
  pub logs : List Log

abbrev RangeTurn : Type 0
RangeTurn = Turn WalkError (List Log) Range

module _ (C : EthClient) (topics : List (List Hash)) (to_block : ℕ) where
  -- What follows the walk of the outer window from `p` to `current_to`.
  abbrev join : Range → ℕ → Result WalkError (List Log × ℕ) → C.State → RangeTurn × C.State
  join p current_to (ok (logs, capped)) s = (
    again (record { from = add64 current_to 1; step = min p.step capped; logs = p.logs ++ logs }),
    s,
  )
  join p current_to (err e) s =
      let (stopped, s') = C.ctx_err s in
      (stop (err (if stopped then interrupted p.logs else no_logs e)), s')

  -- The last block of the outer window.
  unfoldable pub outer_end : Range → ℕ
  outer_end p = min (sub64 (add64 p.from p.step) 1) to_block

  -- A round after `timeoutCtx.Err()` was read.
  abbrev window_checked : Range → Bool → C.State → RangeTurn × C.State
  window_checked p true s = (stop (err (interrupted p.logs)), s)
  window_checked p false s =
      let (found, s') = walk_window C topics (outer_end p) p.from p.step s in
      join p (outer_end p) found s'

  -- One round of `FilterLogs`, the loop's condition first.
  unfoldable pub range_turn : Range → C.State → RangeTurn × C.State
  range_turn p s =
      if leb p.from to_block
      then window_checked p (C.ctx_err s).0 (C.ctx_err s).1
      else (stop (ok p.logs), s)

-- `FilterLogs` with a span cap. A query without both bounds is refused.
unfoldable pub filter_logs :
    (C : EthClient) → ℕ → List (List Hash) → Option ℕ → Option ℕ → Exec C.State WalkError (List Log)
unfolding range_turn outer_end
filter_logs C span_cap topics none to_block s = (err no_bounds, s)
filter_logs C span_cap topics (some from) none s = (err no_bounds, s)
filter_logs C span_cap topics (some from) (some to_block) s =
    loop diverged (range_turn C topics to_block) (suc (suc to_block) - from)
      (record { from = from; step = initial_step span_cap; logs = [] }) s
