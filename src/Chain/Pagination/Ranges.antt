-- ===== src/Chain/Pagination/Ranges.antt =====
-- What `FilterLogs` returns, for any provider: the outer loop over the inner walk.
use ff_eth_logs.Base.{
  inr, leb→le, append_assoc, append-nil, inl, sym, Bool-cases, leb, ◌++◌, if◌then◌else◌, true,
  false, some, Bool, sub64, arith, u64_mod, List, add64, ℕ, suc, ◌+◌, ◌-◌, ◌≤◌, ◌<◌, ◌≡◌, refl,
  subst,
}
use ff_eth_logs.Base.Exec.{Result, ok, err}
use ff_eth_logs.Base.Loop.{Turn, Round, loop_rule}
use ff_eth_logs.Chain.Pagination.{
  is_too_many_results_error, Log, Hash, EthClient, WalkError, interrupted, rpc,
  single_block_overflow, step_size_exhausted, no_bounds, diverged, default_step_size, initial_step,
  Range, outer_end, no_logs, join, window_checked, range_turn, filter_logs,
}
use ff_eth_logs.Chain.Pagination.Windows.{Cancelled, Failed, Covers, Walked, walk_window-Walked}

Covers-trans :
    (C : EthClient) (topics : List (List Hash)) (a b c : ℕ) (xs ys : List Log)
    → Covers C topics a b xs
    → Covers C topics b c ys
    → Covers C topics a c (xs ++ ys)
Covers-trans C topics a b c xs ys f Covers.start =
    subst (Covers C topics a b) (sym (append-nil xs)) f
Covers-trans C topics a b c xs ys f (Covers.window {mid} {last} {logs} {found} g h k e) =
    Covers.window (Covers-trans C topics a b mid xs logs f g) h k
      (rw e (sym (append_assoc xs logs found)))

-- The step is at least one block and at most the default, unless the configured cap wraps around.
pub initial_step_bounds :
    (span_cap : ℕ)
    → span_cap + 1 < u64_mod
    → (0 < initial_step span_cap) × (initial_step span_cap ≤ default_step_size)
unfolding initial_step add64
initial_step_bounds span_cap h = ground arith

module _ (C : EthClient) (topics : List (List Hash)) (from_block to_block : ℕ) where
  -- What `FilterLogs` may return.
  abbrev pub Fetched : Result WalkError (List Log) → Type 0
  Fetched (ok logs) = Covers C topics from_block (suc to_block) logs
  Fetched (err (interrupted logs)) =
      Cancelled C × ((end : ℕ) × (end ≤ suc to_block) × Covers C topics from_block end logs)
  Fetched (err (rpc e)) =
      (is_too_many_results_error (some e) ≡ false)
      × ((first : ℕ) × (last : ℕ) × Failed C topics first last e)
  Fetched (err (single_block_overflow n e)) =
      (from_block ≤ n)
      × (n ≤ to_block)
      × (is_too_many_results_error (some e) ≡ true)
      × Failed C topics n n e
  Fetched (err (step_size_exhausted from current_to e)) = ⊥
  Fetched (err no_bounds) = ⊥
  Fetched (err diverged) = ⊥

  -- What holds before each round of `FilterLogs`.
  record InRange (p : Range) : Type 0 where
    above : from_block ≤ p.from
    below : p.from ≤ suc to_block
    step_pos : 0 < p.step
    step_le : p.step ≤ default_step_size
    covers : Covers C topics from_block p.from p.logs

  abbrev remaining : Range → ℕ
  remaining p = suc to_block - p.from

  abbrev RangeRound : Range → Turn WalkError (List Log) Range → C.State → Type 0
  RangeRound = Round (λ q _. InRange q) (λ r _. Fetched r) remaining

module _ (C : EthClient) (topics : List (List Hash)) (from_block to_block : ℕ)
    (to_bound : to_block + default_step_size < u64_mod) where
  outer_end_bounds :
      (p : Range)
      → InRange C topics from_block to_block p
      → p.from ≤ to_block
      → (p.from ≤ outer_end C topics to_block p)
        × (outer_end C topics to_block p ≤ to_block)
        × (add64 (outer_end C topics to_block p) 1 ≡ suc (outer_end C topics to_block p))
  unfolding outer_end add64 sub64
  outer_end_bounds p i h = omega arith

  failed-Fetched :
      (p : Range) (e : WalkError) (end : ℕ) (stopped : Bool)
      → InRange C topics from_block to_block p
      → end ≤ to_block
      → (stopped ≡ true → Cancelled C)
      → Walked C topics p.from end p.step (err e)
      → Fetched C topics from_block to_block
          (err (if stopped then interrupted p.logs else no_logs e))
  failed-Fetched p e end true i h c w = (c refl, (p.from, i.below, i.covers))
  failed-Fetched p (interrupted logs) end false i h c w =
      (w.0, (from_block, omega arith, Covers.start))
  failed-Fetched p (rpc e) end false i h c w = w
  failed-Fetched p (single_block_overflow n e) end false i h c w =
      (omega arith, omega arith, w.2, w.3)
  failed-Fetched p (step_size_exhausted a b e) end false i h c w = w
  failed-Fetched p no_bounds end false i h c w = w
  failed-Fetched p diverged end false i h c w = w

  join-Round :
      (p : Range) (r : Result WalkError (List Log × ℕ)) (s : C.State)
      → InRange C topics from_block to_block p
      → p.from ≤ to_block
      → Walked C topics p.from (outer_end C topics to_block p) p.step r
      → let t = join C topics to_block p (outer_end C topics to_block p) r s in
        RangeRound C topics from_block to_block p t.0 t.1
  join-Round p (err e) s i h w =
      failed-Fetched p e (outer_end C topics to_block p) (C.ctx_err s).0 i
        (outer_end_bounds p i h).1 (λ c. (s, c)) w
  join-Round p (ok (logs, capped)) s i h w =
      let b = outer_end_bounds p i h in
      rw b.2 (
        record {
          above = omega (arith, b);
          below = omega (arith, b);
          step_pos = omega arith;
          step_le = omega arith;
          covers = Covers-trans C topics from_block p.from _ p.logs logs i.covers w.0;
        },
        omega (arith, b),
      )

  range_turn-Round :
      (p : Range) (s : C.State)
      → InRange C topics from_block to_block p
      → let t = range_turn C topics to_block p s in
        RangeRound C topics from_block to_block p t.0 t.1
  unfolding range_turn
  range_turn-Round p s i = elim (Bool-cases (leb p.from to_block)) [
    | inl more ↦ rw more (go (C.ctx_err s).0 (C.ctx_err s).1 (leb→le _ _ more) (λ c. (s, c)))
    | inr done ↦ rw done (subst (λ b. Covers C topics from_block b p.logs) (ends done) i.covers)
  ]
    where
      ends : leb p.from to_block ≡ false → p.from ≡ suc to_block
      ends done = let b = i.below in ground arith

      go :
          (stopped : Bool) (s' : C.State)
          → p.from ≤ to_block
          → (stopped ≡ true → Cancelled C)
          → let t = window_checked C topics to_block p stopped s' in
            RangeRound C topics from_block to_block p t.0 t.1
      go true s' h c = (c refl, (p.from, i.below, i.covers))
      go false s' h c =
          let b = outer_end_bounds p i h in
          join-Round p _ _ i h (
            walk_window-Walked C topics p.from (outer_end C topics to_block p) p.step i.step_le
              (omega (arith, b)) s' (omega (arith, b)) i.step_pos)

-- For any provider, whatever it answers: `FilterLogs` over a range ends, and its logs are answers
-- to requests for adjacent windows that lead from the first block of the range through the last.
-- When it fails, it is with the context's error and such answers for a part of the range, with an
-- error that does not ask for a smaller window, or with a block of the range for which alone the
-- provider asked for less. It does not run out of step.
pub filter_logs-Fetched :
    (C : EthClient) (topics : List (List Hash)) (span_cap from_block to_block : ℕ) (s : C.State)
    → from_block ≤ suc to_block
    → to_block + default_step_size < u64_mod
    → span_cap + 1 < u64_mod
    → Fetched C topics from_block to_block
        (filter_logs C span_cap topics (some from_block) (some to_block) s).0
unfolding filter_logs
filter_logs-Fetched C topics span_cap from_block to_block s h to_bound cap_bound =
    loop_rule (λ q _. InRange C topics from_block to_block q)
      (λ r _. Fetched C topics from_block to_block r) (remaining C topics from_block to_block)
      diverged (range_turn C topics to_block)
      (range_turn-Round C topics from_block to_block to_bound) _ _ s (omega arith)
      (record {
        above = omega arith;
        below = h;
        step_pos = (initial_step_bounds span_cap cap_bound).0;
        step_le = (initial_step_bounds span_cap cap_bound).1;
        covers = Covers.start;
      })
