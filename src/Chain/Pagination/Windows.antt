-- ===== src/Chain/Pagination/Windows.antt =====
-- What a walk returns: the answers to requests for windows that cover the range in order.
use ff_eth_logs.Base.{
  ==_iff, leb→le, ◌==◌, inl, inr, Bool-cases, ℕ, suc, ◌+◌, ◌-◌, ◌*◌, ◌/◌, ◌≤◌, ◌<◌, ◌≡◌, refl, sym,
  subst, Bool, true, false, some, List, [], ◌++◌, u64_mod, add64, sub64, arith, leb, if◌then◌else◌,
}
use ff_eth_logs.Base.Exec.{Result, ok, err}
use ff_eth_logs.Base.Loop.{Turn, stop, again, Round, loop_rule}
use ff_eth_logs.Eventset.{Hash}
use ff_eth_logs.Chain.{Log, RpcError, EthClient}
use ff_eth_logs.Chain.Errors.{is_block_range_cap_error, is_too_many_results_error}
use ff_eth_logs.Chain.Pagination.{
  pause, checked, judge, WalkError, interrupted, rpc, single_block_overflow, step_size_exhausted,
  no_bounds, diverged, default_step_size, Position, window_end, rejected, accepted, attempt,
  window_turn, rounds, walk_window,
}

-- One more window of the range, whatever the step becomes.
fall : (a b size c d : ℕ) → a < b → c ≤ size → a * suc size + c < b * suc size + d
fall a b size c d h k = grind arith

-- The context is done at some time.
abbrev pub Cancelled : EthClient → Type 0
Cancelled C = (s : C.State) × ((C.ctx_err s).0 ≡ true)

module _ (C : EthClient) (topics : List (List Hash)) where
  -- The client answered a request for the blocks `from` to `to_block` with these logs.
  abbrev pub Answered : ℕ → ℕ → List Log → Type 0
  Answered from to_block logs = (s : C.State) × ((C.filter_logs from to_block topics s).0 ≡ ok logs)

  -- The client failed a request for the blocks `from` to `to_block`.
  abbrev pub Failed : ℕ → ℕ → RpcError → Type 0
  Failed from to_block e = (s : C.State) × ((C.filter_logs from to_block topics s).0 ≡ err e)

  -- The logs are answers for adjacent windows that lead from `from` up to, but without, `end`.
  pub data Covers (from : ℕ) : ℕ → List Log → Type 0 where
    start : Covers from from []
    window :
        {mid last : ℕ} {logs found all : List Log}
        → Covers from mid logs
        → mid ≤ last
        → Answered mid last found
        → all ≡ logs ++ found
        → Covers from (suc last) all

module _ (C : EthClient) (topics : List (List Hash)) (start_block to_block max_step : ℕ) where
  -- What holds before each round of `walkWindow`.
  record InWalk (p : Position) : Type 0 where
    above : start_block ≤ p.from
    below : p.from ≤ suc to_block
    step_pos : 0 < p.step
    step_le : p.step ≤ p.max_step
    max_le : p.max_step ≤ max_step
    covers : Covers C topics start_block p.from p.logs

  -- What the walk may return. It neither diverges nor runs out of step.
  abbrev pub Walked : Result WalkError (List Log × ℕ) → Type 0
  Walked (ok (logs, capped)) =
      Covers C topics start_block (suc to_block) logs × (0 < capped) × (capped ≤ max_step)
  Walked (err (interrupted logs)) =
      Cancelled C × ((end : ℕ) × (end ≤ suc to_block) × Covers C topics start_block end logs)
  Walked (err (rpc e)) =
      (is_too_many_results_error (some e) ≡ false)
      × ((first : ℕ) × (last : ℕ) × Failed C topics first last e)
  Walked (err (single_block_overflow n e)) =
      (start_block ≤ n)
      × (n ≤ to_block)
      × (is_too_many_results_error (some e) ≡ true)
      × Failed C topics n n e
  Walked (err (step_size_exhausted from current_to e)) = ⊥
  Walked (err no_bounds) = ⊥
  Walked (err diverged) = ⊥

  abbrev left : Position → ℕ
  left p = (suc to_block - p.from) * suc max_step + p.step

  -- What a round establishes.
  abbrev WindowRound : Position → Turn WalkError (List Log × ℕ) Position → C.State → Type 0
  WindowRound = Round (λ q _. InWalk q) (λ r _. Walked r) left

module _ (C : EthClient) (topics : List (List Hash)) (start_block to_block max_step : ℕ)
    (step_bound : max_step ≤ default_step_size)
    (to_bound : to_block + default_step_size < u64_mod) where
  -- The window is not empty, stays in the range, and nothing wraps around.
  window_end_bounds :
      (p : Position)
      → InWalk C topics start_block to_block max_step p
      → p.from ≤ to_block
      → (p.from ≤ window_end p to_block)
        × (window_end p to_block ≤ to_block)
        × (add64 (window_end p to_block) 1 ≡ suc (window_end p to_block))
  unfolding window_end add64 sub64
  window_end_bounds p i h = omega arith

  accepted-InWalk :
      (p : Position) (logs : List Log)
      → InWalk C topics start_block to_block max_step p
      → p.from ≤ to_block
      → Answered C topics p.from (window_end p to_block) logs
      → InWalk C topics start_block to_block max_step (accepted p (window_end p to_block) logs)
        × (left C topics start_block to_block max_step (accepted p (window_end p to_block) logs)
            < left C topics start_block to_block max_step p)
  unfolding accepted
  accepted-InWalk p logs i h a =
      let b = window_end_bounds p i h in
      (
        record {
          above = omega (arith, b);
          below = omega (arith, b);
          step_pos = omega arith;
          step_le = omega arith;
          max_le = i.max_le;
          covers = rw b.2 (window i.covers b.0 a refl);
        },
        fall _ _ max_step _ _ (omega (arith, b)) (omega arith),
      )

  -- A window of several blocks has a step that can be halved.
  wide_step :
      (p : Position)
      → InWalk C topics start_block to_block max_step p
      → p.from ≤ to_block
      → (p.from == window_end p to_block) ≡ false
      → 1 < p.step
  unfolding window_end add64 sub64
  wide_step p i h wide = ground arith

  halved :
      (p : Position) (cap : Bool)
      → InWalk C topics start_block to_block max_step p
      → 1 < p.step
      → let q : Position = record p {
        step = p.step / 2;
        max_step = if cap then p.step / 2 else p.max_step;
      } in
        InWalk C topics start_block to_block max_step q
        × (left C topics start_block to_block max_step q
            < left C topics start_block to_block max_step p)
  halved p true i h = (
    record {
      above = i.above;
      below = i.below;
      step_pos = omega arith;
      step_le = omega arith;
      max_le = omega arith;
      covers = i.covers;
    },
    omega arith,
  )
  halved p false i h = (
    record {
      above = i.above;
      below = i.below;
      step_pos = omega arith;
      step_le = omega arith;
      max_le = i.max_le;
      covers = i.covers;
    },
    omega arith,
  )

  half_pos : (n : ℕ) → 1 < n → (n / 2 == 0) ≡ false
  half_pos n h = ground arith

  -- A rejection stops the walk for a reason of its own, or halves the step.
  rejected-Round :
      (p : Position) (e : RpcError) (stopped : Bool) (s : C.State)
      → InWalk C topics start_block to_block max_step p
      → p.from ≤ to_block
      → Failed C topics p.from (window_end p to_block) e
      → (stopped ≡ true → Cancelled C)
      → WindowRound C topics start_block to_block max_step p
          (rejected p (window_end p to_block) e stopped)
          s
  unfolding rejected
  rejected-Round p e true s i h f c = (c refl, (p.from, i.below, i.covers))
  rejected-Round p e false s i h f c = elim (Bool-cases (is_too_many_results_error (some e))) [
    | inr fatal ↦ rw fatal (fatal, (p.from, window_end p to_block, f))
    | inl split ↦ rw split (elim (Bool-cases (p.from == window_end p to_block)) [
      | inl single ↦ rw single (
        i.above,
        h,
        split,
        subst (λ b. Failed C topics p.from b e) (sym ((==_iff _ _).0 single)) f,
      )
      | inr wide ↦
          let big = wide_step p i h wide in
          rw (wide, half_pos p.step big) (halved p (is_block_range_cap_error (some e)) i big)
    ])
  ]

  judge-Round :
      (p : Position) (answer : Result RpcError (List Log)) (s s' : C.State)
      → (C.filter_logs p.from (window_end p to_block) topics s).0 ≡ answer
      → InWalk C topics start_block to_block max_step p
      → p.from ≤ to_block
      → let t = judge C topics to_block p (window_end p to_block) answer s' in
        WindowRound C topics start_block to_block max_step p t.0 t.1
  judge-Round p (ok logs) s s' e i h = accepted-InWalk p logs i h (s, e)
  judge-Round p (err e) s s' a i h =
      let t = rejected p (window_end p to_block) e (C.ctx_err s').0 in
      paused t (C.ctx_err s').1
        (rejected-Round p e (C.ctx_err s').0 (C.ctx_err s').1 i h (s, a) (λ c. (s', c)))
    where
      paused :
          (t : Turn WalkError (List Log × ℕ) Position) (s'' : C.State)
          → WindowRound C topics start_block to_block max_step p t s''
          → let u = pause C topics to_block t s'' in
            WindowRound C topics start_block to_block max_step p u.0 u.1
      paused (stop r) s'' k = k
      paused (again q) s'' k = k

  window_turn-Round :
      (p : Position) (s : C.State)
      → InWalk C topics start_block to_block max_step p
      → let t = window_turn C topics to_block p s in
        WindowRound C topics start_block to_block max_step p t.0 t.1
  unfolding window_turn attempt
  window_turn-Round p s i = elim (Bool-cases (leb p.from to_block)) [
    | inl more ↦ rw more (go (C.ctx_err s).0 (C.ctx_err s).1 (leb→le _ _ more) (λ c. (s, c)))
    | inr done ↦ rw done (
      subst (λ b. Covers C topics start_block b p.logs) (ends done) i.covers,
      omega arith,
      i.max_le,
    )
  ]
    where
      ends : leb p.from to_block ≡ false → p.from ≡ suc to_block
      ends done = let b = i.below in ground arith

      go :
          (stopped : Bool) (s' : C.State)
          → p.from ≤ to_block
          → (stopped ≡ true → Cancelled C)
          → let t = checked C topics to_block p stopped s' in
            WindowRound C topics start_block to_block max_step p t.0 t.1
      go true s' h c = (c refl, (p.from, i.below, i.covers))
      go false s' h c = judge-Round p _ s' _ refl i h

  -- The inner walk: it ends, with all of its range or with one of the errors above.
  pub walk_window-Walked :
      (s : C.State)
      → start_block ≤ suc to_block
      → 0 < max_step
      → Walked C topics start_block to_block max_step
          (walk_window C topics to_block start_block max_step s).0
  unfolding walk_window rounds
  walk_window-Walked s h k =
      loop_rule (λ q _. InWalk C topics start_block to_block max_step q)
        (λ r _. Walked C topics start_block to_block max_step r)
        (left C topics start_block to_block max_step) diverged (window_turn C topics to_block)
        window_turn-Round _ _ s (omega arith)
        (record {
          above = omega arith;
          below = h;
          step_pos = k;
          step_le = omega arith;
          max_le = omega arith;
          covers = start;
        })
