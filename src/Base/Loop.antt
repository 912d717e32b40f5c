-- ===== src/Base/Loop.antt =====
-- Go's `for` loops that act on state and may return: one round as a function, the loop on fuel, and
-- the rule that gives an invariant's conclusion for a loop whose measure falls, whatever it does.
use Prim.Native.Nat.{ℕ, zero, suc, ◌<◌}
use native.Mathlib.Omega.{arith}
use ff_eth_logs.Base.Exec.{Result, err, Exec}

pub data Turn {ℓ κ μ} (E : Type ℓ) (A : Type κ) (P : Type μ) : Type (ℓ ⊔ κ ⊔ μ) where
  -- The loop returns.
  stop : Result E A → Turn E A P
  -- The loop goes on, its variables changed.
  again : P → Turn E A P

module _ {ℓ κ μ ν} {S : Type ℓ} {E : Type κ} {A : Type μ} {P : Type ν} where
  -- `out` is what the model returns when the fuel runs out.
  unfoldable pub loop : E → (P → S → Turn E A P × S) → ℕ → P → Exec S E A
  loop out turn zero p s = (err out, s)
  loop out turn (suc fuel) p s = elim (turn p s).0 [
    | stop r ↦ (r, (turn p s).1)
    | again p' ↦ loop out turn fuel p' (turn p s).1
  ]

  -- What a round must establish: the conclusion if it returns, else the invariant, closer to the end.
  abbrev pub Round {θ} :
      (P → S → Type θ) → (Result E A → S → Type θ) → (P → ℕ) → P → Turn E A P → S → Type θ
  Round I Q measure p (stop r) s' = Q r s'
  Round I Q measure p (again p') s' = I p' s' × (measure p' < measure p)

  after_round {θ} :
      (I : P → S → Type θ) (Q : Result E A → S → Type θ) (measure : P → ℕ) (p : P)
      (rest : P → S → Result E A × S)
      → ((p' : P) (s' : S) → measure p' < measure p → I p' s' → Q (rest p' s').0 (rest p' s').1)
      → (t : Turn E A P) (s' : S) → Round I Q measure p t s'
      → let final : Result E A × S = elim t [ stop r ↦ (r, s') | again p' ↦ rest p' s' ] in
        Q final.0 final.1
  after_round I Q measure p rest ih (stop r) s' h = h
  after_round I Q measure p rest ih (again p') s' h = ih p' s' h.1 h.0

  pub loop_rule {θ} :
      (I : P → S → Type θ) (Q : Result E A → S → Type θ) (measure : P → ℕ) (out : E)
      (turn : P → S → Turn E A P × S)
      → ((p : P) (s : S) → I p s → Round I Q measure p (turn p s).0 (turn p s).1)
      → (fuel : ℕ) (p : P) (s : S) → measure p < fuel
      → I p s
      → Q (loop out turn fuel p s).0 (loop out turn fuel p s).1
  unfolding loop
  loop_rule I Q measure out turn keep zero p s m i = absurd (omega arith)
  loop_rule I Q measure out turn keep (suc fuel) p s m i =
      after_round I Q measure p (loop out turn fuel)
        (λ p' s' m' i'. loop_rule I Q measure out turn keep fuel p' s' (omega arith) i')
        (turn p s).0 (turn p s).1 (keep p s i)
