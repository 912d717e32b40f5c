-- ===== src/Rpcapi/Resolved.antt =====
-- The filters that `resolveRange` gives a range: those that designate one inside the coverage.
use ff_eth_logs.Base.{
  ◌&&◌, subst, ◌∙◌, false, inl, inr, ℕ, ◌≤◌, ◌≡◌, refl, some, Bool, true, arith, if◌then◌else◌,
  Bool-cases, Option-cases,
}
use ff_eth_logs.Base.Int.{ℤ, pos, negsuc, int_eq, int_lt}
use ff_eth_logs.Base.Exec.{Result, ok}
use ff_eth_logs.Logstore.{Block, Coverage, Database}
use ff_eth_logs.Logstore.Read.{select_block, Access, block_by_hash}
use ff_eth_logs.Rpcapi.{
  BlockTags, Criteria, ApiError, resolve_special, query_of, or_tag, resolve_numbers, resolve_range,
  inside, at_block,
}
use ff_eth_logs.Rpcapi.Ranges.{Means, DesignatedBy, Designates, Inside}

-- What the program needs of go-ethereum's tags: all but `earliest` are negative, `earliest` is not
-- above 0, and it, `latest` and `pending` differ from each other and from `safe` and `finalized`.
abbrev pub GoTags : BlockTags → Type 0
GoTags tags =
    (int_lt tags.latest (pos 0) ≡ true)
    × (int_lt tags.safe (pos 0) ≡ true)
    × (int_lt tags.finalized (pos 0) ≡ true)
    × (int_lt tags.pending (pos 0) ≡ true)
    × (int_lt (pos 0) tags.earliest ≡ false)
    × (int_eq tags.earliest tags.latest ≡ false)
    × (int_eq tags.earliest tags.safe ≡ false)
    × (int_eq tags.earliest tags.finalized ≡ false)
    × (int_eq tags.earliest tags.pending ≡ false)
    × (int_eq tags.latest tags.pending ≡ false)

int_eq_refl : (a : ℤ) → int_eq a a ≡ true
int_eq_refl (pos a) = ground arith
int_eq_refl (negsuc a) = ground arith

pos-negative : (n : ℕ) (t : ℤ) → int_lt t (pos 0) ≡ true → int_eq (pos n) t ≡ false
pos-negative n (pos m) h = absurd (ground arith)
pos-negative n (negsuc m) h = refl

at_or_below_zero :
    (n : ℕ) (t : ℤ)
    → int_lt (pos 0) t ≡ false
    → Path (Result ApiError ℕ) (if int_eq (pos n) t then ok 0 else ok n) (ok n)
at_or_below_zero n (pos m) h = ground arith
at_or_below_zero n (negsuc m) h = refl

Means-resolve_special :
    (tags : BlockTags) (end : ℤ) (head n : ℕ)
    → GoTags tags
    → Means tags head end n
    → resolve_special tags end head ≡ ok n
unfolding resolve_special
Means-resolve_special tags end head n go (inl (e, f)) = rw (e, int_eq_refl tags.latest, f) refl
Means-resolve_special tags end head n go (inr (inl (e, f))) =
    rw (e, go.5, go.6, go.7, int_eq_refl tags.earliest, f) refl
Means-resolve_special tags end head n go (inr (inr e)) =
    rw
      (
        e,
        pos-negative n tags.latest go.0,
        pos-negative n tags.safe go.1,
        pos-negative n tags.finalized go.2,
      )
      (at_or_below_zero n tags.earliest go.4)

-- An end above 0 is a number.
above_zero :
    (tags : BlockTags) (end : ℤ) (head n : ℕ)
    → GoTags tags
    → Means tags head end n
    → int_lt (pos 0) end ≡ true
    → end ≡ pos n
above_zero tags end head n go (inl (e, f)) h =
    absurd (negative_not_above tags.latest go.0 (subst (λ t. int_lt (pos 0) t ≡ true) e h))
  where
    negative_not_above : (t : ℤ) → int_lt t (pos 0) ≡ true → int_lt (pos 0) t ≡ true → ⊥
    negative_not_above (pos m) h k = ground arith
    negative_not_above (negsuc m) h k = cc k
above_zero tags end head n go (inr (inl (e, f))) h =
    absurd (ground (arith, go.4, subst (λ t. int_lt (pos 0) t ≡ true) e h))
above_zero tags end head n go (inr (inr e)) h = e

not_inverted :
    (tags : BlockTags) (begin end : ℤ) (head from to_block : ℕ)
    → GoTags tags
    → Means tags head begin from
    → Means tags head end to_block
    → from ≤ to_block
    → (int_lt (pos 0) begin && (int_lt (pos 0) end && int_lt end begin)) ≡ false
not_inverted tags begin end head from to_block go m n h = elim (Bool-cases (int_lt (pos 0) begin)) [
  | inr e ↦ rw e refl
  | inl e ↦ elim (Bool-cases (int_lt (pos 0) end)) [
    | inr f ↦ rw (e, f) refl
    | inl f ↦
        rw (above_zero tags begin head from go m e, above_zero tags end head to_block go n f)
          (ground arith)
  ]
]

not_pending :
    (tags : BlockTags) (end : ℤ) (head n : ℕ)
    → GoTags tags
    → Means tags head end n
    → int_eq end tags.pending ≡ false
not_pending tags end head n go (inl (e, f)) = rw e go.9
not_pending tags end head n go (inr (inl (e, f))) = rw e go.8
not_pending tags end head n go (inr (inr e)) = rw e (pos-negative n tags.pending go.3)

inside_ok :
    (crit : Criteria) (cov : Coverage) (from to_block : ℕ)
    → Inside cov from to_block
    → inside crit cov from to_block ≡ ok (some (query_of crit from to_block))
inside_ok crit cov from to_block h = ground arith

at_block_ok :
    (crit : Criteria) (cov : Coverage) (b : Block) (from to_block : ℕ)
    → from ≡ b.number
    → to_block ≡ b.number
    → Inside cov from to_block
    → at_block crit cov b ≡ ok (some (query_of crit from to_block))
at_block_ok crit cov b from to_block e f h = ground (arith, e, f)

module _ (tags : BlockTags) (go : GoTags tags) (crit : Criteria) (cov : Coverage)
    (from to_block : ℕ) (within : Inside cov from to_block) where
  resolve_numbers-inside :
      Means tags cov.head (or_tag crit.from_block tags.latest) from
      → Means tags cov.head (or_tag crit.to_block tags.latest) to_block
      → resolve_numbers tags crit cov ≡ ok (some (query_of crit from to_block))
  unfolding resolve_numbers
  resolve_numbers-inside m n =
      rw
        (
          not_inverted tags (or_tag crit.from_block tags.latest) (or_tag crit.to_block tags.latest)
              cov.head from to_block go m n within.1,
          not_pending tags (or_tag crit.from_block tags.latest) cov.head from go m,
          not_pending tags (or_tag crit.to_block tags.latest) cov.head to_block go n,
          Means-resolve_special tags (or_tag crit.from_block tags.latest) cov.head from go m,
          Means-resolve_special tags (or_tag crit.to_block tags.latest) cov.head to_block go n,
        )
        (inside_ok crit cov from to_block within)

  -- A filter that designates a range inside the coverage resolves to it.
  pub resolve_range-inside :
      (faults : Access → Bool) (db : Database)
      → faults select_block ≡ false
      → Designates tags db cov crit from to_block
      → resolve_range tags faults db crit cov ≡ ok (some (query_of crit from to_block))
  unfolding resolve_range block_by_hash
  resolve_range-inside faults db runs d = elim (Option-cases crit.block_hash) [
    | inl e ↦
        let ends = subst (λ h. DesignatedBy tags db cov crit h from to_block) e d in
        let by_numbers : resolve_range tags faults db crit cov ≡ resolve_numbers tags crit cov =
          ground (arith, e) in
        by_numbers ∙ resolve_numbers-inside ends.0 ends.1
    | inr (hash, e) ↦
        let found = subst (λ h. DesignatedBy tags db cov crit h from to_block) e d in
        let by_hash : resolve_range tags faults db crit cov ≡ at_block crit cov found.0 =
          ground (arith, e, runs, found.1) in
        by_hash ∙ at_block_ok crit cov found.0 from to_block found.2 found.3 within
  ]
