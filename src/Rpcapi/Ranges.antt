-- ===== src/Rpcapi/Ranges.antt =====
-- The block range of a filter: what `resolveRange` gives, and when it gives one.
use ff_eth_logs.Base.{
  none, false, inl, inr, ℕ, ◌≤◌, ◌<◌, ◌≡◌, ◌⊎◌, refl, some, Bool, true, arith, Bool-cases,
  Option-cases, Option,
}
use ff_eth_logs.Base.Int.{ℤ, pos, negsuc, int_eq}
use ff_eth_logs.Base.Exec.{Result-cases, ok}
use ff_eth_logs.Eventset.{Hash}
use ff_eth_logs.Logstore.{Block, Coverage, Database}
use ff_eth_logs.Logstore.Read.{Access, with_hash, Query, block_by_hash}
use ff_eth_logs.Rpcapi.{
  BlockTags, Criteria, resolve_special, query_of, or_tag, resolve_numbers, resolve_range, inside,
  at_block,
}

int_eq→eq : (a b : ℤ) → int_eq a b ≡ true → a ≡ b
int_eq→eq (pos a) (pos b) h = ground arith
int_eq→eq (pos a) (negsuc b) h = cc h
int_eq→eq (negsuc a) (pos b) h = cc h
int_eq→eq (negsuc a) (negsuc b) h = ground arith

-- What an end of a range stands for: the head, genesis, or a number.
abbrev pub Means : BlockTags → ℕ → ℤ → ℕ → Type 0
Means tags head end n =
    ((end ≡ tags.latest) × (n ≡ head)) ⊎ (((end ≡ tags.earliest) × (n ≡ 0)) ⊎ (end ≡ pos n))

abbrev pub DesignatedBy : BlockTags → Database → Coverage → Criteria → Option Hash → ℕ → ℕ → Type 0
DesignatedBy tags db cov crit (some h) from to_block =
    (b : Block) × (with_hash h db.blocks ≡ some b) × (from ≡ b.number) × (to_block ≡ b.number)
DesignatedBy tags db cov crit none from to_block =
    Means tags cov.head (or_tag crit.from_block tags.latest) from
    × Means tags cov.head (or_tag crit.to_block tags.latest) to_block

-- The heights that a filter is about: those of the block with its hash, or of its range, of which
-- each end is `latest` if it is not given.
abbrev pub Designates : BlockTags → Database → Coverage → Criteria → ℕ → ℕ → Type 0
Designates tags db cov crit from to_block =
    DesignatedBy tags db cov crit crit.block_hash from to_block

abbrev pub Inside : Coverage → ℕ → ℕ → Type 0
Inside cov from to_block = (cov.start ≤ from) × (from ≤ to_block) × (to_block ≤ cov.head)

resolve_special-Means :
    (tags : BlockTags) (end : ℤ) (head n : ℕ)
    → resolve_special tags end head ≡ ok n
    → Means tags head end n
unfolding resolve_special
resolve_special-Means tags end head n h = elim (Bool-cases (int_eq end tags.latest)) [
  | inl e ↦ inl (int_eq→eq end tags.latest e, ground (arith, e))
  | inr e ↦ elim (Bool-cases (int_eq end tags.earliest)) [
    | inl f ↦ inr (inl (int_eq→eq end tags.earliest f, ground (arith, e, f)))
    | inr f ↦ inr (inr (by_sign end e f h))
  ]
]
  where
    by_sign :
        (end : ℤ)
        → int_eq end tags.latest ≡ false
        → int_eq end tags.earliest ≡ false
        → resolve_special tags end head ≡ ok n
        → end ≡ pos n
    by_sign (pos m) e f h = ground (arith, e, f)
    by_sign (negsuc m) e f h = absurd (ground (arith, e, f))

inside-some :
    (crit : Criteria) (cov : Coverage) (from to_block : ℕ) (q : Option Query)
    → inside crit cov from to_block ≡ ok q
    → ((q ≡ none) × (to_block < from))
      ⊎ ((q ≡ some (query_of crit from to_block)) × Inside cov from to_block)
inside-some crit cov from to_block q h = ground arith

at_block-some :
    (crit : Criteria) (cov : Coverage) (b : Block) (q : Option Query)
    → at_block crit cov b ≡ ok q
    → (q ≡ some (query_of crit b.number b.number)) × Inside cov b.number b.number
at_block-some crit cov b q h = ground arith

-- The range that an outcome of `resolveRange` is for.
abbrev pub Resolved : BlockTags → Database → Coverage → Criteria → Option Query → Type 0
Resolved tags db cov crit q =
    (from : ℕ) × (to_block : ℕ) × Designates tags db cov crit from to_block
    × (((q ≡ none) × (to_block < from))
        ⊎ ((q ≡ some (query_of crit from to_block)) × Inside cov from to_block))

resolve_numbers-ends :
    (tags : BlockTags) (crit : Criteria) (cov : Coverage) (q : Option Query)
    → resolve_numbers tags crit cov ≡ ok q
    → (from : ℕ) × (to_block : ℕ) × (resolve_special tags
          (or_tag crit.from_block tags.latest)
          cov.head
        ≡ ok from)
      × (resolve_special tags (or_tag crit.to_block tags.latest) cov.head ≡ ok to_block)
      × (inside crit cov from to_block ≡ ok q)
unfolding resolve_numbers
resolve_numbers-ends tags crit cov q h =
    elim (Result-cases (resolve_special tags (or_tag crit.from_block tags.latest) cov.head)) [
      | inr (e, f) ↦ absurd (ground (arith, f))
      | inl (from, f) ↦
          elim (Result-cases (resolve_special tags (or_tag crit.to_block tags.latest) cov.head)) [
            | inr (e, g) ↦ absurd (ground (arith, f, g))
            | inl (to_block, g) ↦ (from, to_block, f, g, ground (arith, f, g))
          ]
    ]

Designates-numbers :
    (tags : BlockTags) (db : Database) (cov : Coverage) (crit : Criteria) (from to_block : ℕ)
    → crit.block_hash ≡ none
    → Means tags cov.head (or_tag crit.from_block tags.latest) from
    → Means tags cov.head (or_tag crit.to_block tags.latest) to_block
    → Designates tags db cov crit from to_block
Designates-numbers tags db cov crit from to_block e m n = rw e (m, n)

Designates-block :
    (tags : BlockTags) (db : Database) (cov : Coverage) (crit : Criteria) (hash : Hash) (b : Block)
    → crit.block_hash ≡ some hash
    → with_hash hash db.blocks ≡ some b
    → Designates tags db cov crit b.number b.number
Designates-block tags db cov crit hash b e f = rw e (b, f, refl, refl)

pub resolve_range-Resolved :
    (tags : BlockTags) (faults : Access → Bool) (db : Database) (crit : Criteria) (cov : Coverage)
    (q : Option Query)
    → resolve_range tags faults db crit cov ≡ ok q
    → Resolved tags db cov crit q
unfolding resolve_range block_by_hash
resolve_range-Resolved tags faults db crit cov q h = elim (Option-cases crit.block_hash) [
  | inl e ↦
      let (from, to_block, f, g, within) =
        resolve_numbers-ends tags crit cov q (ground (arith, e)) in
      (
        from,
        to_block,
        Designates-numbers tags db cov crit from to_block e
            (resolve_special-Means tags (or_tag crit.from_block tags.latest) cov.head from f)
            (resolve_special-Means tags (or_tag crit.to_block tags.latest) cov.head to_block g),
        inside-some crit cov from to_block q within,
      )
  | inr (hash, e) ↦ elim (Option-cases (with_hash hash db.blocks)) [
    | inl f ↦ absurd (ground (arith, e, f))
    | inr (b, f) ↦ (
      b.number,
      b.number,
      rw e (b, f, refl, refl),
      inr (at_block-some crit cov b q (ground (arith, e, f))),
    )
  ]
]
