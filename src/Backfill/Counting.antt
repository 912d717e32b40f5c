-- ===== src/Backfill/Counting.antt =====
-- Counting the rows of an interval: with one row for a number at most, a full count has every number.
use ff_eth_logs.Base.{
  ℕ, zero, suc, ◌+◌, ◌-◌, ◌≡◌, ◌≢◌, ◌≤◌, ◌<◌, false, ◌&&◌, List, [], ◌∷◌, none, All, filter, length,
  arith, refl, sym, ◌∙◌, ap, inl, inr, Bool-cases, ltb, leb, ◌==◌, if◌then◌else◌,
}
use ff_eth_logs.Logstore.{Block, block_at, between}

-- The primary key of eth_blocks.
abbrev pub Unique : List Block → Type 0
Unique [] = Unit
Unique (b ∷ bs) = All (λ (c : Block). b.number ≢ c.number) bs × Unique bs

-- How many rows have a number, and how many are of the `k` numbers from `a` on.
unfoldable pub count_of : ℕ → List Block → ℕ
count_of n [] = 0
count_of n (b ∷ bs) = if b.number == n then suc (count_of n bs) else count_of n bs

unfoldable pub count_in : ℕ → ℕ → List Block → ℕ
count_in a k [] = 0
count_in a k (b ∷ bs) =
    if leb a b.number && ltb b.number (a + k) then suc (count_in a k bs) else count_in a k bs

count_of-none : (n : ℕ) (bs : List Block) → block_at n bs ≡ none → count_of n bs ≡ 0
unfolding count_of block_at
count_of-none n [] h = refl
count_of-none n (b ∷ bs) h = elim (Bool-cases (b.number == n)) [
  | inl e ↦ absurd (ground (arith, e, h))
  | inr e ↦ ground (arith, e, h, count_of-none n bs (ground (arith, e, h)))
]

absent :
    (n : ℕ) (b : Block) (bs : List Block)
    → b.number ≡ n
    → All (λ (c : Block). b.number ≢ c.number) bs
    → count_of n bs ≡ 0
unfolding count_of
absent n b [] e h = refl
absent n b (c ∷ bs) e h =
    let other : (c.number == n) ≡ false = ground (arith, e, h.0) in rw other (absent n b bs e h.1)

count_of-Unique : (n : ℕ) (bs : List Block) → Unique bs → count_of n bs ≤ 1
unfolding count_of
count_of-Unique n [] u = omega arith
count_of-Unique n (b ∷ bs) u = elim (Bool-cases (b.number == n)) [
  | inl e ↦ rw e (omega (arith, absent n b bs (ground (arith, e)) u.0))
  | inr e ↦ rw e (count_of-Unique n bs u.1)
]

count_in-zero : (a : ℕ) (bs : List Block) → count_in a 0 bs ≡ 0
unfolding count_in
count_in-zero a [] = refl
count_in-zero a (b ∷ bs) = ground (arith, count_in-zero a bs)

count_in-suc :
    (a k : ℕ) (bs : List Block) → count_in a (suc k) bs ≡ count_in a k bs + count_of (a + k) bs
unfolding count_in count_of
count_in-suc a k [] = refl
count_in-suc a k (b ∷ bs) = ground (arith, count_in-suc a k bs)

count_in-bound : (a k : ℕ) (bs : List Block) → Unique bs → count_in a k bs ≤ k
count_in-bound a zero bs u = omega (arith, count_in-zero a bs)
count_in-bound a (suc k) bs u =
    omega (arith, count_in-suc a k bs, count_in-bound a k bs u, count_of-Unique (a + k) bs u)

count_in-missing :
    (a k n : ℕ) (bs : List Block)
    → Unique bs
    → a ≤ n
    → n < a + k
    → count_of n bs ≡ 0
    → count_in a k bs < k
count_in-missing a zero n bs u low high gone = absurd (omega (arith, low, high))
count_in-missing a (suc k) n bs u low high gone = elim (Bool-cases (n == a + k)) [
  | inl e ↦
      let top : count_of (a + k) bs ≡ 0 = ap (λ x. count_of x bs) (ground (arith, e)) ∙ gone in
      omega (arith, count_in-suc a k bs, count_in-bound a k bs u, top)
  | inr e ↦ omega (
    arith,
    count_in-suc a k bs,
    count_in-missing a k n bs u low (ground (arith, e, high)) gone,
    count_of-Unique (a + k) bs u,
  )
]

length-count_in :
    (first last : ℕ) (bs : List Block)
    → first ≤ last
    → length (filter (λ b. between first last b.number) bs) ≡ count_in first (suc (last - first)) bs
unfolding filter count_in
length-count_in first last [] h = refl
length-count_in first last (b ∷ bs) h =
    let rest = length-count_in first last bs h in
    let same : between first last b.number
        ≡ (leb first b.number && ltb b.number (first + suc (last - first))) =
      ground (arith, h) in
    elim (Bool-cases (between first last b.number)) [
      | inl e ↦ rw (sym same, e) (ap suc rest)
      | inr e ↦ rw (sym same, e) rest
    ]

-- An interval whose rows are as many as its heights has a row at every height.
pub counted-block_at :
    (first last n : ℕ) (bs : List Block)
    → Unique bs
    → first ≤ n
    → n ≤ last
    → length (filter (λ b. between first last b.number) bs) ≡ suc (last - first)
    → block_at n bs ≢ none
counted-block_at first last n bs u low high full gone = omega (
  arith,
  full,
  length-count_in first last bs (omega (arith, low, high)),
  count_in-missing first (suc (last - first)) n bs u low (omega (arith, low, high))
      (count_of-none n bs gone),
)
