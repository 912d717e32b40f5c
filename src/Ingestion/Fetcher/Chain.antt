-- ===== src/Ingestion/Fetcher/Chain.antt =====
-- One chain, given by all the logs of each block, and the part of it that ingestion fetches.
use ff_eth_logs.Base.{
  All-filter, ℕ, zero, suc, ◌≡◌, ◌≤◌, ◌<◌, Bool, false, List, [], ◌∷◌, ◌++◌, String, filter, All,
  arith, inl, inr, Bool-cases, refl,
}
use ff_eth_logs.Base.Sort.{sort_by, insert_by}
use ff_eth_logs.Eventset.{Hash, topics}
use ff_eth_logs.Chain.{Log}
use ff_eth_logs.Chain.Pagination.Complete.{logs_of}
use ff_eth_logs.Logstore.Read.Rows.{log_before}
use ff_eth_logs.Ingestion.Fetcher.{is_wanted}

-- No log stands before one that comes earlier in the chain.
abbrev pub InOrder : List Log → Type 0
InOrder [] = Unit
InOrder (x ∷ xs) = All (λ y. log_before y x ≡ false) xs × InOrder xs

-- The logs of each block have its height, and stand in the order of their indices.
pub record IsChain (blocks : ℕ → List Log) : Type 0 where
  pub numbered : (n : ℕ) → All (λ l. l.block_number ≡ n) (blocks n)
  pub in_order : (n : ℕ) → InOrder (blocks n)

-- The logs of a block that the topic filter selects.
abbrev pub wanted_logs : (String → Hash) → (ℕ → List Log) → ℕ → List Log
wanted_logs keccak256 blocks n = filter (λ l. is_wanted (topics keccak256) l.topics) (blocks n)

-- Sorting changes nothing of a list that is in order.
pub sort_by-InOrder : (xs : List Log) → InOrder xs → sort_by log_before xs ≡ xs
unfolding sort_by insert_by
sort_by-InOrder [] o = refl
sort_by-InOrder (x ∷ []) o = refl
sort_by-InOrder (x ∷ y ∷ ys) o = rw (sort_by-InOrder (y ∷ ys) o.1, o.0.0) refl

pub filter-InOrder : (p : Log → Bool) (xs : List Log) → InOrder xs → InOrder (filter p xs)
unfolding filter
filter-InOrder p [] o = tt
filter-InOrder p (x ∷ xs) o = elim (Bool-cases (p x)) [
  | inl h ↦ rw h (All-filter (λ y. log_before y x ≡ false) p xs o.0, filter-InOrder p xs o.1)
  | inr h ↦ rw h (filter-InOrder p xs o.1)
]

All-append : {A : Type 0} (P : A → Type 0) (xs ys : List A) → All P xs → All P ys → All P (xs ++ ys)
All-append P [] ys a b = b
All-append P (x ∷ xs) ys a b = (a.0, All-append P xs ys a.1 b)

All-weaken :
    {A : Type 0} (P Q : A → Type 0) (xs : List A) → ((x : A) → P x → Q x) → All P xs → All Q xs
All-weaken P Q [] h a = tt
All-weaken P Q (x ∷ xs) h a = (h x a.0, All-weaken P Q xs h a.1)

later-InOrder :
    (first : ℕ) (x y : Log)
    → x.block_number ≡ first
    → first < y.block_number
    → log_before y x ≡ false
later-InOrder first x y e h = ground arith

append-InOrder :
    (first : ℕ) (xs ys : List Log)
    → All (λ l. l.block_number ≡ first) xs
    → All (λ l. first < l.block_number) ys
    → InOrder xs
    → InOrder ys
    → InOrder (xs ++ ys)
append-InOrder first [] ys a b o o' = o'
append-InOrder first (x ∷ xs) ys a b o o' = (
  All-append (λ y. log_before y x ≡ false) xs ys o.0
      (All-weaken (λ y. first < y.block_number) (λ y. log_before y x ≡ false) ys
        (λ y h. later-InOrder first x y a.0 h) b),
  append-InOrder first xs ys a.1 b o.1 o',
)

module _ (keccak256 : String → Hash) (blocks : ℕ → List Log) (chain : IsChain blocks) where
  wanted : Log → Bool
  wanted l = is_wanted (topics keccak256) l.topics

  logs_of-above :
      (first count bound : ℕ)
      → bound ≤ first
      → All (λ l. bound ≤ l.block_number) (logs_of (wanted_logs keccak256 blocks) first count)
  unfolding logs_of
  logs_of-above first zero bound h = tt
  logs_of-above first (suc count) bound h =
      All-append (λ l. bound ≤ l.block_number) (wanted_logs keccak256 blocks first)
        (logs_of (wanted_logs keccak256 blocks) (suc first) count)
        (All-weaken (λ l. l.block_number ≡ first) (λ l. bound ≤ l.block_number)
          (wanted_logs keccak256 blocks first) (λ l e. omega (arith, e, h))
          (All-filter (λ l. l.block_number ≡ first) (λ l. is_wanted (topics keccak256) l.topics)
            (blocks first) (chain.numbered first)))
        (logs_of-above (suc first) count bound (omega (arith, h)))

  -- The fetched part of consecutive blocks is in chain order.
  pub logs_of-InOrder :
      (first count : ℕ) → InOrder (logs_of (wanted_logs keccak256 blocks) first count)
  unfolding logs_of
  logs_of-InOrder first zero = tt
  logs_of-InOrder first (suc count) =
      append-InOrder first (wanted_logs keccak256 blocks first)
        (logs_of (wanted_logs keccak256 blocks) (suc first) count)
        (All-filter (λ l. l.block_number ≡ first) (λ l. is_wanted (topics keccak256) l.topics)
          (blocks first) (chain.numbered first))
        (logs_of-above (suc first) count (suc first) (omega arith))
        (filter-InOrder (λ l. is_wanted (topics keccak256) l.topics) (blocks first)
          (chain.in_order first))
        (logs_of-InOrder (suc first) count)
