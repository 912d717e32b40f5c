-- ===== src/Logstore/Write/Contiguous.antt =====
-- Batches of blocks, and lookups in the tables.
use ff_eth_logs.Base.{
  if◌then◌else◌, ◌==◌, map, refl, Bool, List, Option, filter, some, ℕ, ◌∷◌, append_assoc, [],
  append-nil, ◌≢◌, suc, arith, filter-append, none, length, ◌++◌, ◌<◌, ◌≤◌, ◌≡◌, ◌+◌,
}
use ff_eth_logs.Logstore.{Log, Block, Row, log_row, block_at, logs_at}
use ff_eth_logs.Logstore.Write.{hash_of, logs_match_blocks, insert_blocks, insert_logs}

-- The heights of the blocks run on from `first` without a gap.
abbrev pub Run : ℕ → List Block → Type 0
Run first [] = Unit
Run first (b ∷ bs) = (b.number ≡ first) × Run (suc first) bs

pub block_at-Run_below :
    (n first : ℕ) (bs : List Block) → Run first bs → n < first → block_at n bs ≡ none
unfolding block_at
block_at-Run_below n first [] r h = refl
block_at-Run_below n first (b ∷ bs) r h = ground (arith, block_at-Run_below n (suc first) bs r.1)

pub block_at-Run_above :
    (n first : ℕ) (bs : List Block) → Run first bs → first + length bs ≤ n → block_at n bs ≡ none
unfolding block_at
block_at-Run_above n first [] r h = refl
block_at-Run_above n first (b ∷ bs) r h = ground (arith, block_at-Run_above n (suc first) bs r.1)

pub block_at-Run_in :
    (n first : ℕ) (bs : List Block)
    → Run first bs
    → first ≤ n
    → n < first + length bs
    → block_at n bs ≢ none
unfolding block_at
block_at-Run_in n first [] r h k = absurd (omega arith)
block_at-Run_in n first (b ∷ bs) r h k = ground (arith, block_at-Run_in n (suc first) bs r.1)

-- In a run a height stands once, so the first and the last block of it are one.
pub hash_of-none : (n : ℕ) (bs : List Block) → block_at n bs ≡ none → hash_of n bs ≡ none
unfolding block_at hash_of
hash_of-none n [] h = refl
hash_of-none n (b ∷ bs) h = ground (arith, hash_of-none n bs)

-- No log of a matched batch lies at a height that the batch has no block for.
pub logs_match_blocks-none :
    (n : ℕ) (ls : List Log) (bs : List Block)
    → logs_match_blocks ls bs ≡ none
    → hash_of n bs ≡ none
    → filter (λ l. l.block_number == n) ls ≡ []
unfolding logs_match_blocks filter
logs_match_blocks-none n [] bs h e = refl
logs_match_blocks-none n (l ∷ ls) bs h e = ground (arith, logs_match_blocks-none n ls bs)

pub block_at-filter :
    (p : ℕ → Bool) (n : ℕ) (bs : List Block)
    → block_at n (filter (λ b. p b.number) bs) ≡ (if p n then block_at n bs else none)
unfolding block_at filter
block_at-filter p n [] = ground arith
block_at-filter p n (b ∷ bs) = ground (arith, block_at-filter p n bs)

abbrev pub or_else {ℓ} : {A : Type ℓ} → Option A → Option A → Option A
or_else none b = b
or_else (some a) b = some a

pub block_at-append :
    (n : ℕ) (xs ys : List Block) → block_at n (xs ++ ys) ≡ or_else (block_at n xs) (block_at n ys)
unfolding block_at
block_at-append n [] ys = refl
block_at-append n (x ∷ xs) ys = ground (arith, block_at-append n xs ys)

pub logs_at-filter :
    (p : ℕ → Bool) (n : ℕ) (rs : List Row)
    → logs_at n (filter (λ r. p r.block_number) rs) ≡ (if p n then logs_at n rs else [])
unfolding logs_at filter
logs_at-filter p n [] = ground arith
logs_at-filter p n (r ∷ rs) = ground (arith, logs_at-filter p n rs)

pub logs_at-append :
    (n : ℕ) (xs ys : List Row) → logs_at n (xs ++ ys) ≡ logs_at n xs ++ logs_at n ys
unfolding logs_at
logs_at-append n xs ys = filter-append _ xs ys

pub logs_at-log_row :
    (n : ℕ) (ls : List Log)
    → logs_at n (map log_row ls) ≡ map log_row (filter (λ l. l.block_number == n) ls)
unfolding logs_at log_row filter
logs_at-log_row n [] = refl
logs_at-log_row n (l ∷ ls) = ground (arith, logs_at-log_row n ls)

-- A COPY that violates no constraint appends its rows.
pub insert_blocks-some :
    (bs table table' : List Block) → insert_blocks bs table ≡ some table' → table' ≡ table ++ bs
unfolding insert_blocks
insert_blocks-some [] table table' h = ground (arith, append-nil table)
insert_blocks-some (b ∷ bs) table table' h =
    ground (arith, insert_blocks-some bs (table ++ (b ∷ [])) table', append_assoc table (b ∷ []) bs)

pub insert_logs-some :
    (partitions : List ℕ) (rs table table' : List Row)
    → insert_logs partitions rs table ≡ some table'
    → table' ≡ table ++ rs
unfolding insert_logs
insert_logs-some partitions [] table table' h = ground (arith, append-nil table)
insert_logs-some partitions (r ∷ rs) table table' h = ground (
  arith,
  insert_logs-some partitions rs (table ++ (r ∷ [])) table',
  append_assoc table (r ∷ []) rs,
)
