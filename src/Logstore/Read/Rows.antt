-- ===== src/Logstore/Read/Rows.antt =====
-- Rows and logs: what a row says of the log that it was written for, and the scan of the rows.
use ff_eth_logs.Base.{
  ◌<◌, ◌∙◌, append-nil, ap, if◌then◌else◌, get_elem?, false, inl, inr, Bool-cases, ℕ, zero, suc,
  ◌+◌, ◌≤◌, ◌≡◌, refl, sym, List, [], ◌∷◌, ◌++◌, map, filter, take, length, All, some, ltb, ◌==◌,
  ◌&&◌, ◌||◌, Bool, true, arith, length-append, append_assoc,
}
use ff_eth_logs.Base.Int.{i32_bound, to_int32, to_uint, to_int32_small, to_uint-to_int32}
use ff_eth_logs.Base.Exec.{ok, err}
use ff_eth_logs.Chain.{Log}
use ff_eth_logs.Logstore.{Block, Database, log_row, block_at}
use ff_eth_logs.Logstore.Read.{
  Joined, join, row_before, scan_topics, scan_log, scan_rows, too_many_results,
}

-- The block row of a log.
abbrev pub block_of : Log → Block
block_of l = record { number = l.block_number; hash = l.block_hash; timestamp = l.block_timestamp }

abbrev pub pair_of : Log → Joined
pair_of l = (log_row l, block_of l)

-- The indices of a log fit a signed column of 32 bits.
abbrev pub IsIndexed : Log → Type 0
IsIndexed l = (l.index < i32_bound) × (l.tx_index < i32_bound)

-- A log that the tables hold whole: its block's row is there, and it has at most four topics and
-- indices that fit their columns.
abbrev pub IsStored : List Block → Log → Type 0
IsStored blocks l =
    (length l.topics ≤ 4) × (block_at l.block_number blocks ≡ some (block_of l)) × IsIndexed l

-- The tables hold these logs.
abbrev pub Stores : Database → List Log → Type 0
Stores db ls = (db.logs ≡ map log_row ls) × All (IsStored db.blocks) ls

-- A log with at most four topics, whose indices are below 2^31, comes back from its row and its block's
-- as it was written.
pub scan_log-log_row : (l : Log) → length l.topics ≤ 4 → IsIndexed l → scan_log (pair_of l) ≡ l
unfolding scan_log log_row scan_topics
scan_log-log_row l h k =
    ap
      (λ ts. record l {
        topics = ts;
        index = to_uint (to_int32 l.index);
        tx_index = to_uint (to_int32 l.tx_index);
      })
      (by_topics l.topics h)
    ∙ (ap (λ i. record l { index = i; tx_index = to_uint (to_int32 l.tx_index) })
          (to_uint-to_int32 l.index k.0)
        ∙ ap (λ i. record l { tx_index = i }) (to_uint-to_int32 l.tx_index k.1))
  where
    by_topics :
        (ts : List ℕ)
        → length ts ≤ 4
        → scan_topics (get_elem? ts 0 ∷ get_elem? ts 1 ∷ get_elem? ts 2 ∷ get_elem? ts 3 ∷ []) ≡ ts
    by_topics [] h = refl
    by_topics (a ∷ []) h = refl
    by_topics (a ∷ b ∷ []) h = refl
    by_topics (a ∷ b ∷ c ∷ []) h = refl
    by_topics (a ∷ b ∷ c ∷ d ∷ []) h = refl
    by_topics (a ∷ b ∷ c ∷ d ∷ e ∷ ts) h = absurd (omega arith)

pub join-Stores :
    (blocks : List Block) (ls : List Log)
    → All (IsStored blocks) ls
    → join blocks (map log_row ls) ≡ map pair_of ls
unfolding join log_row
join-Stores blocks [] h = refl
join-Stores blocks (l ∷ ls) h = rw (h.0.1, join-Stores blocks ls h.1) refl

-- Chain order.
abbrev pub log_before : Log → Log → Bool
log_before a b =
    ltb a.block_number b.block_number || (a.block_number == b.block_number && ltb a.index b.index)

pub log_before_asym : (a b : Log) → log_before a b ≡ true → log_before b a ≡ false
log_before_asym a b h = ground arith

pub row_before-pair_of :
    (a b : Log) → IsIndexed a → IsIndexed b → row_before (pair_of a) (pair_of b) ≡ log_before a b
unfolding log_row
row_before-pair_of a b h k = rw (to_int32_small a.index h.0, to_int32_small b.index k.0) refl

module _ {A B : Type 0} (f : A → B) where
  pub filter-map :
      (p : B → Bool) (xs : List A) → filter p (map f xs) ≡ map f (filter (λ x. p (f x)) xs)
  unfolding filter
  filter-map p [] = refl
  filter-map p (x ∷ xs) = ground (arith, filter-map p xs)

  pub length-map : (xs : List A) → length (map f xs) ≡ length xs
  length-map [] = refl
  length-map (x ∷ xs) = omega (arith, length-map xs)

-- What the filter keeps comes back from its rows as it was written.
pub scan-filter :
    (p : Log → Bool) (blocks : List Block) (ls : List Log)
    → All (IsStored blocks) ls
    → map (λ l. scan_log (pair_of l)) (filter p ls) ≡ filter p ls
unfolding filter
scan-filter p blocks [] h = refl
scan-filter p blocks (l ∷ ls) h =
    ground (arith, scan-filter p blocks ls h.1, scan_log-log_row l h.0.0 h.0.2)

-- Whether a count is over the limit.
abbrev pub is_over : ℕ → ℕ → Bool
is_over limit n = ltb 0 limit && ltb limit n

scan_rows_fits :
    (limit : ℕ) (rs : List Joined) (logs : List Log)
    → is_over limit (length logs + length rs) ≡ false
    → scan_rows limit rs logs ≡ ok (logs ++ map scan_log rs)
unfolding scan_rows
scan_rows_fits limit [] logs h = ap ok (sym (append-nil logs))
scan_rows_fits limit (r ∷ rs) logs h =
    let longer = length-append logs (scan_log r ∷ []) in
    let step : is_over limit (length (logs ++ (scan_log r ∷ []))) ≡ false =
      ground (arith, longer) in
    rw step (
      scan_rows_fits limit rs (logs ++ (scan_log r ∷ [])) (ground (arith, longer))
      ∙ ap ok (append_assoc logs (scan_log r ∷ []) (map scan_log rs)))

scan_rows_over :
    (limit : ℕ) (rs : List Joined) (logs : List Log)
    → is_over limit (length logs) ≡ false
    → is_over limit (length logs + length rs) ≡ true
    → scan_rows limit rs logs ≡ err too_many_results
unfolding scan_rows
scan_rows_over limit [] logs h k = absurd (ground arith)
scan_rows_over limit (r ∷ rs) logs h k =
    let longer = length-append logs (scan_log r ∷ []) in
    elim (Bool-cases (is_over limit (length (logs ++ (scan_log r ∷ []))))) [
      | inl over ↦ rw over refl
      | inr fits ↦
          rw fits
            (scan_rows_over limit rs (logs ++ (scan_log r ∷ [])) fits (ground (arith, longer)))
    ]

take_all : {A : Type 0} (n : ℕ) (xs : List A) → length xs ≤ n → take n xs ≡ xs
take_all zero [] h = refl
take_all zero (x ∷ xs) h = absurd (omega arith)
take_all (suc n) [] h = refl
take_all (suc n) (x ∷ xs) h = rw (take_all n xs (omega arith)) refl

length-take : {A : Type 0} (n : ℕ) (xs : List A) → n ≤ length xs → length (take n xs) ≡ n
length-take zero xs h = refl
length-take (suc n) [] h = absurd (omega arith)
length-take (suc n) (x ∷ xs) h = ap suc (length-take n xs (omega arith))

-- The scan of the rows that a limited query selects out of `rs`: one past the limit is enough to
-- tell that there are more.
pub scan_rows-take :
    (limit : ℕ) (rs : List Joined)
    → scan_rows limit (if ltb 0 limit then take (limit + 1) rs else rs) []
      ≡ (if is_over limit (length rs) then err too_many_results else ok (map scan_log rs))
scan_rows-take limit rs = elim (Bool-cases (is_over limit (length rs))) [
  | inr fits ↦ rw (fits, kept fits) (scan_rows_fits limit rs [] (ground arith))
  | inl over ↦
      let limited : ltb 0 limit ≡ true = ground (arith, over) in
      let long = length-take (limit + 1) rs (ground (arith, over)) in
      rw (over, limited)
        (scan_rows_over limit (take (limit + 1) rs) [] (ground arith) (ground (arith, long)))
]
  where
    kept :
        is_over limit (length rs) ≡ false → (if ltb 0 limit then take (limit + 1) rs else rs) ≡ rs
    kept fits = elim (Bool-cases (ltb 0 limit)) [
      | inl some_limit ↦ rw some_limit (take_all (limit + 1) rs (ground arith))
      | inr no_limit ↦ rw no_limit refl
    ]
