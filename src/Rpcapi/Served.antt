-- ===== src/Rpcapi/Served.antt =====
-- From the provider's chain through the tables to eth_getLogs: what an answer says of the heights that
-- were ingested.
use ff_eth_logs.Base.Int.{int_lt}
use ff_eth_logs.Base.{
  ◌∷◌, All-filter, All, some, ℕ, ◌≡◌, ◌≤◌, ◌==◌, ◌&&◌, ◌||◌, ltb, Bool, false, List, String, map,
  filter, filter_congr, length, [], ◌∷◌, all, ap, sym, ◌∙◌, refl, arith,
}
use ff_eth_logs.Base.Sort.{sort_by, sort_by-map, Ordered}
use ff_eth_logs.Base.Sort.Filter.{filter-sort_by}
use ff_eth_logs.Base.Exec.{ok}
use ff_eth_logs.Eventset.{Hash, keep}
use ff_eth_logs.Chain.{Log}
use ff_eth_logs.Logstore.{Coverage, Database, Row, log_row, logs_at}
use ff_eth_logs.Logstore.Read.{Access, Query, build_filter, holds}
use ff_eth_logs.Logstore.Read.Spec.{matches}
use ff_eth_logs.Logstore.Read.Clauses.{build_filter-matches}
use ff_eth_logs.Base.Int.{to_int32_small}
use ff_eth_logs.Logstore.{Block}
use ff_eth_logs.Logstore.Read.Rows.{
  IsIndexed, IsStored, Stores, log_before, log_before_asym, filter-map,
}
use ff_eth_logs.Logstore.Read.Refines.{answer, answer-Ordered}
use ff_eth_logs.Ingestion.Fetcher.Chain.{IsChain, sort_by-InOrder, filter-InOrder}
use ff_eth_logs.Ingestion.Warehouse.Complete.{HoldsChain, filter_swap}
use ff_eth_logs.Rpcapi.{BlockTags, Criteria, Config, query_of, get_logs}
use ff_eth_logs.Rpcapi.Ranges.{Designates}
use ff_eth_logs.Rpcapi.Answers.{get_logs-covered}

-- Chain order on the columns.
abbrev above : Row → Row → Bool
above a b =
    ltb a.block_number b.block_number
    || (a.block_number == b.block_number && int_lt a.log_index b.log_index)

above-log_row :
    (a b : Log) → IsIndexed a → IsIndexed b → above (log_row a) (log_row b) ≡ log_before a b
unfolding log_row
above-log_row a b h k = rw (to_int32_small a.index h.0, to_int32_small b.index k.0) refl

IsStored-IsIndexed :
    (blocks : List Block) (ls : List Log) → All (IsStored blocks) ls → All IsIndexed ls
IsStored-IsIndexed blocks [] h = tt
IsStored-IsIndexed blocks (l ∷ ls) h = (h.0.2, IsStored-IsIndexed blocks ls h.1)

log_before_connected :
    (a b c : Log) → log_before c b ≡ false → log_before b a ≡ false → log_before c a ≡ false
log_before_connected a b c h k = ground arith

module _ (keccak256 : String → Hash) (q : Query) where
  abbrev asked_rows : List Row → List Row
  asked_rows rs =
      sort_by above (filter (λ r. all (holds keccak256 r) (build_filter keccak256 q)) rs)

  answer_at :
      (n : ℕ) (ls : List Log)
      → filter (λ l. l.block_number == n) (answer keccak256 q ls)
        ≡ answer keccak256 q (filter (λ l. l.block_number == n) ls)
  answer_at n ls =
      filter-sort_by log_before log_before_asym log_before_connected (λ l. l.block_number == n)
        (filter (matches keccak256 q) ls)
      ∙ ap (sort_by log_before) (filter_swap (λ l. l.block_number == n) (matches keccak256 q) ls)

  module _ (short : length q.topics ≤ 4) where
    -- The rows of an answer are selected by the rows.
    map-answer :
        (ls : List Log)
        → All IsIndexed ls
        → map log_row (answer keccak256 q ls) ≡ asked_rows (map log_row ls)
    map-answer ls indexed =
        sym (
          sort_by-map log_row log_before above IsIndexed (λ a b h k. above-log_row a b h k)
            (filter (matches keccak256 q) ls)
            (All-filter IsIndexed (matches keccak256 q) ls indexed))
        ∙ ap (sort_by above) (
            sym (
              filter-map log_row (λ r. all (holds keccak256 r) (build_filter keccak256 q)) ls
              ∙ ap (map log_row) (
                  filter_congr (λ l. all (holds keccak256 (log_row l)) (build_filter keccak256 q))
                    (matches keccak256 q) ls (λ l. build_filter-matches keccak256 q l short))))

    -- The answer at one height of tables that hold a chain there.
    answer-HoldsChain :
        (blocks : ℕ → List Log) (first last n : ℕ) (db : Database) (ls : List Log)
        → IsChain blocks
        → All IsIndexed (blocks n)
        → Stores db ls
        → HoldsChain keccak256 blocks first last db
        → first ≤ n
        → n ≤ last
        → map log_row (filter (λ l. l.block_number == n) (answer keccak256 q ls))
          ≡ map log_row (
              filter
                (matches keccak256 q)
                (filter (λ l. keep keccak256 l.topics l.address) (blocks n)))
    unfolding logs_at log_row
    answer-HoldsChain blocks first last n db ls chain indexed stored held low high =
        let keeps : Log → Bool = λ l. keep keccak256 l.topics l.address in
        let at_height : Log → Bool = λ l. l.block_number == n in
        let kept = filter (λ l. keep keccak256 l.topics l.address) (blocks n) in
        let in_order =
          filter-InOrder (λ l. keep keccak256 l.topics l.address) (blocks n) (chain.in_order n) in
        let rows =
          sym (filter-map log_row (λ r. r.block_number == n) ls)
          ∙ (ap (logs_at n) (sym stored.0) ∙ held n low high) in
        ap (map log_row) (answer_at n ls)
        ∙ (map-answer (filter at_height ls)
              (All-filter IsIndexed at_height ls (IsStored-IsIndexed db.blocks ls stored.1))
            ∙ (ap asked_rows rows
                ∙ (sym (map-answer kept (All-filter IsIndexed keeps (blocks n) indexed))
                    ∙ ap (map log_row) (
                        sort_by-InOrder (filter (matches keccak256 q) kept)
                          (filter-InOrder (matches keccak256 q) kept in_order)))))

-- Let the tables hold the logs `ls`, and at the heights from `first` to `last` the rows of the logs
-- of a chain that the warehouse keeps, their indices below 2^31. An answer of `GetLogs` is then in chain order, and at each of
-- these heights its logs have the rows of exactly those of the chain's kept logs that the filter
-- asks for in the range that it designates.
pub get_logs-HoldsChain :
    (keccak256 : String → Hash) (tags : BlockTags) (config : Config) (faults : Access → Bool)
    (locked : Bool) (crit : Criteria) (db : Database) (ls : List Log) (blocks : ℕ → List Log)
    (first last : ℕ) (logs : List Log)
    → IsChain blocks
    → ((n : ℕ) → first ≤ n → n ≤ last → All IsIndexed (blocks n))
    → Stores db ls
    → HoldsChain keccak256 blocks first last db
    → get_logs keccak256 tags config faults locked crit db ≡ ok logs
    → Ordered log_before logs
      × ((cov : Coverage) × (from : ℕ) × (to_block : ℕ) × (db.cursor ≡ some cov)
          × Designates tags db cov crit from to_block
          × ((n : ℕ)
              → first ≤ n
              → n ≤ last
              → map log_row (filter (λ l. l.block_number == n) logs)
                ≡ map log_row (
                    filter
                      (matches keccak256 (query_of crit from to_block))
                      (filter (λ l. keep keccak256 l.topics l.address) (blocks n)))))
get_logs-HoldsChain keccak256 tags config faults locked crit db ls blocks first last logs chain
      indexed stored held h =
    let covered = get_logs-covered keccak256 tags config faults locked crit db ls stored logs h in
    let (few, named, free, clean, found) = covered in
    let (cov, from, to_block, cursor, designated, within, e, fits) = found in
    let q = query_of crit from to_block in
    (
      rw e (answer-Ordered keccak256 q ls).0,
      (
        cov,
        from,
        to_block,
        cursor,
        designated,
        λ n low high.
            ap (λ found. map log_row (filter (λ l. l.block_number == n) found)) e
            ∙ answer-HoldsChain keccak256 q few blocks first last n db ls chain (indexed n low high)
                stored held low high,
      ),
    )
