-- ===== src/Rpcapi/Answers.antt =====
-- What an answer of eth_getLogs is worth: the stored logs that the filter asks for, of a range inside
-- the coverage, and when there is one.
use ff_eth_logs.Base.{
  filter, ◌∙◌, ◌↔◌, none, false, inl, inr, ℕ, ◌≤◌, ◌<◌, ◌≡◌, ◌⊎◌, refl, sym, ap, List, [], ◌∷◌,
  String, length, All, some, Bool, true, arith, if◌then◌else◌, Bool-cases, Option-cases, Option,
}
use ff_eth_logs.Base.Sort.{sort_by}
use ff_eth_logs.Logstore.Read.Rows.{log_before}
use ff_eth_logs.Logstore.Read.Spec.{matches}
use ff_eth_logs.Base.Exec.{Result-cases, Result, ok, err}
use ff_eth_logs.Eventset.{Hash, is_warehouse_signature}
use ff_eth_logs.Chain.{Log}
use ff_eth_logs.Logstore.{Coverage, Database}
use ff_eth_logs.Logstore.Read.{
  commit, maintenance_flag, maintenance_check, open_snapshot, select_block, select_cursor,
  too_many_results, Access, filter_logs, read, read_coverage, select_logs, Query,
}
use ff_eth_logs.Logstore.Read.Rows.{Stores, is_over}
use ff_eth_logs.Logstore.Read.Refines.{answer, filter_logs_lem}
use ff_eth_logs.Rpcapi.{
  store, scope_if_maintenance, capped, BlockTags, Criteria, Config, ApiError, foreign_signature,
  check_topic_scope, query_of, resolve_range, run_query, select_covered, get_logs, more_than,
  inside,
}
use ff_eth_logs.Rpcapi.Resolved.{GoTags, resolve_range-inside}
use ff_eth_logs.Rpcapi.Ranges.{Designates, Inside, resolve_range-Resolved}

-- The first position names signatures, and each of them is one of the event set.
abbrev pub NamesSignatures : (String → Hash) → List (List Hash) → Type 0
NamesSignatures keccak256 [] = ⊥
NamesSignatures keccak256 ([] ∷ rest) = ⊥
NamesSignatures keccak256 ((sig ∷ sigs) ∷ rest) =
    All (λ h. is_warehouse_signature keccak256 h ≡ true) (sig ∷ sigs)

foreign_signature-none :
    (keccak256 : String → Hash) (sigs : List Hash)
    → (foreign_signature keccak256 sigs ≡ none)
      ↔ All (λ h. is_warehouse_signature keccak256 h ≡ true) sigs
unfolding foreign_signature
foreign_signature-none keccak256 [] = (λ h. tt, λ h. refl)
foreign_signature-none keccak256 (sig ∷ sigs) = (
  λ h. (ground (arith, h), (foreign_signature-none keccak256 sigs).0 (ground (arith, h))),
  λ h. ground (arith, h.0, (foreign_signature-none keccak256 sigs).1 h.1),
)

check_topic_scope-none :
    (keccak256 : String → Hash) (topics : List (List Hash))
    → (check_topic_scope keccak256 topics ≡ none) ↔ NamesSignatures keccak256 topics
unfolding check_topic_scope
check_topic_scope-none keccak256 [] = (λ h. cc h, λ h. absurd h)
check_topic_scope-none keccak256 ([] ∷ rest) = (λ h. cc h, λ h. absurd h)
check_topic_scope-none keccak256 ((sig ∷ sigs) ∷ rest) =
    let named = foreign_signature-none keccak256 (sig ∷ sigs) in
    (λ h. named.0 (ground (arith, h)), λ h. rw (named.1 h) refl)

-- Of a range whose end is below its start there is nothing to answer.
answer_empty :
    (keccak256 : String → Hash) (crit : Criteria) (from to_block : ℕ) (ls : List Log)
    → to_block < from
    → answer keccak256 (query_of crit from to_block) ls ≡ []
unfolding sort_by filter matches
answer_empty keccak256 crit from to_block ls h = ap (sort_by log_before) (nothing ls)
  where
    nothing : (ls : List Log) → filter (matches keccak256 (query_of crit from to_block)) ls ≡ []
    nothing [] = refl
    nothing (l ∷ ls) = ground (arith, nothing ls)

-- The outcome of a limited selection of `logs` as the API gives it.
abbrev pub within : ℕ → List Log → Result ApiError (List Log)
within limit logs = if is_over limit (length logs) then err (more_than limit) else ok logs

capped-within :
    (limit : ℕ) (logs : List Log)
    → capped limit (if is_over limit (length logs) then err too_many_results else ok logs)
      ≡ within limit logs
capped-within limit logs = ground arith

within_ok :
    (limit : ℕ) (asked logs : List Log)
    → within limit asked ≡ ok logs
    → (logs ≡ asked) × (is_over limit (length logs) ≡ false)
within_ok limit asked logs h = elim (Bool-cases (is_over limit (length asked))) [
  | inl e ↦ absurd (ground (arith, e))
  | inr e ↦ (ground (arith, e), ground (arith, e))
]

scope-within :
    (limit : ℕ) (logs : List Log) → scope_if_maintenance (within limit logs) ≡ within limit logs
scope-within limit logs = ground arith

-- With nothing in its way, a read is its body.
read_open :
    (faults : Access → Bool) (locked : Bool) (db : Database)
    → ((a : Access) → faults a ≡ false)
    → locked ≡ false
    → db.maintenance ≡ false
    → (body : Database → Result ApiError (List Log)) → read faults locked store body db ≡ body db
unfolding read
read_open faults locked db runs free clean body =
    let opened = runs open_snapshot in
    let checked = runs maintenance_check in
    let flagged = runs maintenance_flag in
    let committed = runs commit in
    elim (Result-cases (body db)) [ inl (logs, e) ↦ ground arith | inr (x, e) ↦ ground arith ]

module _ (keccak256 : String → Hash) (tags : BlockTags) (config : Config) (faults : Access → Bool)
    (locked : Bool) where
  -- An answer passed every check: that the filter names signatures of the event set, that there is
  -- no maintenance, and that there is a coverage.
  get_logs_ok :
      (crit : Criteria) (db : Database) (logs : List Log)
      → get_logs keccak256 tags config faults locked crit db ≡ ok logs
      → (length crit.topics ≤ 4)
        × (check_topic_scope keccak256 crit.topics ≡ none)
        × (locked ≡ false)
        × (db.maintenance ≡ false)
        × (select_covered keccak256 tags config faults locked crit db ≡ ok logs)
  unfolding get_logs read
  get_logs_ok crit db logs h =
      (ground arith, ground arith, ground arith, ground arith, ground arith)

  select_covered_ok :
      (crit : Criteria) (db : Database) (logs : List Log)
      → select_covered keccak256 tags config faults locked crit db ≡ ok logs
      → (cov : Coverage) × (q : Option Query) × (db.cursor ≡ some cov)
        × (resolve_range tags faults db crit cov ≡ ok q)
        × (run_query keccak256 tags config faults locked db q ≡ ok logs)
  unfolding select_covered read_coverage
  select_covered_ok crit db logs h = elim (Option-cases db.cursor) [
    | inl e ↦ absurd (ground (arith, e))
    | inr (cov, e) ↦ elim (Result-cases (resolve_range tags faults db crit cov)) [
      | inr (x, f) ↦ absurd (ground (arith, e, f))
      | inl (q, f) ↦ (cov, q, e, f, ground (arith, e, f))
    ]
  ]

  covered_run :
      (crit : Criteria) (db : Database) (cov : Coverage) (q : Option Query)
      → faults select_cursor ≡ false
      → db.cursor ≡ some cov
      → resolve_range tags faults db crit cov ≡ ok q
      → select_covered keccak256 tags config faults locked crit db
        ≡ run_query keccak256 tags config faults locked db q
  unfolding select_covered read_coverage
  covered_run crit db cov q runs cursor resolved = ground (arith, runs, cursor, resolved)

  module _ (crit : Criteria) (db : Database) (ls : List Log) (stored : Stores db ls) where
    run_query-within :
        (q : Query)
        → length q.topics ≤ 4
        → faults select_logs ≡ false
        → run_query keccak256 tags config faults locked db (some q)
          ≡ within config.max_results (answer keccak256 q ls)
    run_query-within q short runs =
        ap (capped config.max_results)
          (filter_logs_lem keccak256 faults q config.max_results db ls short runs stored)
        ∙ capped-within config.max_results (answer keccak256 q ls)

    run_query_ok :
        (q : Query) (logs : List Log)
        → length q.topics ≤ 4
        → run_query keccak256 tags config faults locked db (some q) ≡ ok logs
        → (logs ≡ answer keccak256 q ls) × (is_over config.max_results (length logs) ≡ false)
    unfolding filter_logs
    run_query_ok q logs short h = elim (Bool-cases (faults select_logs)) [
      | inl e ↦ absurd (ground (arith, e))
      | inr e ↦
          within_ok config.max_results (answer keccak256 q ls) logs
            (sym (run_query-within q short e) ∙ h)
    ]

    -- What the outcome of `resolveRange` comes to.
    outcome_ok :
        (cov : Coverage) (from to_block : ℕ) (q : Option Query) (logs : List Log)
        → length crit.topics ≤ 4
        → (((q ≡ none) × (to_block < from))
            ⊎ ((q ≡ some (query_of crit from to_block)) × Inside cov from to_block))
        → run_query keccak256 tags config faults locked db q ≡ ok logs
        → ((to_block < from) ⊎ Inside cov from to_block)
          × (logs ≡ answer keccak256 (query_of crit from to_block) ls)
          × (is_over config.max_results (length logs) ≡ false)
    outcome_ok cov from to_block q logs few (inl (e, low)) run =
        let gone : logs ≡ [] = ground (arith, e) in
        (
          inl low,
          gone ∙ sym (answer_empty keccak256 crit from to_block ls low),
          rw gone (ground arith),
        )
    outcome_ok cov from to_block q logs few (inr (e, within_coverage)) run =
        let found =
          run_query_ok (query_of crit from to_block) logs few
            (ap (run_query keccak256 tags config faults locked db) (sym e) ∙ run) in
        (inr within_coverage, found.0, found.1)

    -- An answer of `GetLogs` over tables that hold the logs `ls` is given only to a filter of at
    -- most four positions that names signatures of the event set, when there is no maintenance. It
    -- is about the heights that the filter designates, which lie inside the coverage or are none,
    -- and it is exactly the logs of `ls` that the filter asks for there, in chain order, and not
    -- more than a limit above 0.
    pub get_logs-covered :
        (logs : List Log)
        → get_logs keccak256 tags config faults locked crit db ≡ ok logs
        → (length crit.topics ≤ 4)
          × NamesSignatures keccak256 crit.topics
          × (locked ≡ false)
          × (db.maintenance ≡ false)
          × ((cov : Coverage) × (from : ℕ) × (to_block : ℕ) × (db.cursor ≡ some cov)
              × Designates tags db cov crit from to_block
              × ((to_block < from) ⊎ Inside cov from to_block)
              × (logs ≡ answer keccak256 (query_of crit from to_block) ls)
              × (is_over config.max_results (length logs) ≡ false))
    get_logs-covered logs h =
        let (few, named, free, clean, selected) = get_logs_ok crit db logs h in
        let (cov, q, cursor, resolved, run) = select_covered_ok crit db logs selected in
        let (from, to_block, designated, outcome) =
          resolve_range-Resolved tags faults db crit cov q resolved in
        let found = outcome_ok cov from to_block q logs few outcome run in
        (
          few,
          (check_topic_scope-none keccak256 crit.topics).0 named,
          free,
          clean,
          (cov, from, to_block, cursor, designated, found.0, found.1, found.2),
        )

    -- A filter that passes the checks is answered from a snapshot.
    passed :
        {answered : Result ApiError (List Log)}
        → length crit.topics ≤ 4
        → NamesSignatures keccak256 crit.topics
        → scope_if_maintenance
            (read faults locked store (select_covered keccak256 tags config faults locked crit) db)
          ≡ answered
        → get_logs keccak256 tags config faults locked crit db ≡ answered
    unfolding get_logs
    passed few named h =
        let scoped = (check_topic_scope-none keccak256 crit.topics).1 named in
        ground (arith, scoped, h)

    -- Over tables that hold the logs `ls`, where the database does not fail and there is no
    -- maintenance, `GetLogs` answers a filter of at most four positions that names signatures of
    -- the event set and designates a range inside the coverage: with the logs of `ls` that it asks
    -- for, in chain order, or with an error that says that they are more than the limit.
    pub get_logs-serves :
        (cov : Coverage) (from to_block : ℕ)
        → GoTags tags
        → ((a : Access) → faults a ≡ false)
        → locked ≡ false
        → db.maintenance ≡ false
        → db.cursor ≡ some cov
        → length crit.topics ≤ 4
        → NamesSignatures keccak256 crit.topics
        → Designates tags db cov crit from to_block
        → Inside cov from to_block
        → get_logs keccak256 tags config faults locked crit db
          ≡ within config.max_results (answer keccak256 (query_of crit from to_block) ls)
    get_logs-serves cov from to_block go runs free clean cursor few named designated inside =
        let resolved =
          resolve_range-inside tags go crit cov from to_block inside faults db (runs select_block)
            designated in
        let run = run_query-within (query_of crit from to_block) few (runs select_logs) in
        passed few named (
          ap scope_if_maintenance (
            read_open faults locked db runs free clean
              (select_covered keccak256 tags config faults locked crit)
            ∙ covered_run crit db cov (some (query_of crit from to_block)) (runs select_cursor)
                cursor resolved
            ∙ run)
          ∙ scope-within config.max_results (answer keccak256 (query_of crit from to_block) ls))
