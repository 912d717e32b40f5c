-- ===== src/Logstore/Read/Refines.antt =====
-- `FilterLogs` against the logs that the tables hold: it answers the logs that the query asks for,
-- in chain order, or that there are too many.
use mathlib.Core.List.{Perm}
use ff_eth_logs.Base.{
  All-filter, zero, suc, ltb, some, if◌then◌else◌, ◌<◌, all-append, ◌+◌, ◌∷◌, Option, filter_congr,
  none, false, ℕ, ◌≤◌, ◌≡◌, ◌∙◌, ap, refl, sym, List, [], String, map, filter, length, Bool, true,
  arith, all,
}
use ff_eth_logs.Base.Sort.{sort_by, Ordered, sort_by-Perm, sort_by-Ordered, sort_by-map}
use ff_eth_logs.Base.Exec.{ok, err}
use ff_eth_logs.Eventset.{Hash}
use ff_eth_logs.Chain.{Log}
use ff_eth_logs.Logstore.{Database}
use ff_eth_logs.Logstore.Read.{
  address_any, Access, Query, Joined, join, row_before, scan_log, select_rows, filter_logs,
  build_filter, holds, names_columns, select_logs, too_many_results, topics_clauses, topic_clauses,
  append_if,
}
use ff_eth_logs.Logstore.Read.Spec.{matches}
use ff_eth_logs.Logstore.Read.Clauses.{build_filter-matches}
use ff_eth_logs.Logstore.Read.Rows.{
  IsStored, scan_log-log_row, IsStored, Stores, pair_of, log_before, log_before_asym,
  row_before-pair_of, join-Stores, filter-map, length-map, scan-filter, is_over, scan_rows-take,
}

module _ (keccak256 : String → Hash) (q : Query) (short : length q.topics ≤ 4) where
  abbrev passes : Joined → Bool
  passes x = all (holds keccak256 x.0) (build_filter keccak256 q)

  -- The selection, before the limit: the pairs of the logs asked for, in order.
  selected :
      (db : Database) (ls : List Log)
      → Stores db ls
      → sort_by row_before (filter passes (join db.blocks db.logs))
        ≡ map pair_of (sort_by log_before (filter (matches keccak256 q) ls))
  selected db ls h =
      let asked = λ (l : Log). build_filter-matches keccak256 q l short in
      rw
        (
          h.0,
          join-Stores db.blocks ls h.1,
          filter-map pair_of passes ls,
          filter_congr (λ l. passes (pair_of l)) (matches keccak256 q) ls asked,
        )
        (sort_by-map pair_of log_before row_before (IsStored db.blocks)
          (λ a b h k. row_before-pair_of a b h.2 k.2) (filter (matches keccak256 q) ls)
          (All-filter (IsStored db.blocks) (matches keccak256 q) ls h.1))

  -- Scanned, the pairs are the logs again.
  scanned :
      (db : Database) (ls : List Log)
      → Stores db ls
      → map scan_log (map pair_of (sort_by log_before (filter (matches keccak256 q) ls)))
        ≡ sort_by log_before (filter (matches keccak256 q) ls)
  scanned db ls h =
      let asked = filter (matches keccak256 q) ls in
      map_map (sort_by log_before asked)
      ∙ sym (
          sort_by-map (λ l. scan_log (pair_of l)) log_before log_before (IsStored db.blocks)
            (λ a b k l. rw (scan_log-log_row a k.0 k.2, scan_log-log_row b l.0 l.2) refl) asked
            (All-filter (IsStored db.blocks) (matches keccak256 q) ls h.1))
      ∙ ap (sort_by log_before) (scan-filter (matches keccak256 q) db.blocks ls h.1)
    where
      map_map : (ls : List Log) → map scan_log (map pair_of ls) ≡ map (λ l. scan_log (pair_of l)) ls
      map_map [] = refl
      map_map (l ∷ ls) = ap (scan_log (pair_of l) ∷◌) (map_map ls)

named_clauses :
    (keccak256 : String → Hash) (i : ℕ) (id : Option Hash) (sub : List Hash)
    → i < 4
    → all names_columns (topic_clauses keccak256 i id sub) ≡ true
unfolding topic_clauses all
named_clauses keccak256 i id [] h = refl
named_clauses keccak256 zero none (s ∷ ss) h = refl
named_clauses keccak256 zero (some id) (s ∷ ss) h = ground arith
named_clauses keccak256 (suc i) id (s ∷ ss) h = ground arith

named_topics :
    (keccak256 : String → Hash) (i : ℕ) (id : Option Hash) (subs : List (List Hash))
    → i + length subs ≤ 4
    → all names_columns (topics_clauses keccak256 i id subs) ≡ true
unfolding topics_clauses all
named_topics keccak256 i id [] h = refl
named_topics keccak256 i id (sub ∷ subs) h =
    rw
      (
        all-append names_columns (topic_clauses keccak256 i id sub)
            (topics_clauses keccak256 (suc i) id subs),
        named_clauses keccak256 i id sub (omega arith),
        named_topics keccak256 (suc i) id subs (omega arith),
      )
      refl

-- With at most four topic positions, the query names only columns that are there.
named :
    (keccak256 : String → Hash) (q : Query)
    → length q.topics ≤ 4
    → all names_columns (build_filter keccak256 q) ≡ true
unfolding build_filter all
named keccak256 q h =
    rw
      (
        all-append names_columns
            (append_if (ltb 0 (length q.addresses)) (address_any q.addresses) [])
            (topics_clauses keccak256 0 q.erc1155_id q.topics),
        named_topics keccak256 0 q.erc1155_id q.topics (omega arith),
      )
      (ground arith)

-- The logs that a query asks for, in chain order.
abbrev pub answer : (String → Hash) → Query → List Log → List Log
answer keccak256 q ls = sort_by log_before (filter (matches keccak256 q) ls)

pub answer-Ordered :
    (keccak256 : String → Hash) (q : Query) (ls : List Log)
    → Ordered log_before (answer keccak256 q ls)
      × Perm (answer keccak256 q ls) (filter (matches keccak256 q) ls)
answer-Ordered keccak256 q ls = (
  sort_by-Ordered log_before log_before_asym (filter (matches keccak256 q) ls),
  sort_by-Perm log_before (filter (matches keccak256 q) ls),
)

pub filter_logs_lem :
    (keccak256 : String → Hash) (faults : Access → Bool) (q : Query) (limit : ℕ) (db : Database)
    (ls : List Log)
    → length q.topics ≤ 4
    → faults select_logs ≡ false
    → Stores db ls
    → filter_logs keccak256 faults q limit db ≡ (
        if is_over limit (length (answer keccak256 q ls))
        then err too_many_results
        else ok (answer keccak256 q ls))
unfolding filter_logs select_rows
filter_logs_lem keccak256 faults q limit db ls short runs stored =
    let asked = answer keccak256 q ls in
    rw (named keccak256 q short, runs, selected keccak256 q short db ls stored)
      (rw
        (
          scan_rows-take limit (map pair_of asked),
          length-map pair_of asked,
          scanned keccak256 q short db ls stored,
        )
        refl)

-- On tables that hold the logs `ls`, a query with at most four topic positions answers, where the
-- database does not fail, a list of logs or that there are too many. The list is in chain order,
-- and it is the logs of `ls` that the query asks for, each as it was written and as often. There
-- are too many just if the list is longer than a limit above 0, so an answer is never a part.
pub filter_logs-answer :
    (keccak256 : String → Hash) (faults : Access → Bool) (q : Query) (limit : ℕ) (db : Database)
    (ls : List Log)
    → length q.topics ≤ 4
    → faults select_logs ≡ false
    → Stores db ls
    → (asked : List Log) × Ordered log_before asked
      × Perm asked (filter (matches keccak256 q) ls)
      × (filter_logs keccak256 faults q limit db
          ≡ (if is_over limit (length asked) then err too_many_results else ok asked))
filter_logs-answer keccak256 faults q limit db ls short runs stored =
    let order = answer-Ordered keccak256 q ls in
    (
      answer keccak256 q ls,
      order.0,
      order.1,
      filter_logs_lem keccak256 faults q limit db ls short runs stored,
    )
