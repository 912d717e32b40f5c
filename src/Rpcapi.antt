-- ===== src/Rpcapi.antt =====
-- internal/rpcapi/api.go: the `eth` methods over one snapshot of the warehouse. go-ethereum's block
-- tags are parameters; the time limit of a read is one of the causes for which the store may fail.
pub mod Decode
pub mod Ranges
pub mod Served
pub mod Resolved
pub mod Answers
pub mod Server
pub mod Health
pub mod Examples
use ff_eth_logs.Base.{
  none, false, ℕ, ◌≡◌, Bool, true, not, ◌&&◌, ◌||◌, List, [], ◌∷◌, Option, some, String, length,
  ltb, if◌then◌else◌,
}
use ff_eth_logs.Base.Int.{ℤ, pos, negsuc, int_eq, int_lt}
use ff_eth_logs.Base.Exec.{Result, ok, err}
use ff_eth_logs.Base.Results.{◌>>=◌, ◌>>◌, fail_if, fail_with, or_fail}
use ff_eth_logs.Eventset.{Hash, Address, is_warehouse_signature}
use ff_eth_logs.Chain.{Log}
use ff_eth_logs.Logstore.{Block, Coverage, Database}
use ff_eth_logs.Logstore.Read.{
  Access, ReadError, Query, filter_logs, block_by_hash, read_coverage, read, maintenance,
  too_many_results,
}

-- The tags of go-ethereum's `rpc` package, as `Int64` gives them.
pub record BlockTags : Type 0 where
  pub latest : ℤ
  pub safe : ℤ
  pub finalized : ℤ
  pub earliest : ℤ
  pub pending : ℤ

-- `FilterCriteria`.
pub record Criteria : Type 0 where
  pub block_hash : Option Hash
  pub from_block : Option ℤ
  pub to_block : Option ℤ
  pub addresses : List Address
  pub topics : List (List Hash)
  pub erc1155_id : Option Hash

-- `Config`, less the time limit.
pub record Config : Type 0 where
  pub chain_id : ℕ
  pub max_results : ℕ

-- The reasons of a `ScopeError`.
pub data Reason : Type 0 where
  empty_warehouse under_maintenance no_signature safe_or_finalized : Reason
  not_a_signature : Hash → Reason
  outside_coverage : Block → Coverage → Reason
  above_head below_start : ℕ → ℕ → Coverage → Reason

pub data ApiError : Type 0 where
  scope : Reason → ApiError
  exceed_max_topics invalid_block_range unknown_block pending_unsupported negative_number : ApiError
  more_than : ℕ → ApiError
  store : ReadError → ApiError

abbrev pub max_topics : ℕ
max_topics = 4

-- `checkTopicScope`.
unfoldable pub foreign_signature : (String → Hash) → List Hash → Option Hash
unfolding is_warehouse_signature
foreign_signature keccak256 [] = none
foreign_signature keccak256 (sig ∷ sigs) =
    let rest = foreign_signature keccak256 sigs in
    if is_warehouse_signature keccak256 sig then rest else some sig

abbrev foreign_scope : Option Hash → Option ApiError
foreign_scope none = none
foreign_scope (some sig) = some (scope (not_a_signature sig))

unfoldable pub check_topic_scope : (String → Hash) → List (List Hash) → Option ApiError
unfolding foreign_signature
check_topic_scope keccak256 [] = some (scope no_signature)
check_topic_scope keccak256 ([] ∷ rest) = some (scope no_signature)
check_topic_scope keccak256 ((sig ∷ sigs) ∷ rest) =
    foreign_scope (foreign_signature keccak256 (sig ∷ sigs))

-- The default case of `resolveSpecial`.
abbrev pub plain_number : ℤ → Result ApiError ℕ
plain_number (pos n) = ok n
plain_number (negsuc n) = err negative_number

-- `resolveSpecial`.
unfoldable pub resolve_special : BlockTags → ℤ → ℕ → Result ApiError ℕ
resolve_special tags number head =
    if int_eq number tags.latest
    then ok head
    else if int_eq number tags.safe || int_eq number tags.finalized
    then err (scope safe_or_finalized)
    else if int_eq number tags.earliest
    then ok 0
    else plain_number number

abbrev pub or_tag : Option ℤ → ℤ → ℤ
or_tag none tag = tag
or_tag (some n) tag = n

abbrev pub query_of : Criteria → ℕ → ℕ → Query
query_of crit from to_block = record {
  from_block = from;
  to_block = to_block;
  addresses = crit.addresses;
  topics = crit.topics;
  erc1155_id = crit.erc1155_id;
}

-- The checks of `resolveRange` on the resolved ends; `none` is the empty answer.
abbrev pub inside : Criteria → Coverage → ℕ → ℕ → Result ApiError (Option Query)
inside crit cov from to_block =
    if ltb to_block from
    then ok none
    else if ltb cov.head from || ltb cov.head to_block
    then err (scope (above_head from to_block cov))
    else if ltb from cov.start
    then err (scope (below_start from to_block cov))
    else ok (some (query_of crit from to_block))

-- `resolveRange` of a filter without a block hash.
unfoldable pub resolve_numbers : BlockTags → Criteria → Coverage → Result ApiError (Option Query)
unfolding resolve_special
resolve_numbers tags crit cov = do
  let begin = or_tag crit.from_block tags.latest
  let end = or_tag crit.to_block tags.latest
  fail_if (int_lt (pos 0) begin && (int_lt (pos 0) end && int_lt end begin)) invalid_block_range
  fail_if (int_eq begin tags.pending || int_eq end tags.pending) pending_unsupported
  from ← resolve_special tags begin cov.head
  to_block ← resolve_special tags end cov.head
  inside crit cov from to_block

abbrev pub at_block : Criteria → Coverage → Block → Result ApiError (Option Query)
at_block crit cov b =
    if ltb b.number cov.start || ltb cov.head b.number
    then err (scope (outside_coverage b cov))
    else ok (some (query_of crit b.number b.number))

-- An error of the store as the API's.
abbrev pub lift {ℓ} : {A : Type ℓ} → Result ReadError A → Result ApiError A
lift (ok a) = ok a
lift (err e) = err (store e)

-- `resolveRange`.
unfoldable pub resolve_range :
    BlockTags → (Access → Bool) → Database → Criteria → Coverage → Result ApiError (Option Query)
unfolding resolve_numbers block_by_hash
resolve_range tags faults db crit cov = elim crit.block_hash [
  | none ↦ resolve_numbers tags crit cov
  | some h ↦ do
    found ← lift (block_by_hash faults h db)
    b ← or_fail found unknown_block
    at_block crit cov b
]

-- `scopeIfMaintenance`.
abbrev pub scope_if_maintenance {ℓ} : {A : Type ℓ} → Result ApiError A → Result ApiError A
scope_if_maintenance (ok a) = ok a
scope_if_maintenance (err (store maintenance)) = err (scope under_maintenance)
scope_if_maintenance (err e) = err e

-- The answer of the store to a query of at most `limit` logs.
abbrev pub capped : ℕ → Result ReadError (List Log) → Result ApiError (List Log)
capped limit (ok logs) = ok logs
capped limit (err too_many_results) = err (more_than limit)
capped limit (err e) = err (store e)

module _ (keccak256 : String → Hash) (tags : BlockTags) (config : Config) (faults : Access → Bool)
    (locked : Bool) where
  abbrev pub run_query : Database → Option Query → Result ApiError (List Log)
  run_query db none = ok []
  run_query db (some q) =
      capped config.max_results (filter_logs keccak256 faults q config.max_results db)

  -- What `GetLogs` does in its snapshot.
  unfoldable pub select_covered : Criteria → Database → Result ApiError (List Log)
  unfolding read_coverage resolve_range filter_logs
  select_covered crit db = do
    cursor ← lift (read_coverage faults db)
    cov ← or_fail cursor (scope empty_warehouse)
    query ← resolve_range tags faults db crit cov
    run_query db query

  -- `GetLogs`.
  unfoldable pub get_logs : Criteria → Database → Result ApiError (List Log)
  unfolding check_topic_scope read select_covered
  get_logs crit db = do
    fail_if (ltb max_topics (length crit.topics)) exceed_max_topics
    fail_with (check_topic_scope keccak256 crit.topics)
    scope_if_maintenance (read faults locked store (select_covered crit) db)

-- `coverage`.
unfoldable pub coverage : (Access → Bool) → Bool → Database → Result ApiError Coverage
unfolding read read_coverage
coverage faults locked db = scope_if_maintenance (
    read faults locked store
      (λ snapshot. do
        cursor ← lift (read_coverage faults snapshot)
        or_fail cursor (scope empty_warehouse))
      db)

-- `BlockNumber`.
unfoldable pub block_number : (Access → Bool) → Bool → Database → Result ApiError ℕ
unfolding coverage
block_number faults locked db = do cov ← coverage faults locked db; ok cov.head
