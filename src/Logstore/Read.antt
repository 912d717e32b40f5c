-- ===== src/Logstore/Read.antt =====
-- internal/logstore/reader.go: the query that `FilterLogs` builds, as the conditions of its WHERE
-- clause, what PostgreSQL answers to it, and the other reads. A query may fail for a cause outside
-- the model, which `faults` chooses. Heights fit int64, so the casts to it change nothing.
pub mod Rows
pub mod Spec
pub mod Clauses
pub mod Refines
use ff_eth_logs.Base.Int.{int_lt, to_uint}
use ff_eth_logs.Base.{
  get_elem?, String, ℕ, zero, suc, ◌+◌, ◌*◌, ◌/◌, ◌%◌, ◌<◌, ◌≡◌, Bool, true, false, not, ◌&&◌, ◌||◌,
  List, [], ◌∷◌, ◌++◌, Option, none, some, map, filter, any, all, take, length, elem, ltb, leb,
  ◌==◌, if◌then◌else◌,
}
use ff_eth_logs.Base.Sort.{sort_by}
use ff_eth_logs.Base.Exec.{Result, ok, err}
use ff_eth_logs.Base.Results.{◌>>=◌, ◌>>◌, fail_if, or_fail}
use ff_eth_logs.Eventset.{Hash, Address, transfer_single, uri}
use ff_eth_logs.Chain.{Log}
use ff_eth_logs.Logstore.{Block, Coverage, Row, Database, block_at, between}

pub record Query : Type 0 where
  pub from_block : ℕ
  pub to_block : ℕ
  pub addresses : List Address
  pub topics : List (List Hash)
  pub erc1155_id : Option Hash

pub data ReadError : Type 0 where
  too_many_results maintenance failed : ReadError

-- The reads that may fail for a cause outside the model.
pub data Access : Type 0 where
  open_snapshot maintenance_check maintenance_flag commit select_cursor select_logs select_block :
      Access

-- The alternatives of the clause for a token id.
pub data Arm : Type 0 where
  -- (l.topic0 = TransferSingle AND substring(l.data from 1 for 32) = $n)
  transfer_single_of : Hash → Arm
  -- (l.topic0 = URI AND l.topic1 = $n)
  uri_of : Hash → Arm
  -- l.topic0 = ANY($n)
  other_signatures : List Hash → Arm

pub data Condition : Type 0 where
  -- l.block_number BETWEEN $1 AND $2
  block_between : ℕ → ℕ → Condition
  -- l.address = ANY($n)
  address_any : List Address → Condition
  -- l.topic<i> = ANY($n)
  topic_any : ℕ → List Hash → Condition
  -- (... OR ...)
  one_of : List Arm → Condition

-- The last `n` bytes of a number, the most significant first.
unfoldable pub to_bytes : ℕ → ℕ → List ℕ
to_bytes zero h = []
to_bytes (suc n) h = to_bytes n (h / 256) ++ (h % 256 ∷ [])

-- Whether two byte strings are one.
unfoldable pub same_bytes : List ℕ → List ℕ → Bool
same_bytes [] [] = true
same_bytes [] (y ∷ ys) = false
same_bytes (x ∷ xs) [] = false
same_bytes (x ∷ xs) (y ∷ ys) = x == y && same_bytes xs ys

-- substring(data from 1 for 32) = id
unfoldable pub first_word_is : List ℕ → Hash → Bool
unfolding to_bytes same_bytes
first_word_is bytes id = same_bytes (take 32 bytes) (to_bytes 32 id)

abbrev pub append_if {ℓ} : {A : Type ℓ} → Bool → A → List A → List A
append_if b x xs = if b then x ∷ xs else xs

module _ (keccak256 : String → Hash) where
  -- The `switch` over a requested signature.
  abbrev pub is_other : Hash → Bool
  is_other h = not (h == transfer_single keccak256) && not (h == uri keccak256)

  abbrev pub is_uri : Hash → Bool
  is_uri h = not (h == transfer_single keccak256) && h == uri keccak256

  unfoldable pub token_arms : Hash → List Hash → List Arm
  unfolding filter any
  token_arms id sub =
      let others = filter is_other sub in
      append_if (any (λ h. h == transfer_single keccak256) sub) (transfer_single_of id) (
        append_if (any is_uri sub) (uri_of id)
          (append_if (ltb 0 (length others)) (other_signatures others) []))

  -- The clauses of one topic position.
  unfoldable pub topic_clauses : ℕ → Option Hash → List Hash → List Condition
  unfolding token_arms
  topic_clauses i id [] = []
  topic_clauses zero (some id) (h ∷ sub) =
      let arms = token_arms id (h ∷ sub) in append_if (ltb 0 (length arms)) (one_of arms) []
  topic_clauses zero none (h ∷ sub) = topic_any 0 (h ∷ sub) ∷ []
  topic_clauses (suc i) id (h ∷ sub) = topic_any (suc i) (h ∷ sub) ∷ []

  unfoldable pub topics_clauses : ℕ → Option Hash → List (List Hash) → List Condition
  unfolding topic_clauses
  topics_clauses i id [] = []
  topics_clauses i id (sub ∷ rest) = topic_clauses i id sub ++ topics_clauses (suc i) id rest

  -- The WHERE clause of `buildFilter`.
  unfoldable pub build_filter : Query → List Condition
  unfolding topics_clauses
  build_filter q =
      block_between q.from_block q.to_block
      ∷ (append_if (ltb 0 (length q.addresses)) (address_any q.addresses) []
          ++ topics_clauses 0 q.erc1155_id q.topics)

-- The topic columns.
abbrev pub columns : Row → List (Option Hash)
columns r = r.topic0 ∷ r.topic1 ∷ r.topic2 ∷ r.topic3 ∷ []

-- A comparison with NULL is not true.
abbrev pub is_any : List Hash → Option Hash → Bool
is_any hs none = false
is_any hs (some h) = elem h hs

abbrev pub is_named : List Hash → Option (Option Hash) → Bool
is_named hs none = false
is_named hs (some column) = is_any hs column

module _ (keccak256 : String → Hash) where
  unfoldable pub arm_holds : Row → Arm → Bool
  unfolding elem first_word_is
  arm_holds r (transfer_single_of id) =
      is_any (transfer_single keccak256 ∷ []) r.topic0 && first_word_is r.bytes id
  arm_holds r (uri_of id) = is_any (uri keccak256 ∷ []) r.topic0 && is_any (id ∷ []) r.topic1
  arm_holds r (other_signatures hs) = is_any hs r.topic0

  unfoldable pub holds : Row → Condition → Bool
  unfolding elem arm_holds any
  holds r (block_between lo hi) = between lo hi r.block_number
  holds r (address_any addresses) = elem r.address addresses
  holds r (topic_any i hs) = is_named hs (get_elem? (columns r) i)
  holds r (one_of arms) = any (arm_holds r) arms

-- A statement that names a column that is not there is refused.
abbrev pub names_columns : Condition → Bool
names_columns (topic_any i hs) = ltb i 4
names_columns (block_between lo hi) = true
names_columns (address_any addresses) = true
names_columns (one_of arms) = true

-- `FROM eth_logs l JOIN eth_blocks b ON b.number = l.block_number`; the number is a primary key.
abbrev pub Joined : Type 0
Joined = Row × Block

abbrev pub with_block : Row → Option Block → List Joined
with_block r none = []
with_block r (some b) = (r, b) ∷ []

unfoldable pub join : List Block → List Row → List Joined
unfolding block_at
join blocks [] = []
join blocks (r ∷ rs) = with_block r (block_at r.block_number blocks) ++ join blocks rs

-- ORDER BY l.block_number, l.log_index
abbrev pub row_before : Joined → Joined → Bool
row_before (a, _) (b, _) =
    ltb a.block_number b.block_number
    || (a.block_number == b.block_number && int_lt a.log_index b.log_index)

-- The topics up to the first NULL column.
unfoldable pub scan_topics : List (Option Hash) → List Hash
scan_topics [] = []
scan_topics (none ∷ rest) = []
scan_topics (some h ∷ rest) = h ∷ scan_topics rest

-- `scanLog`.
unfoldable pub scan_log : Joined → Log
unfolding scan_topics to_uint
scan_log (r, b) = record {
  address = r.address;
  topics = scan_topics (columns r);
  bytes = r.bytes;
  block_number = r.block_number;
  tx_hash = r.tx_hash;
  tx_index = to_uint r.tx_index;
  block_hash = b.hash;
  block_timestamp = b.timestamp;
  index = to_uint r.log_index;
}

-- The loop over the rows, with the logs so far.
unfoldable pub scan_rows : ℕ → List Joined → List Log → Result ReadError (List Log)
unfolding scan_log
scan_rows limit [] logs = ok logs
scan_rows limit (r ∷ rs) logs =
    let more = logs ++ (scan_log r ∷ []) in
    let rest = scan_rows limit rs more in
    if ltb 0 limit && ltb limit (length more) then err too_many_results else rest

-- What the query selects; a limit of 0 is none.
unfoldable pub select_rows : (String → Hash) → Query → ℕ → Database → List Joined
unfolding join build_filter holds all filter sort_by
select_rows keccak256 q limit db =
    let passes : Joined → Bool = λ (r, _). all (holds keccak256 r) (build_filter keccak256 q) in
    let sorted = sort_by row_before (filter passes (join db.blocks db.logs)) in
    if ltb 0 limit then take (limit + 1) sorted else sorted

-- `FilterLogs`.
unfoldable pub filter_logs :
    (String → Hash) → (Access → Bool) → Query → ℕ → Database → Result ReadError (List Log)
unfolding build_filter all select_rows scan_rows
filter_logs keccak256 faults q limit db = do
  fail_if (not (all names_columns (build_filter keccak256 q))) failed
  fail_if (faults select_logs) failed
  scan_rows limit (select_rows keccak256 q limit db) []

-- `BlockByHash`: a row with the hash, if there is one.
unfoldable pub with_hash : Hash → List Block → Option Block
with_hash h [] = none
with_hash h (b ∷ bs) = if b.hash == h then some b else with_hash h bs

unfoldable pub block_by_hash : (Access → Bool) → Hash → Database → Result ReadError (Option Block)
unfolding with_hash
block_by_hash faults h db = do fail_if (faults select_block) failed; ok (with_hash h db.blocks)

-- `readCoverage`.
unfoldable pub read_coverage : (Access → Bool) → Database → Result ReadError (Option Coverage)
read_coverage faults db = do fail_if (faults select_cursor) failed; ok db.cursor

abbrev hash_column : Option Block → Option Hash
hash_column none = none
hash_column (some b) = some b.hash

abbrev head_column : Option Coverage → Option ℕ
head_column none = none
head_column (some cov) = some cov.head

-- `Cursor`.
unfoldable pub cursor_head : (Access → Bool) → Database → Result ReadError (Option ℕ)
unfolding read_coverage
cursor_head faults db = do cov ← read_coverage faults db; ok (head_column cov)

-- `Maintenance`.
unfoldable pub maintenance_state : (Access → Bool) → Database → Result ReadError (Bool × String)
maintenance_state faults db = do
  fail_if (faults maintenance_flag) failed
  ok (db.maintenance, db.reason)

-- `StoredBlockHash`.
unfoldable pub stored_block_hash : (Access → Bool) → ℕ → Database → Result ReadError (Option Hash)
unfolding block_at
stored_block_hash faults n db = do
  fail_if (faults select_block) failed
  ok (hash_column (block_at n db.blocks))

-- `Store.Read` of one snapshot: refused while a backfill holds the maintenance lock or has left its
-- flag. `wrap` makes a store's error one of the caller's.
unfoldable pub read {ℓ κ} :
    {E : Type ℓ} {A : Type κ}
    → (Access → Bool)
    → Bool
    → (ReadError → E)
    → (Database → Result E A)
    → Database
    → Result E A
read faults locked wrap body db = do
  fail_if (faults open_snapshot) (wrap failed)
  fail_if (faults maintenance_check) (wrap failed)
  fail_if locked (wrap maintenance)
  fail_if (faults maintenance_flag) (wrap failed)
  fail_if db.maintenance (wrap maintenance)
  a ← body db
  fail_if (faults commit) (wrap failed)
  ok a
