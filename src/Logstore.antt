-- ===== src/Logstore.antt =====
-- internal/logstore: the warehouse tables of db/init_pg_db.sql as lists of rows, with the rows that
-- the program writes. PostgreSQL is not under the repository: of a statement the model has the
-- effect that its SQL text states, with the tables' constraints, and it may fail for other causes.
pub mod Write
pub mod Read
pub mod Locks
pub mod Examples
use ff_eth_logs.Base.{
  ℕ, ◌+◌, ◌*◌, ◌/◌, ◌<◌, ◌≡◌, Bool, true, false, not, ◌&&◌, List, [], ◌∷◌, ◌++◌, Option, none, some,
  String, map, filter, any, get_elem?, elem, leb, ltb, ◌==◌, if◌then◌else◌,
}
use ff_eth_logs.Eventset.{Hash, Address}
use ff_eth_logs.Base.Int.{ℤ, to_int32}
use ff_eth_logs.Chain.{Log}

-- A row of eth_blocks.
pub record Block : Type 0 where
  pub number : ℕ
  pub hash : Hash
  pub timestamp : ℕ

-- The covered interval, both ends in it.
pub record Coverage : Type 0 where
  pub start : ℕ
  pub head : ℕ

-- A row of eth_logs; a NULL column is `none`.
pub record Row : Type 0 where
  pub block_number : ℕ
  pub log_index : ℤ
  pub tx_index : ℤ
  pub tx_hash : Hash
  pub address : Address
  pub topic0 : Option Hash
  pub topic1 : Option Hash
  pub topic2 : Option Hash
  pub topic3 : Option Hash
  pub bytes : List ℕ

-- The tables. `partitions` are the numbers of the eth_logs partitions that exist, `cursor` is the
-- row of ingest_cursor, and `maintenance` and `reason` are that of warehouse_state.
pub record Database : Type 0 where
  pub blocks : List Block
  pub logs : List Row
  pub partitions : List ℕ
  pub cursor : Option Coverage
  pub maintenance : Bool
  pub reason : String

abbrev pub partition_blocks : ℕ
partition_blocks = 1_000_000

-- `LogRow`. A height is taken to be below 2^63, where its conversion to int64 leaves it as it is.
unfoldable pub log_row : Log → Row
unfolding to_int32
log_row l = record {
  block_number = l.block_number;
  log_index = to_int32 l.index;
  tx_index = to_int32 l.tx_index;
  tx_hash = l.tx_hash;
  address = l.address;
  topic0 = get_elem? l.topics 0;
  topic1 = get_elem? l.topics 1;
  topic2 = get_elem? l.topics 2;
  topic3 = get_elem? l.topics 3;
  bytes = l.bytes;
}

-- `WHERE number = n`.
unfoldable pub block_at : ℕ → List Block → Option Block
block_at n [] = none
block_at n (b ∷ bs) = if b.number == n then some b else block_at n bs

-- `WHERE block_number = n`.
unfoldable pub logs_at : ℕ → List Row → List Row
logs_at n = filter (λ r. r.block_number == n)

-- `BETWEEN lo AND hi`.
abbrev pub between : ℕ → ℕ → ℕ → Bool
between lo hi n = leb lo n && leb n hi
