-- ===== src/Rpcapi/Examples.antt =====
-- Requests to a loaded warehouse, with go-ethereum's tags, and instances of what is proved of them.
use text.Mathlib.Text.{◌==◌ as str_eq}
use ff_eth_logs.Rpcapi.Decode.{
  Input, unmarshal, decode_addresses, null_value, text_value, array_value, text_item, null_item,
  decode_topic, decode_topic_items, decode_topic_position, decode_topics, from_bytes,
}
use ff_eth_logs.Rpcapi.Decode.Accepted.{AsksAll, unmarshal-AsksAll}
use ff_eth_logs.Logstore.Read.{to_bytes}
use ff_eth_logs.Base.{
  Bool-cases, All, true, map, ◌==◌, filter, List, String, Option, if◌then◌else◌, refl, ℕ, ◌≡◌, ◌⊎◌,
  ◌<◌, ◌≤◌, inl, inr, [], ◌∷◌, none, some, false, arith, length,
}
use ff_eth_logs.Base.Int.{pos, negsuc}
use ff_eth_logs.Base.Exec.{ok, err}
use ff_eth_logs.Eventset.{keep, transfer, is_warehouse_signature, topic_count, lookup}
use ff_eth_logs.Eventset.Examples.{real_keccak256}
use ff_eth_logs.Logstore.{logs_at, Coverage, log_row}
use ff_eth_logs.Logstore.Examples.{sample, stocked, logs, no_failure, stocked-Stores}
use ff_eth_logs.Logstore.Read.Rows.{is_over}
use ff_eth_logs.Logstore.Read.Refines.{answer}
use ff_eth_logs.Rpcapi.{Log, BlockTags, Criteria, Config, get_logs, query_of, scope, above_head}
use ff_eth_logs.Rpcapi.Ranges.{Designates, Inside}
use ff_eth_logs.Base.Sort.{Ordered}
use ff_eth_logs.Logstore.Read.Rows.{log_before, IsIndexed}
use ff_eth_logs.Logstore.Read.Spec.{matches}
use ff_eth_logs.Ingestion.Fetcher.Chain.{IsChain, InOrder}
use ff_eth_logs.Ingestion.Warehouse.Complete.{HoldsChain}
use ff_eth_logs.Rpcapi.Served.{get_logs-HoldsChain}
use ff_eth_logs.Rpcapi.{block_number}
use ff_eth_logs.Rpcapi.Server.{health}
use ff_eth_logs.Rpcapi.Health.{number_of, health-block_number}
use ff_eth_logs.Rpcapi.Resolved.{GoTags}
use ff_eth_logs.Rpcapi.Answers.{NamesSignatures, get_logs-covered, get_logs-serves, within}

abbrev tags : BlockTags
tags = record {
  safe = negsuc 3;
  finalized = negsuc 2;
  latest = negsuc 1;
  pending = negsuc 0;
  earliest = negsuc 4;
}

-- The Transfers to holder 5 from block 1,000,000 to the head.
abbrev criteria : Criteria
criteria = record {
  block_hash = none;
  from_block = some (pos 1_000_000);
  to_block = none;
  addresses = [];
  topics = (transfer real_keccak256 ∷ []) ∷ [] ∷ (5 ∷ []) ∷ [];
  erc1155_id = none;
}

abbrev config : Config
config = record { chain_id = 1; max_results = 10 }

abbrev cov : Coverage
cov = record { start = 999_999; head = 1_000_001 }

tags-GoTags : GoTags tags
tags-GoTags = (refl, refl, refl, refl, refl, refl, refl, refl, refl, refl)

transfer_named : NamesSignatures real_keccak256 criteria.topics
unfolding is_warehouse_signature topic_count lookup real_keccak256
transfer_named = (refl, tt)

get_logs-serves_example :
    get_logs real_keccak256 tags config no_failure false criteria stocked
    ≡ within 10 (answer real_keccak256 (query_of criteria 1_000_000 1_000_001) logs)
get_logs-serves_example =
    get_logs-serves real_keccak256 tags config no_failure false criteria stocked logs stocked-Stores
      cov 1_000_000 1_000_001 tags-GoTags (λ a. refl) refl refl refl (omega arith) transfer_named
      (inr (inr refl), inl (refl, refl)) (omega arith, omega arith, omega arith)

served :
    get_logs real_keccak256 tags config no_failure false criteria stocked
    ≡ ok (sample 1_000_001 0 5 ∷ [])
unfolding get_logs real_keccak256 log_row
served = refl

get_logs-covered_example :
    (length criteria.topics ≤ 4)
    × NamesSignatures real_keccak256 criteria.topics
    × (false ≡ false)
    × (stocked.maintenance ≡ false)
    × ((cov : Coverage) × (from : ℕ) × (to_block : ℕ) × (stocked.cursor ≡ some cov)
        × Designates tags stocked cov criteria from to_block
        × ((to_block < from) ⊎ Inside cov from to_block)
        × (sample 1_000_001 0 5 ∷ [] ≡ answer real_keccak256 (query_of criteria from to_block) logs)
        × (is_over 10 1 ≡ false))
get_logs-covered_example =
    get_logs-covered real_keccak256 tags config no_failure false criteria stocked logs
      stocked-Stores (sample 1_000_001 0 5 ∷ []) served

-- A range that reaches above the head is refused, and not answered in part.
refused :
    get_logs real_keccak256 tags config no_failure false
      (record criteria { to_block = some (pos 1_000_002) })
      stocked
    ≡ err (scope (above_head 1_000_000 1_000_002 cov))
unfolding get_logs real_keccak256 log_row
refused = refl

-- A decoder that reads one signature, as 32 bytes.
abbrev decode_one : String → Option (List ℕ)
decode_one s = if str_eq s "0x2a" then some (to_bytes 32 42) else none

abbrev input : Input
input = record {
  block_hash = none;
  from_block = some (pos 5);
  to_block = none;
  addresses = null_value;
  topics = text_value "0x2a" ∷ array_value (text_item "0x2a" ∷ null_item ∷ []) ∷ [];
  erc1155_id = none;
}

abbrev accepted : Criteria
accepted = record {
  block_hash = none;
  from_block = some (pos 5);
  to_block = none;
  addresses = [];
  topics = (42 ∷ []) ∷ [] ∷ [];
  erc1155_id = none;
}

read_input : unmarshal decode_one input ≡ ok accepted
unfolding unmarshal to_bytes decode_topic decode_topic_items decode_topic_position decode_topics
    from_bytes
read_input = refl

unmarshal-AsksAll_example :
    (length accepted.topics ≤ 4)
    × AsksAll decode_one input.topics accepted.topics
    × ((accepted.block_hash ≡ none) ⊎ ((accepted.from_block ≡ none) × (accepted.to_block ≡ none)))
    × (decode_addresses decode_one input.addresses ≡ ok accepted.addresses)
    × (accepted.block_hash ≡ input.block_hash)
    × (accepted.from_block ≡ input.from_block)
    × (accepted.to_block ≡ input.to_block)
    × (accepted.erc1155_id ≡ input.erc1155_id)
unmarshal-AsksAll_example = unmarshal-AsksAll decode_one input accepted read_input

health-block_number_example :
    block_number no_failure false stocked ≡ number_of (health 1 no_failure false stocked)
health-block_number_example = health-block_number 1 no_failure false stocked refl

-- The chain that the sample logs are of.
abbrev sample_chain : ℕ → List Log
sample_chain n = filter (λ l. l.block_number == n) (sample 1_000_001 0 5 ∷ [])

sample_chain-IsChain : IsChain sample_chain
unfolding filter
sample_chain-IsChain = record {
  numbered = λ n. numbered n (Bool-cases (1_000_001 == n));
  in_order = λ n. in_order n (Bool-cases (1_000_001 == n));
}
  where
    numbered :
        (n : ℕ)
        → ((1_000_001 == n) ≡ true) ⊎ ((1_000_001 == n) ≡ false)
        → All (λ l. l.block_number ≡ n) (sample_chain n)
    numbered n (inl h) = rw h (ground arith, tt)
    numbered n (inr h) = rw h tt

    in_order :
        (n : ℕ) → ((1_000_001 == n) ≡ true) ⊎ ((1_000_001 == n) ≡ false) → InOrder (sample_chain n)
    in_order n (inl h) = rw h (tt, tt)
    in_order n (inr h) = rw h tt

sample_chain-IsIndexed : (n : ℕ) → 1_000_001 ≤ n → n ≤ 1_000_001 → All IsIndexed (sample_chain n)
unfolding filter
sample_chain-IsIndexed n low high = rw at_height ((omega arith, omega arith), tt)
  where
    at_height : n ≡ 1_000_001
    at_height = omega (arith, low, high)

stocked-HoldsChain : HoldsChain real_keccak256 sample_chain 1_000_001 1_000_001 stocked
unfolding logs_at log_row keep real_keccak256 filter
stocked-HoldsChain n low high = rw (at_height) refl
  where
    at_height : n ≡ 1_000_001
    at_height = omega (arith, low, high)

get_logs-HoldsChain_example :
    Ordered log_before (sample 1_000_001 0 5 ∷ [])
    × ((cov : Coverage) × (from : ℕ) × (to_block : ℕ) × (stocked.cursor ≡ some cov)
        × Designates tags stocked cov criteria from to_block
        × ((n : ℕ)
            → 1_000_001 ≤ n
            → n ≤ 1_000_001
            → map log_row (filter (λ l. l.block_number == n) (sample 1_000_001 0 5 ∷ []))
              ≡ map log_row (
                  filter
                    (matches real_keccak256 (query_of criteria from to_block))
                    (filter (λ l. keep real_keccak256 l.topics l.address) (sample_chain n)))))
get_logs-HoldsChain_example =
    get_logs-HoldsChain real_keccak256 tags config no_failure false criteria stocked logs
      sample_chain 1_000_001 1_000_001 (sample 1_000_001 0 5 ∷ []) sample_chain-IsChain
      sample_chain-IsIndexed stocked-Stores stocked-HoldsChain served
