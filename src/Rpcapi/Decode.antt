-- ===== src/Rpcapi/Decode.antt =====
-- internal/rpcapi/criteria.go: the decoding of a filter, from what encoding/json makes of it.
-- go-ethereum's `hexutil.Decode` is a parameter; a filter that is refused is not used.
pub mod Accepted
use ff_eth_logs.Base.{
  none, false, ℕ, suc, ◌+◌, ◌*◌, ◌≡◌, Bool, true, ◌||◌, List, [], ◌∷◌, Option, some, String, length,
  ltb, ◌==◌, if◌then◌else◌,
}
use ff_eth_logs.Base.Int.{ℤ}
use ff_eth_logs.Base.Exec.{Result, ok, err}
use ff_eth_logs.Base.Results.{◌>>=◌, ◌>>◌, fail_if}
use ff_eth_logs.Eventset.{Hash, Address}
use ff_eth_logs.Rpcapi.{Criteria, max_topics}

abbrev pub max_sub_topics : ℕ
max_sub_topics = 1000

abbrev pub address_length : ℕ
address_length = 20

abbrev pub hash_length : ℕ
hash_length = 32

-- A component of a JSON array; one that is neither null nor a string is `other_item`.
pub data Item : Type 0 where
  null_item other_item : Item
  text_item : String → Item

-- A JSON value.
pub data Value : Type 0 where
  null_value other_value : Value
  text_value : String → Value
  array_value : List Item → Value

-- `input`: the fields that encoding/json and go-ethereum's own types have decoded.
pub record Input : Type 0 where
  pub block_hash : Option Hash
  pub from_block : Option ℤ
  pub to_block : Option ℤ
  pub addresses : Value
  pub topics : List Value
  pub erc1155_id : Option Hash

pub data DecodeError : Type 0 where
  hash_and_range invalid_addresses too_many_topics invalid_topic : DecodeError
  not_a_string : ℕ → DecodeError
  bad_address_at : ℕ → DecodeError → DecodeError
  not_hex : DecodeError
  wrong_length : ℕ → ℕ → DecodeError

-- The number that bytes spell, the most significant first.
unfoldable pub from_bytes : List ℕ → ℕ → ℕ
from_bytes [] n = n
from_bytes (b ∷ bs) n = from_bytes bs (n * 256 + b)

module _ (decode : String → Option (List ℕ)) where
  abbrev of_length : ℕ → Option (List ℕ) → Result DecodeError ℕ
  of_length n none = err not_hex
  of_length n (some bs) =
      if length bs == n then ok (from_bytes bs 0) else err (wrong_length (length bs) n)

  unfoldable pub decode_address : String → Result DecodeError Address
  decode_address s = of_length address_length (decode s)

  unfoldable pub decode_topic : String → Result DecodeError Hash
  decode_topic s = of_length hash_length (decode s)

  abbrev at_index : ℕ → Result DecodeError Address → Result DecodeError Address
  at_index i (ok a) = ok a
  at_index i (err e) = err (bad_address_at i e)

  -- The loop of `decodeAddresses` from an index on.
  unfoldable pub decode_address_items : ℕ → List Item → Result DecodeError (List Address)
  unfolding decode_address
  decode_address_items i [] = ok []
  decode_address_items i (null_item ∷ items) = err (not_a_string i)
  decode_address_items i (other_item ∷ items) = err (not_a_string i)
  decode_address_items i (text_item s ∷ items) = do
    a ← at_index i (decode_address s)
    rest ← decode_address_items (suc i) items
    ok (a ∷ rest)

  unfoldable pub decode_addresses : Value → Result DecodeError (List Address)
  unfolding decode_address decode_address_items
  decode_addresses null_value = ok []
  decode_addresses (array_value items) = decode_address_items 0 items
  decode_addresses (text_value s) = do a ← decode_address s; ok (a ∷ [])
  decode_addresses other_value = err invalid_addresses

  abbrev pub with_topic : Hash → Option (List Hash) → Option (List Hash)
  with_topic h none = none
  with_topic h (some hs) = some (h ∷ hs)

  -- The loop of `decodeTopicPosition`; `none` stands for a null component, which makes the position
  -- a wildcard.
  unfoldable pub decode_topic_items : List Item → Result DecodeError (Option (List Hash))
  unfolding decode_topic
  decode_topic_items [] = ok (some [])
  decode_topic_items (null_item ∷ items) = ok none
  decode_topic_items (other_item ∷ items) = err invalid_topic
  decode_topic_items (text_item s ∷ items) = do
    h ← decode_topic s
    rest ← decode_topic_items items
    ok (with_topic h rest)

  abbrev or_wildcard : Option (List Hash) → List Hash
  or_wildcard none = []
  or_wildcard (some hs) = hs

  unfoldable pub decode_topic_position : Value → Result DecodeError (List Hash)
  unfolding decode_topic decode_topic_items
  decode_topic_position null_value = ok []
  decode_topic_position (text_value s) = do h ← decode_topic s; ok (h ∷ [])
  decode_topic_position (array_value items) = do
    fail_if (ltb max_sub_topics (length items)) too_many_topics
    hs ← decode_topic_items items
    ok (or_wildcard hs)
  decode_topic_position other_value = err invalid_topic

  unfoldable pub decode_topics : List Value → Result DecodeError (List (List Hash))
  unfolding decode_topic_position
  decode_topics [] = ok []
  decode_topics (t ∷ ts) = do
    sub ← decode_topic_position t
    rest ← decode_topics ts
    ok (sub ∷ rest)

  abbrev is_given : Option ℤ → Bool
  is_given none = false
  is_given (some n) = true

  abbrev check_range : Input → Result DecodeError (Unit {0})
  check_range raw = elim raw.block_hash [
    | none ↦ ok tt
    | some h ↦ fail_if (is_given raw.from_block || is_given raw.to_block) hash_and_range
  ]

  -- `UnmarshalJSON` after the JSON itself.
  unfoldable pub unmarshal : Input → Result DecodeError Criteria
  unfolding decode_addresses decode_topics
  unmarshal raw = do
    check_range raw
    addresses ← decode_addresses raw.addresses
    fail_if (ltb max_topics (length raw.topics)) too_many_topics
    topics ← decode_topics raw.topics
    ok (record {
      block_hash = raw.block_hash;
      from_block = raw.from_block;
      to_block = raw.to_block;
      addresses = addresses;
      topics = topics;
      erc1155_id = raw.erc1155_id;
    })
