-- ===== src/Logstore/Read/Spec.antt =====
-- What a query asks of a log.
use ff_eth_logs.Base.{
  none, [], suc, get_elem?, if◌then◌else◌, some, ◌∷◌, true, ◌==◌, ◌&&◌, Option, elem, Bool, List,
  String, ℕ,
}
use ff_eth_logs.Eventset.{Address, Hash, transfer_single, uri}
use ff_eth_logs.Chain.{Log}
use ff_eth_logs.Logstore.{between}
use ff_eth_logs.Logstore.Read.{Query, first_word_is, is_any}

-- A position without values asks nothing, not even that there is a topic.
abbrev pub position_matches : List Hash → Option Hash → Bool
position_matches [] topic = true
position_matches (h ∷ hs) topic = is_any (h ∷ hs) topic

unfoldable pub topics_match : ℕ → List (List Hash) → List Hash → Bool
topics_match i [] topics = true
topics_match i (sub ∷ rest) topics =
    position_matches sub (get_elem? topics i) && topics_match (suc i) rest topics

abbrev pub address_matches : List Address → Address → Bool
address_matches [] a = true
address_matches (b ∷ bs) a = elem a (b ∷ bs)

module _ (keccak256 : String → Hash) where
  -- The token id, where the signature carries one: the first word of the data of a TransferSingle,
  -- the second topic of a URI.
  abbrev pub has_token : Hash → Option Hash → List Hash → List ℕ → Bool
  has_token id none topics bytes = true
  has_token id (some t) topics bytes =
      if t == transfer_single keccak256
      then first_word_is bytes id
      else if t == uri keccak256
      then is_any (id ∷ []) (get_elem? topics 1)
      else true

  abbrev pub token_matches : Query → Log → Bool
  token_matches q l = elim q.erc1155_id [
    | none ↦ true
    | some id ↦ elim q.topics [
      | [] ↦ true
      | [] ∷ rest ↦ true
      | (h ∷ hs) ∷ rest ↦ has_token id (get_elem? l.topics 0) l.topics l.bytes
    ]
  ]

  unfoldable pub matches : Query → Log → Bool
  unfolding elem topics_match first_word_is
  matches q l =
      between q.from_block q.to_block l.block_number
      && (address_matches q.addresses l.address
          && (topics_match 0 q.topics l.topics && token_matches q l))
