-- ===== src/Eventset.antt =====
-- internal/eventset/eventset.go: which logs the warehouse stores. A hash and an address are the
-- numbers that their bytes spell, so 0 is the zero hash. `keccak256` is go-ethereum's hash.
pub mod Keep
pub mod Examples
use ff_eth_logs.Base.{
  ℕ, ◌≡◌, String, Bool, true, false, ◌&&◌, ◌||◌, List, [], ◌∷◌, Option, none, some, length, ◌==◌,
  if◌then◌else◌, elem,
}

abbrev pub Hash : Type 0
Hash = ℕ

abbrev pub Address : Type 0
Address = ℕ

abbrev pub crypto_punks_address : Address
crypto_punks_address = 0xb47e3cd837ddf8e4c57f05d70ab865de6e193bbb

-- A lookup in a Go map, given by its entries.
unfoldable pub lookup {ℓ} : {V : Type ℓ} → ℕ → List (ℕ × V) → Option V
lookup k [] = none
lookup k ((j, v) ∷ m) = if k == j then some v else lookup k m

module _ (keccak256 : String → Hash) where
  abbrev pub transfer : Hash
  transfer = keccak256 "Transfer(address,address,uint256)"

  abbrev pub transfer_single : Hash
  transfer_single = keccak256 "TransferSingle(address,address,address,uint256,uint256)"

  abbrev pub transfer_batch : Hash
  transfer_batch = keccak256 "TransferBatch(address,address,address,uint256[],uint256[])"

  abbrev pub metadata_update : Hash
  metadata_update = keccak256 "MetadataUpdate(uint256)"

  abbrev pub batch_metadata_update : Hash
  batch_metadata_update = keccak256 "BatchMetadataUpdate(uint256,uint256)"

  abbrev pub uri : Hash
  uri = keccak256 "URI(string,uint256)"

  abbrev pub punk_transfer : Hash
  punk_transfer = keccak256 "PunkTransfer(address,address,uint256)"

  abbrev pub punk_assign : Hash
  punk_assign = keccak256 "Assign(address,uint256)"

  abbrev pub punk_bought : Hash
  punk_bought = keccak256 "PunkBought(uint256,uint256,address,address)"

  unfoldable pub topic_count : List (Hash × ℕ)
  topic_count =
      (transfer, 4)
      ∷ (transfer_single, 4)
      ∷ (transfer_batch, 4)
      ∷ (metadata_update, 1)
      ∷ (batch_metadata_update, 1)
      ∷ (uri, 2)
      ∷ []

  unfoldable pub punk_signatures : List Hash
  punk_signatures = punk_transfer ∷ punk_assign ∷ punk_bought ∷ []

  unfoldable pub topics : List Hash
  topics =
      transfer ∷ transfer_single ∷ transfer_batch ∷ metadata_update ∷ batch_metadata_update ∷ uri
      ∷ punk_transfer ∷ punk_assign ∷ punk_bought ∷ []

  unfoldable pub is_warehouse_signature : Hash → Bool
  unfolding topic_count punk_signatures lookup elem
  is_warehouse_signature topic0 = elim (lookup topic0 topic_count) [
    | some _ ↦ true
    | none ↦ elem topic0 punk_signatures
  ]

  unfoldable pub is_crypto_punks_signature : Hash → Bool
  unfolding punk_signatures elem
  is_crypto_punks_signature topic0 = elem topic0 punk_signatures

  -- The tests of `Keep` below its check that there is a first topic.
  keep_shape : Hash → ℕ → Address → Bool
  unfolding topic_count punk_signatures lookup elem
  keep_shape topic0 count address =
      if topic0 == transfer && address == crypto_punks_address
      then true
      else elim (lookup topic0 topic_count) [
        | some want ↦ count == want
        | none ↦ if elem topic0 punk_signatures then address == crypto_punks_address else false
      ]

  unfoldable pub keep : List Hash → Address → Bool
  unfolding keep_shape
  keep [] address = false
  keep (topic0 ∷ rest) address = keep_shape topic0 (length (topic0 ∷ rest)) address
