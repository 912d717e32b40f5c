-- ===== src/Eventset/Keep.antt =====
-- What `Keep` and `IsWarehouseSignature` decide, for any hash function, and as a list of shapes for one
-- that tells the nine signatures apart.
use ff_eth_logs.Base.{
  ℕ, ◌≡◌, refl, ◌↔◌, ◌⊎◌, inl, inr, String, true, List, [], ◌∷◌, arith, length, elem, Distinct,
}
use ff_eth_logs.Eventset.{
  Hash, Address, crypto_punks_address, transfer, transfer_single, transfer_batch, metadata_update,
  batch_metadata_update, uri, punk_transfer, punk_assign, punk_bought, topics,
  is_warehouse_signature, keep,
}

module _ (keccak256 : String → Hash) where
  -- The signatures that a request may name are exactly those that ingestion fetches.
  pub is_warehouse_signature-elem :
      (topic0 : Hash) → is_warehouse_signature keccak256 topic0 ≡ elem topic0 (topics keccak256)
  unfolding is_warehouse_signature topics
  is_warehouse_signature-elem topic0 = ground arith

  -- A stored log has a first topic that ingestion fetches and that a request may name.
  pub keep-elem :
      (topic0 : Hash) (rest : List Hash) (address : Address)
      → keep keccak256 (topic0 ∷ rest) address ≡ true
      → elem topic0 (topics keccak256) ≡ true
  unfolding keep topics elem
  keep-elem topic0 rest address h = ground arith

  -- The stored set: for each signature its counts of topics and its contracts.
  pub data Stored : List Hash → Address → Type 0 where
    punks_transfer : (rest : List Hash) → Stored (transfer keccak256 ∷ rest) crypto_punks_address
    moved :
        (topic0 t1 t2 t3 : Hash) (address : Address)
        → (topic0 ≡ transfer keccak256)
          ⊎ (topic0 ≡ transfer_single keccak256)
          ⊎ (topic0 ≡ transfer_batch keccak256)
        → Stored (topic0 ∷ t1 ∷ t2 ∷ t3 ∷ []) address
    updated :
        (topic0 : Hash) (address : Address)
        → (topic0 ≡ metadata_update keccak256) ⊎ (topic0 ≡ batch_metadata_update keccak256)
        → Stored (topic0 ∷ []) address
    named : (t1 : Hash) (address : Address) → Stored (uri keccak256 ∷ t1 ∷ []) address
    punk :
        (topic0 : Hash) (rest : List Hash)
        → (topic0 ≡ punk_transfer keccak256)
          ⊎ (topic0 ≡ punk_assign keccak256)
          ⊎ (topic0 ≡ punk_bought keccak256)
        → Stored (topic0 ∷ rest) crypto_punks_address

  -- The same by cases on the first topic, the number of topics and the address.
  abbrev Shape : Hash → ℕ → Address → Type 0
  Shape topic0 count address =
      ((topic0 ≡ transfer keccak256) × (address ≡ crypto_punks_address))
      ⊎ (((topic0 ≡ transfer keccak256)
            ⊎ (topic0 ≡ transfer_single keccak256)
            ⊎ (topic0 ≡ transfer_batch keccak256))
          × (count ≡ 4))
      ⊎ (((topic0 ≡ metadata_update keccak256) ⊎ (topic0 ≡ batch_metadata_update keccak256))
          × (count ≡ 1))
      ⊎ ((topic0 ≡ uri keccak256) × (count ≡ 2))
      ⊎ (((topic0 ≡ punk_transfer keccak256)
            ⊎ (topic0 ≡ punk_assign keccak256)
            ⊎ (topic0 ≡ punk_bought keccak256))
          × (address ≡ crypto_punks_address))

  keep-Shape :
      Distinct (topics keccak256)
      → (topic0 : Hash) (rest : List Hash) (address : Address)
      → keep keccak256 (topic0 ∷ rest) address ≡ true
      → Shape topic0 (length (topic0 ∷ rest)) address
  unfolding keep topics
  keep-Shape d topic0 rest address h = ground arith

  Shape-keep :
      Distinct (topics keccak256)
      → (topic0 : Hash) (rest : List Hash) (address : Address)
      → Shape topic0 (length (topic0 ∷ rest)) address
      → keep keccak256 (topic0 ∷ rest) address ≡ true
  unfolding keep topics
  Shape-keep d topic0 rest address h = ground arith

  Stored-Shape :
      {topic0 : Hash} {rest : List Hash} {address : Address}
      → Stored (topic0 ∷ rest) address
      → Shape topic0 (length (topic0 ∷ rest)) address
  Stored-Shape (punks_transfer rest) = inl (refl, refl)
  Stored-Shape (moved topic0 t1 t2 t3 address h) = inr (inl (h, refl))
  Stored-Shape (updated topic0 address h) = inr (inr (inl (h, refl)))
  Stored-Shape (named t1 address) = inr (inr (inr (inl (refl, refl))))
  Stored-Shape (punk topic0 rest h) = inr (inr (inr (inr (h, refl))))

  Shape-Stored :
      (topic0 : Hash) (rest : List Hash) (address : Address)
      → Shape topic0 (length (topic0 ∷ rest)) address
      → Stored (topic0 ∷ rest) address
  Shape-Stored topic0 rest address (inl (p, q)) = rw (p, q) (punks_transfer rest)
  Shape-Stored topic0 (t1 ∷ t2 ∷ t3 ∷ []) address (inr (inl (p, q))) =
      moved topic0 t1 t2 t3 address p
  Shape-Stored topic0 [] address (inr (inr (inl (p, q)))) = updated topic0 address p
  Shape-Stored topic0 (t1 ∷ []) address (inr (inr (inr (inl (p, q))))) = rw p (named t1 address)
  Shape-Stored topic0 rest address (inr (inr (inr (inr (p, q))))) = rw q (punk topic0 rest p)
  Shape-Stored topic0 rest address (inr (inl (p, q))) = absurd (omega arith)
  Shape-Stored topic0 rest address (inr (inr (inl (p, q)))) = absurd (omega arith)
  Shape-Stored topic0 rest address (inr (inr (inr (inl (p, q))))) = absurd (omega arith)

  Stored-nil : (address : Address) → ¬ Stored [] address
  Stored-nil address h = elim h [ ]

  -- With a hash that tells the nine signatures apart, `Keep` accepts a log exactly if its topics
  -- and its address are of one of these shapes: a Transfer of CryptoPunks whatever its
  -- shape, a Transfer, TransferSingle or TransferBatch with four topics, a MetadataUpdate or
  -- BatchMetadataUpdate with one, a URI with two, and a CryptoPunks event of CryptoPunks.
  pub keep-Stored :
      Distinct (topics keccak256)
      → (ts : List Hash) (address : Address)
      → (keep keccak256 ts address ≡ true) ↔ Stored ts address
  unfolding keep
  keep-Stored d [] address = (λ h. cc, λ h. absurd (Stored-nil address h))
  keep-Stored d (topic0 ∷ rest) address = (
    λ h. Shape-Stored topic0 rest address (keep-Shape d topic0 rest address h),
    λ h. Shape-keep d topic0 rest address (Stored-Shape h),
  )
