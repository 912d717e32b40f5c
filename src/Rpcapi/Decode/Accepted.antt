-- ===== src/Rpcapi/Decode/Accepted.antt =====
-- The filters that the decoding accepts: what they are made of, and what they ask.
use ff_eth_logs.Base.{
  ap, none, ℕ, suc, ◌≡◌, ◌⊎◌, inl, inr, ◌≤◌, List, [], ◌∷◌, Option, some, String, length, arith,
  refl,
}
use ff_eth_logs.Base.Exec.{ok, Result-cases}
use ff_eth_logs.Eventset.{Hash}
use ff_eth_logs.Rpcapi.{Criteria}
use ff_eth_logs.Rpcapi.Decode.{
  with_topic, Item, Value, Input, decode_topic, decode_topic_items, decode_topic_position,
  decode_topics, decode_addresses, unmarshal, null_item, other_item, text_item, null_value,
  other_value, text_value, array_value,
}

module _ (decode : String → Option (List ℕ)) where
  -- The components name these topics, one each.
  abbrev pub Spells : List Item → List Hash → Type 0
  Spells [] [] = Unit
  Spells [] (h ∷ hs) = ⊥
  Spells (text_item s ∷ items) (h ∷ hs) = (decode_topic decode s ≡ ok h) × Spells items hs
  Spells (text_item s ∷ items) [] = ⊥
  Spells (null_item ∷ items) hs = ⊥
  Spells (other_item ∷ items) hs = ⊥

  -- Some component is null, and every one before it is a topic.
  abbrev pub HasNull : List Item → Type 0
  HasNull [] = ⊥
  HasNull (null_item ∷ items) = Unit
  HasNull (text_item s ∷ items) = ((h : Hash) × (decode_topic decode s ≡ ok h)) × HasNull items
  HasNull (other_item ∷ items) = ⊥

  -- What a position asks: nothing for null, an empty array or one with a null component, and else
  -- one of the topics that it names.
  abbrev pub Asks : Value → List Hash → Type 0
  Asks null_value sub = sub ≡ []
  Asks (text_value s) sub = (h : Hash) × (decode_topic decode s ≡ ok h) × (sub ≡ h ∷ [])
  Asks (array_value items) sub =
      (length items ≤ 1000) × ((HasNull items × (sub ≡ [])) ⊎ Spells items sub)
  Asks other_value sub = ⊥

  abbrev pub AsksAll : List Value → List (List Hash) → Type 0
  AsksAll [] [] = Unit
  AsksAll [] (sub ∷ subs) = ⊥
  AsksAll (t ∷ ts) [] = ⊥
  AsksAll (t ∷ ts) (sub ∷ subs) = Asks t sub × AsksAll ts subs

  abbrev ItemsAsk : List Item → Option (List Hash) → Type 0
  ItemsAsk items none = HasNull items
  ItemsAsk items (some hs) = Spells items hs

  decode_topic_items-ItemsAsk :
      (items : List Item) (o : Option (List Hash))
      → decode_topic_items decode items ≡ ok o
      → ItemsAsk items o
  unfolding decode_topic_items
  decode_topic_items-ItemsAsk [] none h = absurd (cc h)
  decode_topic_items-ItemsAsk [] (some []) h = tt
  decode_topic_items-ItemsAsk [] (some (x ∷ xs)) h = absurd (cc h)
  decode_topic_items-ItemsAsk (null_item ∷ items) none h = tt
  decode_topic_items-ItemsAsk (null_item ∷ items) (some hs) h = absurd (cc h)
  decode_topic_items-ItemsAsk (other_item ∷ items) o h = absurd (cc h)
  decode_topic_items-ItemsAsk (text_item s ∷ items) o h =
      elim (Result-cases (decode_topic decode s)) [
        | inr (x, e) ↦ absurd (ground (arith, e))
        | inl (t, e) ↦ elim (Result-cases (decode_topic_items decode items)) [
          | inr (x, f) ↦ absurd (ground (arith, e, f))
          | inl (rest, f) ↦
              let deep = decode_topic_items-ItemsAsk items rest f in
              let whole : o ≡ with_topic decode t rest = ground (arith, e, f) in
              rw whole (extended s t items rest e deep)
        ]
      ]
    where
      extended :
          (s : String) (t : Hash) (items : List Item) (rest : Option (List Hash))
          → decode_topic decode s ≡ ok t
          → ItemsAsk items rest
          → ItemsAsk (text_item s ∷ items) (with_topic decode t rest)
      extended s t items none e deep = ((t, e), deep)
      extended s t items (some hs) e deep = (e, deep)

  decode_topic_position-Asks :
      (t : Value) (sub : List Hash) → decode_topic_position decode t ≡ ok sub → Asks t sub
  unfolding decode_topic_position
  decode_topic_position-Asks null_value sub h = ground arith
  decode_topic_position-Asks other_value sub h = absurd (cc h)
  decode_topic_position-Asks (text_value s) sub h = elim (Result-cases (decode_topic decode s)) [
    | inr (x, e) ↦ absurd (ground (arith, e))
    | inl (t, e) ↦ (t, e, ground (arith, e))
  ]
  decode_topic_position-Asks (array_value items) sub h =
      elim (Result-cases (decode_topic_items decode items)) [
        | inr (x, e) ↦ absurd (ground (arith, e))
        | inl (none, e) ↦
            (ground (arith, e), inl (decode_topic_items-ItemsAsk items none e, ground (arith, e)))
        | inl (some hs, e) ↦ (
          ground (arith, e),
          inr (rw (whole hs e h) (decode_topic_items-ItemsAsk items (some hs) e)),
        )
      ]
    where
      whole :
          (hs : List Hash)
          → decode_topic_items decode items ≡ ok (some hs)
          → decode_topic_position decode (array_value items) ≡ ok sub
          → sub ≡ hs
      whole hs e h = ground (arith, e)

  decode_topics-AsksAll :
      (ts : List Value) (subs : List (List Hash))
      → decode_topics decode ts ≡ ok subs
      → AsksAll ts subs
  unfolding decode_topics
  decode_topics-AsksAll [] [] h = tt
  decode_topics-AsksAll [] (sub ∷ subs) h = absurd (cc h)
  decode_topics-AsksAll (t ∷ ts) subs h = elim (Result-cases (decode_topic_position decode t)) [
    | inr (x, e) ↦ absurd (ground (arith, e))
    | inl (sub, e) ↦ elim (Result-cases (decode_topics decode ts)) [
      | inr (x, f) ↦ absurd (ground (arith, e, f))
      | inl (rest, f) ↦
          let whole : subs ≡ sub ∷ rest = ground (arith, e, f) in
          rw whole (decode_topic_position-Asks t sub e, decode_topics-AsksAll ts rest f)
    ]
  ]

  AsksAll-length :
      (ts : List Value) (subs : List (List Hash)) → AsksAll ts subs → length subs ≡ length ts
  AsksAll-length [] [] h = refl
  AsksAll-length [] (sub ∷ subs) h = absurd h
  AsksAll-length (t ∷ ts) [] h = absurd h
  AsksAll-length (t ∷ ts) (sub ∷ subs) h = ap suc (AsksAll-length ts subs h.1)

  unmarshal_ok :
      (raw : Input) (crit : Criteria)
      → unmarshal decode raw ≡ ok crit
      → (length raw.topics ≤ 4)
        × ((raw.block_hash ≡ none) ⊎ ((raw.from_block ≡ none) × (raw.to_block ≡ none)))
        × (decode_addresses decode raw.addresses ≡ ok crit.addresses)
        × (decode_topics decode raw.topics ≡ ok crit.topics)
        × (crit.block_hash ≡ raw.block_hash)
        × (crit.from_block ≡ raw.from_block)
        × (crit.to_block ≡ raw.to_block)
        × (crit.erc1155_id ≡ raw.erc1155_id)
  unfolding unmarshal
  unmarshal_ok raw crit h = elim (Result-cases (decode_addresses decode raw.addresses)) [
    | inr (x, e) ↦ absurd (ground (arith, e))
    | inl (addresses, e) ↦ elim (Result-cases (decode_topics decode raw.topics)) [
      | inr (x, f) ↦ absurd (ground (arith, e, f))
      | inl (topics, f) ↦ (
        ground (arith, e, f),
        ground (arith, e, f),
        ground (arith, e, f),
        ground (arith, e, f),
        ground (arith, e, f),
        ground (arith, e, f),
        ground (arith, e, f),
        ground (arith, e, f),
      )
    ]
  ]

  -- A filter that is accepted has at most four positions, of which each asks what its JSON value
  -- says: nothing for null, an empty array or one with a null component before anything malformed,
  -- and else one of the topics that it names, at most a thousand. It has a block hash or a range,
  -- not both, and the addresses and the other fields are those of the request.
  pub unmarshal-AsksAll :
      (raw : Input) (crit : Criteria)
      → unmarshal decode raw ≡ ok crit
      → (length crit.topics ≤ 4)
        × AsksAll raw.topics crit.topics
        × ((crit.block_hash ≡ none) ⊎ ((crit.from_block ≡ none) × (crit.to_block ≡ none)))
        × (decode_addresses decode raw.addresses ≡ ok crit.addresses)
        × (crit.block_hash ≡ raw.block_hash)
        × (crit.from_block ≡ raw.from_block)
        × (crit.to_block ≡ raw.to_block)
        × (crit.erc1155_id ≡ raw.erc1155_id)
  unmarshal-AsksAll raw crit h =
      let (few, either, addresses, topics, hash, from, to_block, id) = unmarshal_ok raw crit h in
      let asks = decode_topics-AsksAll raw.topics crit.topics topics in
      (
        omega (arith, few, AsksAll-length raw.topics crit.topics asks),
        asks,
        rw (hash, from, to_block) either,
        addresses,
        hash,
        from,
        to_block,
        id,
      )
