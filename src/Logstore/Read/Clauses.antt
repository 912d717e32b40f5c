-- ===== src/Logstore/Read/Clauses.antt =====
-- The WHERE clause that `buildFilter` renders asks of a row what the query asks of the log.
use ff_eth_logs.Base.{
  all-append, ◌≤◌, ◌+◌, zero, ◌<◌, all, ==_iff, sym, not, ap, ◌||◌, length, ltb, none, false, inl,
  inr, Bool-cases, Option-cases, refl, [], suc, arith, get_elem?, if◌then◌else◌, ◌≡◌, some, ◌∷◌,
  true, ◌==◌, ◌&&◌, any, Option, elem, Bool, filter, List, String, ℕ,
}
use ff_eth_logs.Eventset.{Address, Hash, transfer_single, uri}
use ff_eth_logs.Chain.{Log}
use ff_eth_logs.Logstore.{Row, log_row, between}
use ff_eth_logs.Logstore.Read.{
  block_between, address_any, uri_of, transfer_single_of, other_signatures, append_if, is_uri,
  is_other, Query, Arm, first_word_is, token_arms, topic_clauses, topics_clauses, build_filter,
  is_any, arm_holds, holds, columns,
}
use ff_eth_logs.Logstore.Read.Spec.{
  position_matches, topics_match, has_token, token_matches, address_matches, matches,
}

-- A signature's arm, given by what is asked for: `single`, `uris` and `any` say whether the
-- TransferSingle, the URI and the log's own signature are.
signature_arm :
    (t ts u : Hash) (single uris own word token : Bool)
    → (t ≡ ts → single ≡ own)
    → (t ≡ u → uris ≡ own)
    → ((single && (((t == ts) || false) && word))
        || (((not (u == ts) && (u == u)) && uris) && (((t == u) || false) && token)
            || ((not (t == ts) && not (t == u)) && own)))
      ≡ (own && (if t == ts then word else if t == u then token else true))
signature_arm t ts u single uris own word token h k = elim (Bool-cases (t == ts)) [
  | inl e ↦ rw (e, h ((==_iff t ts).0 e)) (ground arith)
  | inr e ↦ elim (Bool-cases (t == u)) [
    | inl f ↦ rw (e, f, k ((==_iff t u).0 f)) (ground arith)
    | inr f ↦ rw (e, f) (ground arith)
  ]
]

module _ (keccak256 : String → Hash) where
  any-elem : (t : Hash) (sub : List Hash) → any (λ h. h == t) sub ≡ elem t sub
  unfolding any elem
  any-elem t [] = refl
  any-elem t (h ∷ hs) = ground (arith, any-elem t hs)

  others_elem :
      (t : Hash) (sub : List Hash)
      → elem t (filter (is_other keccak256) sub) ≡ (is_other keccak256 t && elem t sub)
  unfolding filter elem
  others_elem t [] = ground arith
  others_elem t (h ∷ hs) = ground (arith, others_elem t hs)

  any-uri :
      (sub : List Hash)
      → any (is_uri keccak256) sub ≡ (is_uri keccak256 (uri keccak256) && elem (uri keccak256) sub)
  unfolding any elem
  any-uri [] = ground arith
  any-uri (h ∷ hs) = ground (arith, any-uri hs)

  guarded_others :
      (r : Row) (hs : List Hash)
      → any (arm_holds keccak256 r) (append_if (ltb 0 (length hs)) (other_signatures hs) [])
        ≡ is_any hs r.topic0
  unfolding any elem arm_holds
  guarded_others r [] = elim (Option-cases r.topic0) [ inl e ↦ rw e refl | inr (t, e) ↦ rw e refl ]
  guarded_others r (h ∷ hs) = ground arith

  any-append_if :
      (r : Row) (b : Bool) (arm : Arm) (arms : List Arm)
      → any (arm_holds keccak256 r) (append_if b arm arms)
        ≡ ((b && arm_holds keccak256 r arm) || any (arm_holds keccak256 r) arms)
  unfolding any
  any-append_if r true arm arms = refl
  any-append_if r false arm arms = refl

  -- The arms of the clause for a token id say that the signature is asked for, with its token.
  pub token_arms-matches :
      (id : Hash) (sub : List Hash) (l : Log)
      → any (arm_holds keccak256 (log_row l)) (token_arms keccak256 id sub) ≡ (
          is_any sub (get_elem? l.topics 0)
          && has_token keccak256 id (get_elem? l.topics 0) l.topics l.bytes)
  unfolding token_arms arm_holds elem log_row
  token_arms-matches id sub l =
      rw
        (
          any-append_if (log_row l) (any (λ h. h == transfer_single keccak256) sub)
              (transfer_single_of id)
              (append_if (any (is_uri keccak256) sub) (uri_of id) (
                append_if (ltb 0 (length (filter (is_other keccak256) sub)))
                  (other_signatures (filter (is_other keccak256) sub)) [])),
          any-append_if (log_row l) (any (is_uri keccak256) sub) (uri_of id) (
              append_if (ltb 0 (length (filter (is_other keccak256) sub)))
                (other_signatures (filter (is_other keccak256) sub)) []),
          guarded_others (log_row l) (filter (is_other keccak256) sub),
          any-elem (transfer_single keccak256) sub,
          any-uri sub,
        )
        (elim (Option-cases (get_elem? l.topics 0)) [
          | inl e ↦ rw e (ground arith)
          | inr (t, e) ↦
              rw (e, others_elem t sub)
                (signature_arm t (transfer_single keccak256) (uri keccak256)
                  (elem (transfer_single keccak256) sub) (elem (uri keccak256) sub) (elem t sub)
                  (first_word_is l.bytes id) (is_any (id ∷ []) (get_elem? l.topics 1))
                  (λ x. ap (λ h. elem h sub) (sym x)) (λ x. ap (λ h. elem h sub) (sym x)))
        ])

  -- Some arm is there for a requested signature.
  token_arms-nonempty :
      (id h : Hash) (sub : List Hash) → ltb 0 (length (token_arms keccak256 id (h ∷ sub))) ≡ true
  unfolding token_arms any filter
  token_arms-nonempty id h sub = ground arith

  -- A column is there for each of the first four positions.
  column-log_row :
      (l : Log) (i : ℕ) → i < 4 → get_elem? (columns (log_row l)) i ≡ some (get_elem? l.topics i)
  unfolding log_row
  column-log_row l zero h = refl
  column-log_row l (suc zero) h = refl
  column-log_row l (suc (suc zero)) h = refl
  column-log_row l (suc (suc (suc zero))) h = refl
  column-log_row l (suc (suc (suc (suc i)))) h = absurd (omega arith)

  -- What a token id asks at a position.
  abbrev token_at : ℕ → Option Hash → List Hash → Log → Bool
  token_at (suc i) id sub l = true
  token_at zero none sub l = true
  token_at zero (some id) [] l = true
  token_at zero (some id) (h ∷ hs) l =
      has_token keccak256 id (get_elem? l.topics 0) l.topics l.bytes

  topic_clauses-matches :
      (l : Log) (i : ℕ) (id : Option Hash) (sub : List Hash)
      → i < 4
      → all (holds keccak256 (log_row l)) (topic_clauses keccak256 i id sub)
        ≡ (position_matches sub (get_elem? l.topics i) && token_at i id sub l)
  unfolding topic_clauses all holds
  topic_clauses-matches l (suc i) id [] h = refl
  topic_clauses-matches l zero none [] h = refl
  topic_clauses-matches l zero (some id) [] h = refl
  topic_clauses-matches l zero none (s ∷ ss) h = ground (arith, column-log_row l zero h)
  topic_clauses-matches l zero (some id) (s ∷ ss) h =
      rw (token_arms-nonempty id s ss, token_arms-matches id (s ∷ ss) l) (ground arith)
  topic_clauses-matches l (suc i) id (s ∷ ss) h = rw (column-log_row l (suc i) h) (ground arith)

  topics_clauses-matches :
      (l : Log) (i : ℕ) (id : Option Hash) (subs : List (List Hash))
      → suc i + length subs ≤ 4
      → all (holds keccak256 (log_row l)) (topics_clauses keccak256 (suc i) id subs)
        ≡ topics_match (suc i) subs l.topics
  unfolding topics_clauses all topics_match
  topics_clauses-matches l i id [] h = refl
  topics_clauses-matches l i id (sub ∷ subs) h =
      rw
        (
          all-append (holds keccak256 (log_row l)) (topic_clauses keccak256 (suc i) id sub)
              (topics_clauses keccak256 (suc (suc i)) id subs),
          topic_clauses-matches l (suc i) id sub (omega arith),
          topics_clauses-matches l (suc i) id subs (omega arith),
        )
        (ground arith)

  -- The token's part of `matches`.
  abbrev tokens : Option Hash → List (List Hash) → Log → Bool
  tokens id [] l = true
  tokens id (sub ∷ subs) l = token_at 0 id sub l

  all_topics :
      (l : Log) (id : Option Hash) (subs : List (List Hash))
      → length subs ≤ 4
      → all (holds keccak256 (log_row l)) (topics_clauses keccak256 0 id subs)
        ≡ (topics_match 0 subs l.topics && tokens id subs l)
  unfolding topics_clauses all topics_match
  all_topics l id [] h = refl
  all_topics l id (sub ∷ subs) h =
      rw
        (
          all-append (holds keccak256 (log_row l)) (topic_clauses keccak256 0 id sub)
              (topics_clauses keccak256 1 id subs),
          topic_clauses-matches l 0 id sub (omega arith),
          topics_clauses-matches l 0 id subs (omega arith),
        )
        (ground arith)

  tokens-matches :
      (q : Query) (l : Log) → tokens q.erc1155_id q.topics l ≡ token_matches keccak256 q l
  tokens-matches q l = by_cases q.erc1155_id q.topics
    where
      by_cases :
          (id : Option Hash) (subs : List (List Hash))
          → tokens id subs l
            ≡ token_matches keccak256 (record q { erc1155_id = id; topics = subs }) l
      by_cases none [] = refl
      by_cases none (sub ∷ subs) = refl
      by_cases (some id) [] = refl
      by_cases (some id) ([] ∷ subs) = refl
      by_cases (some id) ((h ∷ hs) ∷ subs) = refl

  all_address :
      (l : Log) (addresses : List Address)
      → all
          (holds keccak256 (log_row l))
          (append_if (ltb 0 (length addresses)) (address_any addresses) [])
        ≡ address_matches addresses l.address
  unfolding all holds log_row
  all_address l [] = refl
  all_address l (a ∷ addresses) = ground arith

  holds-between :
      (q : Query) (l : Log)
      → holds keccak256 (log_row l) (block_between q.from_block q.to_block)
        ≡ between q.from_block q.to_block l.block_number
  unfolding holds log_row
  holds-between q l = refl

  -- The WHERE clause, of a query with at most four topic positions, holds of the row of a log just
  -- if the query asks for that log.
  pub build_filter-matches :
      (q : Query) (l : Log)
      → length q.topics ≤ 4
      → all (holds keccak256 (log_row l)) (build_filter keccak256 q) ≡ matches keccak256 q l
  unfolding build_filter matches all
  build_filter-matches q l h =
      rw
        (
          all-append (holds keccak256 (log_row l))
              (append_if (ltb 0 (length q.addresses)) (address_any q.addresses) [])
              (topics_clauses keccak256 0 q.erc1155_id q.topics),
          all_address l q.addresses,
          all_topics l q.erc1155_id q.topics h,
          tokens-matches q l,
        )
        (ap
          (λ b.
            b
            && (address_matches q.addresses l.address
                && (topics_match 0 q.topics l.topics && token_matches keccak256 q l)))
          (holds-between q l))
