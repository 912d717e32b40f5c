-- ===== src/Ingestion/Batch.antt =====
-- internal/ingestion/subscriber.go: a confirmed range is fetched and written in batches. Heights stay
-- far below 2^64, so the loop over a range ends by its count of rounds.
use ff_eth_logs.Base.{
  ℕ, zero, suc, ◌-◌, List, [], ◌∷◌, Option, none, some, Bool, true, false, not, ◌&&◌, ◌||◌, String,
  filter, any, elem, leb, ◌==◌, add64, sub64, min, if◌then◌else◌,
}
use ff_eth_logs.Base.Exec.{Result, ok, err, pure, raise, ◌>>=◌, ◌>>◌}
use ff_eth_logs.Eventset.{Hash, lookup, keep}
use ff_eth_logs.Chain.{BlockHead, EthClient, Log}
use ff_eth_logs.Logstore.{Block}
use ff_eth_logs.Logstore.Write.{hash_of}
use ff_eth_logs.Ingestion.Fetcher.{FetchError, fetch_ingestion_logs}
use ff_eth_logs.Ingestion.Sink.{Sink}
use ff_eth_logs.Ingestion.Stream.{retain, forget, advance}
use ff_eth_logs.Ingestion.Subscriber.{
  discontinuity, replan, unstable_headers, fetch, unstable_blocks, out_of_rounds, cancelled,
  IngestError, Ingest, of_sink, head_by_number, stored_block_hash, position, change,
  recover_deep_reorg,
}

abbrev pub catchup_batch_blocks : ℕ
catchup_batch_blocks = 10

abbrev pub batch_consistency_attempts : ℕ
batch_consistency_attempts = 3

-- `disagreeingHeights`, for the logs left and the heights that were seen.
abbrev pub disagrees : Log → Option Hash → Bool
disagrees l none = false
disagrees l (some h) = l.block_hash == 0 || not (h == l.block_hash)

unfoldable pub disagreeing_from : List Log → List Block → List ℕ → List ℕ
unfolding hash_of elem
disagreeing_from [] blocks seen = []
disagreeing_from (l ∷ ls) blocks seen =
    let found = disagrees l (hash_of l.block_number blocks) && not (elem l.block_number seen) in
    let rest = disagreeing_from ls blocks (if found then l.block_number ∷ seen else seen) in
    if found then l.block_number ∷ rest else rest

unfoldable pub disagreeing_heights : List Log → List Block → List ℕ
unfolding disagreeing_from
disagreeing_heights logs blocks = disagreeing_from logs blocks []

abbrev pub has_logs : List Log → Block → Bool
has_logs logs b = any (λ l. l.block_number == b.number) logs

module _ (keccak256 : String → Hash) (C : EthClient) (S : Sink) (span_cap : ℕ) where
  -- The head held for a height, fetched and retained if there is none.
  abbrev pub held_head : ℕ → Option BlockHead → Ingest C S BlockHead
  held_head n (some h) = pure h
  held_head n none = do h ← head_by_number C S n; change C S (retain n h); pure h

  abbrev pub breaks : Option BlockHead → BlockHead → Bool
  breaks none h = false
  breaks (some prev) h = not (h.parent_hash == prev.hash)

  abbrev pub block_of_head : ℕ → BlockHead → Block
  block_of_head n h = record { number = n; hash = h.hash; timestamp = h.timestamp }

  -- A round of `blockMetadata` at height `n`, given its head; `rest` goes on above it.
  abbrev pub metadata_at :
      ℕ
      → Option BlockHead
      → (Option BlockHead → Ingest C S (List Block))
      → BlockHead
      → Ingest C S (List Block)
  metadata_at n prev rest h =
      if breaks prev h
      then raise (discontinuity n)
      else (rest (some h) >>= λ blocks. pure (block_of_head n h ∷ blocks))

  -- The loop of `blockMetadata` over `count` heights from `n` on, above the head held for the height
  -- below.
  unfoldable pub metadata_from : ℕ → ℕ → Option BlockHead → Ingest C S (List Block)
  unfolding lookup head_by_number retain
  metadata_from zero n prev = pure []
  metadata_from (suc count) n prev = do
    st ← position C S
    held_head n (lookup n st.heads) >>= metadata_at n prev (metadata_from count (suc n))

  -- `blockMetadata`.
  unfoldable pub block_metadata : ℕ → ℕ → Ingest C S (List Block)
  unfolding lookup metadata_from
  block_metadata from to_block = do
    st ← position C S
    metadata_from (suc to_block - from) from (lookup (sub64 from 1) st.heads)

  -- `recheckLoglessBlocks`.
  unfoldable pub recheck_logless_blocks : List Log → List Block → Ingest C S (List ℕ)
  unfolding head_by_number any
  recheck_logless_blocks logs [] = pure []
  recheck_logless_blocks logs (b ∷ bs) =
      let rest = recheck_logless_blocks logs bs in
      if has_logs logs b then rest else do
        canonical ← head_by_number C S b.number
        moved ← rest
        pure (if canonical.hash == b.hash then moved else b.number ∷ moved)

  -- `boundaryMoved`, given what is stored for the height below.
  abbrev pub rebound : ℕ → Option Hash → Ingest C S (Unit {0})
  rebound from (some stored) = recover_deep_reorg C S (sub64 from 1)
  rebound from none = head_by_number C S (sub64 from 1) >>= λ anchor. change C S (λ st.
      record (forget (λ n. leb from n && leb n st.tip) (retain (sub64 from 1) anchor st)) {
        tip = sub64 from 1;
      })

  -- `boundaryMoved`.
  unfoldable pub boundary_moved : ℕ → Ingest C S (Unit {0})
  unfolding stored_block_hash recover_deep_reorg head_by_number retain forget
  boundary_moved from = do
    stored ← stored_block_hash C S (sub64 from 1)
    rebound from stored
    raise replan

  abbrev pub fetched_logs : Result FetchError (List Log) → Result (IngestError S.Error) (List Log)
  fetched_logs (ok logs) = ok logs
  fetched_logs (err e) = err (fetch e)

  -- The fetch of a range, as a call of the world's provider.
  unfoldable pub fetch_range : ℕ → ℕ → Ingest C S (List Log)
  unfolding fetch_ingestion_logs
  fetch_range from to_block w =
      let fuel = suc (suc to_block) - from in
      let answer = fetch_ingestion_logs keccak256 C span_cap fuel from to_block w.provider in
      (fetched_logs answer.0, record w { provider = answer.1 })

  unfoldable pub write_range : ℕ → ℕ → List Block → List Log → Ingest C S (Unit {0})
  write_range from to_block blocks logs w =
      let answer = S.write_range from to_block blocks logs w.sink in
      (of_sink C S answer.0, record w { sink = answer.1 })

  -- The heights at which the logs and the blocks describe different chains.
  abbrev pub moved_heights : List Log → List Block → List ℕ → Ingest C S (List ℕ)
  moved_heights logs blocks [] = recheck_logless_blocks logs blocks
  moved_heights logs blocks (n ∷ ns) = pure (n ∷ ns)

  abbrev pub kept_logs : List Log → List Log
  kept_logs = filter (λ l. keep keccak256 l.topics l.address)

  -- The end of an attempt: the batch is written, or the heads that moved are dropped and the batch is
  -- fetched again, if there is an attempt left.
  abbrev pub commit :
      ℕ → ℕ → List Log → List Block → Ingest C S (Unit {0}) → Bool → List ℕ → Ingest C S (Unit {0})
  commit from to_block logs blocks again last [] = write_range from to_block blocks (kept_logs logs)
  commit from to_block logs blocks again true (n ∷ ns) = raise (unstable_blocks (n ∷ ns))
  commit from to_block logs blocks again false (n ∷ ns) =
      change C S (forget (λ k. elem k (n ∷ ns))) >> again

  abbrev pub with_metadata :
      ℕ → ℕ → Ingest C S (Unit {0}) → Bool → List Block → Ingest C S (Unit {0})
  with_metadata from to_block again last blocks = do
    logs ← fetch_range from to_block
    moved ← moved_heights logs blocks (disagreeing_heights logs blocks)
    commit from to_block logs blocks again last moved

  abbrev pub with_gap : ℕ → ℕ → Ingest C S (Unit {0}) → Bool → ℕ → Ingest C S (Unit {0})
  with_gap from to_block again last height =
      if height == from
      then boundary_moved from
      else if last
      then raise (unstable_headers height)
      else change C S (forget (λ k. leb (sub64 height 1) k && leb k to_block)) >> again

  -- What an attempt makes of the outcome of `blockMetadata`.
  abbrev pub after_metadata :
      ℕ
      → ℕ
      → Ingest C S (Unit {0})
      → Bool
      → Result (IngestError S.Error) (List Block)
      → Ingest C S (Unit {0})
  after_metadata from to_block again last (ok blocks) =
      with_metadata from to_block again last blocks
  after_metadata from to_block again last (err (discontinuity n)) =
      with_gap from to_block again last n
  after_metadata from to_block again last (err e) = raise e

  -- The attempts of `ingestBatch` that are left.
  unfoldable pub attempts : ℕ → ℕ → ℕ → Ingest C S (Unit {0})
  unfolding block_metadata recheck_logless_blocks fetch_range write_range boundary_moved
      disagreeing_heights filter keep elem forget
  attempts zero from to_block w = (err out_of_rounds, w)
  attempts (suc left) from to_block w =
      after_metadata from to_block (attempts left from to_block) (left == 0)
        (block_metadata from to_block w).0 (block_metadata from to_block w).1

  -- `ingestBatch`.
  unfoldable pub ingest_batch : ℕ → ℕ → Ingest C S (Unit {0})
  unfolding attempts
  ingest_batch = attempts batch_consistency_attempts

  unfoldable pub check_context : Ingest C S (Unit {0})
  check_context w =
      let answer = C.ctx_err w.provider in
      (if answer.0 then err cancelled else ok tt, record w { provider = answer.1 })

  -- A round of `ingestRange`; `rest` goes on above it.
  abbrev pub batch_at : ℕ → ℕ → Ingest C S (Unit {0}) → Ingest C S (Unit {0})
  batch_at from to_block rest =
      let batch_to = min (sub64 (add64 from catchup_batch_blocks) 1) to_block in
      check_context >> (ingest_batch from batch_to >> (change C S (advance batch_to) >> rest))

  -- The loop of `ingestRange` from `from` on, for as many rounds as are left.
  unfoldable pub batches_from : ℕ → ℕ → ℕ → Ingest C S (Unit {0})
  unfolding check_context ingest_batch advance
  batches_from zero from to_block = raise out_of_rounds
  batches_from (suc rounds) from to_block =
      if leb from to_block
      then batch_at from to_block (batches_from rounds (add64 from catchup_batch_blocks) to_block)
      else pure tt

  -- `ingestRange`: a batch takes a block at least, so there are enough rounds.
  unfoldable pub ingest_range : ℕ → ℕ → Ingest C S (Unit {0})
  unfolding batches_from
  ingest_range from to_block = batches_from (suc (suc to_block) - from) from to_block
