-- ===== src/Ingestion/Record.antt =====
-- internal/ingestion/subscriber.go: how a head is reconciled with what is retained, and recorded.
-- The walk of `reconcile` recurs on the height; `record` recurs on fuel.
use ff_eth_logs.Base.{
  ℕ, zero, suc, List, [], ◌∷◌, Option, none, some, Bool, true, false, not, ◌&&◌, ◌||◌, ltb, ◌==◌,
  sub64, if◌then◌else◌,
}
use ff_eth_logs.Base.Exec.{Result, ok, err, pure, raise, ◌>>=◌, ◌>>◌}
use ff_eth_logs.Eventset.{Hash, lookup}
use ff_eth_logs.Chain.{BlockHead, EthClient}
use ff_eth_logs.Ingestion.Sink.{Sink}
use ff_eth_logs.Ingestion.Stream.{
  StreamState, retain, nearest_retained_below, truncate_above, retain_tip,
}
use ff_eth_logs.Ingestion.Subscriber.{
  out_of_rounds, deep_reorg, IngestError, Ingest, head_by_number, stored_block_hash, position,
  change, recover_deep_reorg, max_bridge_walk,
}

-- What `reconcile` returns: whether the head is stale, and whether a retained head was replaced.
abbrev pub Verdict : Type 0
Verdict = Bool × Bool

-- Whether a retained head differs from the canonical one.
abbrev pub differs : Option BlockHead → BlockHead → Bool
differs none canonical = false
differs (some retained) canonical = not (retained.hash == canonical.hash)

abbrev pub rejoins : Hash → Option BlockHead → Bool
rejoins expected none = false
rejoins expected (some retained) = retained.hash == expected

abbrev pub is_retained : Option BlockHead → Bool
is_retained none = false
is_retained (some h) = true

abbrev pub is_stored : Option Hash → Hash → Bool
is_stored none h = false
is_stored (some stored) h = stored == h

abbrev pub same_head : Option BlockHead → BlockHead → Bool
same_head none h = false
same_head (some prev) h = prev.hash == h.hash

module _ (C : EthClient) (S : Sink) where
  -- The end of a round at height `k`: the canonical head is retained, and the walk goes on below it,
  -- or ends because the incoming head's ancestry is not canonical.
  abbrev pub step_below :
      ℕ → Hash → BlockHead → Bool → (Hash → Bool → Ingest C S Verdict) → Ingest C S Verdict
  step_below k expected canonical replaced lower = do
    change C S (retain k canonical)
    if canonical.hash == expected
        then lower canonical.parent_hash replaced
        else pure (true, replaced)

  -- The middle of a round, given what is retained at height `k` and the canonical head there.
  abbrev pub compare_at :
      ℕ
      → ℕ
      → Hash
      → Bool
      → Option BlockHead
      → (Hash → Bool → Ingest C S Verdict)
      → BlockHead
      → Ingest C S Verdict
  compare_at next k expected replaced retained lower canonical =
      if differs retained canonical
      then (if ltb k next then raise (deep_reorg k) else step_below k expected canonical true lower)
      else step_below k expected canonical replaced lower

  -- A round of `reconcile` at height `k`.
  abbrev pub round_at :
      Bool → ℕ → Hash → Bool → (Hash → Bool → Ingest C S Verdict) → StreamState → Ingest C S Verdict
  round_at bridge k expected replaced lower st =
      let retained = lookup k st.heads in
      if rejoins expected retained || (not (is_retained retained) && (not bridge || ltb k st.next))
      then pure (false, replaced)
      else head_by_number C S k >>= compare_at st.next k expected replaced retained lower

  -- The loop of `reconcile`, from the height below `n` on. Below height 0 it ends.
  unfoldable pub reconcile_below : Bool → ℕ → Hash → Bool → Ingest C S Verdict
  unfolding lookup head_by_number retain
  reconcile_below bridge zero expected replaced = pure (false, replaced)
  reconcile_below bridge (suc k) expected replaced =
      position C S >>= round_at bridge k expected replaced (reconcile_below bridge k)

  abbrev pub verify_far : BlockHead → Ingest C S Verdict
  verify_far h = do
    canonical ← head_by_number C S h.number
    pure (not (canonical.hash == h.hash), false)

  -- `reconcile`.
  unfoldable pub reconcile : BlockHead → Ingest C S Verdict
  unfolding lookup head_by_number reconcile_below nearest_retained_below
  reconcile h = if h.number == 0 then pure (false, false) else do
    st ← position C S
    let bridge = is_retained (lookup (sub64 st.next 1) st.heads)
    let far = ltb max_bridge_walk (sub64 h.number (nearest_retained_below h.number st.heads))
    if bridge && far then verify_far h else reconcile_below bridge h.number h.parent_hash false

  -- The end of `record`, for a head that is not stale.
  abbrev pub accept : BlockHead → Option BlockHead → Ingest C S (Unit {0})
  accept h prev = do
    change C S (λ st. if differs prev h then truncate_above h.number st else st)
    change C S (retain_tip h.number h)

  abbrev pub record_reconciled : BlockHead → Option BlockHead → Verdict → Ingest C S (Unit {0})
  record_reconciled h prev (stale, replaced) = do
    change C S (λ st. if replaced then truncate_above (sub64 h.number 1) st else st)
    if stale then pure tt else accept h prev

  -- What `record` makes of the outcome of `reconcile`; `again` is its own call.
  abbrev pub after_reconcile :
      BlockHead
      → Option BlockHead
      → Ingest C S (Unit {0})
      → Result (IngestError S.Error) Verdict
      → Ingest C S (Unit {0})
  after_reconcile h prev again (ok verdict) = record_reconciled h prev verdict
  after_reconcile h prev again (err (deep_reorg k)) = recover_deep_reorg C S k >> again
  after_reconcile h prev again (err e) = raise e

  abbrev pub reconcile_first :
      BlockHead → Option BlockHead → Ingest C S (Unit {0}) → Ingest C S (Unit {0})
  reconcile_first h prev again w = after_reconcile h prev again (reconcile h w).0 (reconcile h w).1

  -- `handleWrittenHeightHead`; `again` is the call of `record`.
  unfoldable pub handle_written : BlockHead → Ingest C S (Unit {0}) → Ingest C S (Unit {0})
  unfolding stored_block_hash head_by_number recover_deep_reorg
  handle_written h again = do
    stored ← stored_block_hash C S h.number
    if is_stored stored h.hash then pure tt else do
      canonical ← head_by_number C S h.number
      if is_stored stored canonical.hash then pure tt else recover_deep_reorg C S h.number >> again

  abbrev pub record_at : BlockHead → Ingest C S (Unit {0}) → StreamState → Ingest C S (Unit {0})
  record_at h again st =
      let prev = lookup h.number st.heads in
      if ltb h.number st.lower_bound
      then pure tt
      else if ltb h.number st.next
      then (if same_head prev h then pure tt else handle_written h again)
      else reconcile_first h prev again

  -- `record`.
  unfoldable pub record_head : ℕ → BlockHead → Ingest C S (Unit {0})
  unfolding lookup handle_written reconcile recover_deep_reorg truncate_above retain_tip
  record_head zero h = raise out_of_rounds
  record_head (suc fuel) h = position C S >>= record_at h (record_head fuel h)

  -- Enough rounds: the first block to write falls with each recovery.
  abbrev pub record_all : List BlockHead → Ingest C S (Unit {0})
  record_all [] = pure tt
  record_all (h ∷ hs) = do st ← position C S; record_head (suc st.next) h; record_all hs
