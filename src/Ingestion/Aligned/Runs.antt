-- ===== src/Ingestion/Aligned/Runs.antt =====
-- A run of the service, from its start to its end.
use ff_eth_logs.Base.{
  ℕ, suc, ◌+◌, ◌≡◌, ◌≤◌, ◌<◌, ◌⊎◌, inl, inr, true, false, Option, none, some, List, All, u64_mod,
  add64, arith, sym, subst, ap, Bool-cases, ◌==◌, String,
}
use ff_eth_logs.Base.Exec.{Result, ok, err, Result-cases, pure, raise}
use ff_eth_logs.Base.Ensures.{
  Ensures, Outcome, Ensures-pure, Ensures-raise, Ensures-bind, Ensures-if,
}
use ff_eth_logs.Eventset.{Hash}
use ff_eth_logs.Chain.{EthClient}
use ff_eth_logs.Chain.Pagination.{default_step_size}
use ff_eth_logs.Ingestion.Sink.{Sink, SinkLaws}
use ff_eth_logs.Ingestion.Subscriber.{of_sink, start_block_set, IngestError, World}
use ff_eth_logs.Ingestion.Aligned.{IsPosition, Numbers, IsHeight, Ends, Aligned, Fails}
use ff_eth_logs.Ingestion.Subscriber.{Config}
use ff_eth_logs.Ingestion.Run.{Event, follow_chain}
use ff_eth_logs.Ingestion.Run.{
  matching, verify_chain, latest_block, start_from, read_cursor, resolve_start_block, run,
}
use ff_eth_logs.Ingestion.Aligned.Follows.{IsLow, follow_chain-Aligned}

left :
    (C : EthClient) (S : Sink) (L : SinkLaws S) (r : Result (IngestError S.Error) (Unit {0}))
    (w : World C S)
    → Outcome (λ _ w'. Aligned C S L w') (Fails C S L) r w
    → Outcome (λ _ w'. L.IsWell w'.sink) (λ e w'. L.IsWell w'.sink × Ends e) r w
left C S L (ok u) w p = L.At-IsWell w.sink w.stream.next p.0
left C S L (err e) w p = (L.At-IsWell w.sink w.stream.next p.0.0, p.1)

module _ (keccak256 : String → Hash) (C : EthClient) (S : Sink) (config : Config) (span_cap : ℕ)
    (L : SinkLaws S) (numbers : Numbers C) (cap_bound : span_cap + 1 < u64_mod) where
  -- The run is over, and may be followed by another.
  abbrev pub Leaves : IngestError S.Error → World C S → Type 0
  Leaves e w = L.IsWell w.sink × Ends e

  verify_chain-Ensures :
      (s : S.State) (chain_id : ℕ)
      → L.IsWell s
      → Ensures
          (λ w. w.sink ≡ s)
          (λ _ w. w.sink ≡ s)
          Leaves
          (verify_chain keccak256 C S config span_cap chain_id)
  unfolding verify_chain
  verify_chain-Ensures s want well = record {
    at = λ w p. elim (Result-cases (C.chain_id w.provider).0) [
      | inl (got, e) ↦ rw e (matched w p got (Bool-cases (got == want)))
      | inr (x, e) ↦ rw e (subst L.IsWell (sym p) well, tt)
    ];
  }
    where
      matched :
          (w : World C S)
          → w.sink ≡ s
          → (got : ℕ) → ((got == want) ≡ true) ⊎ ((got == want) ≡ false)
          → Outcome
              (λ _ w. w.sink ≡ s)
              Leaves
              (matching keccak256 C S config span_cap want (ok got))
              (record w { provider = (C.chain_id w.provider).1 })
      matched w p got (inl e) = rw e p
      matched w p got (inr e) = rw e (subst L.IsWell (sym p) well, tt)

  read_cursor-Ensures :
      (s : S.State)
      → L.IsWell s
      → Ensures
          (λ w. w.sink ≡ s)
          (λ c w. S.cursor s ≡ (ok c, w.sink))
          Leaves
          (read_cursor keccak256 C S config span_cap)
  unfolding read_cursor
  read_cursor-Ensures s well = record {
    at = λ w p. answered w (S.cursor w.sink) (ap S.cursor (sym p));
  }
    where
      answered :
          (w : World C S) (a : Result S.Error (Option ℕ) × S.State)
          → S.cursor s ≡ a
          → Outcome
              (λ c w. S.cursor s ≡ (ok c, w.sink))
              Leaves
              (of_sink C S a.0)
              (record w { sink = a.1 })
      answered w (ok c, s') e = e
      answered w (err x, s') e = (L.cursor_failed x s s' well e, tt)

  module _ (s : S.State) (well : L.IsWell s) (start_block : ℕ)
      (start : start_block + default_step_size ≤ u64_mod)
      (resumable : (c : ℕ) → (S.cursor s).0 ≡ ok (some c) → IsHeight c)
      (latest : (p : C.State) (n : ℕ) → (C.block_number p).0 ≡ ok n → (0 < n) × IsHeight n) where
    abbrev Starts : ℕ → World C S → Type 0
    Starts n w = L.At w.sink n × IsPosition n

    latest_block-Ensures :
        Ensures
          (λ w. S.cursor s ≡ (ok none, w.sink))
          Starts
          Leaves
          (latest_block keccak256 C S config span_cap)
    unfolding latest_block
    latest_block-Ensures = record {
      at = λ w p. elim (Result-cases (C.block_number w.provider).0) [
        | inl (n, e) ↦
            let low = latest w.provider n e in
            rw e (L.empty s w.sink well p n, (low.0, omega (arith, low.1)))
        | inr (x, e) ↦ rw e (L.At-IsWell w.sink 0 (L.empty s w.sink well p 0), tt)
      ];
    }

    start_from-Ensures :
        (c : Option ℕ)
        → Ensures
            (λ w. S.cursor s ≡ (ok c, w.sink))
            Starts
            Leaves
            (start_from keccak256 C S config span_cap start_block c)
    unfolding start_from add64
    start_from-Ensures (some c) =
        Ensures-if (start_block == 0) (pure (add64 c 1)) (raise (start_block_set c))
          (λ e. Ensures-pure (add64 c 1) (λ w p.
            let low : IsHeight c = resumable c (ap (λ a. a.0) p) in
            let same : add64 c 1 ≡ suc c = ground (arith, low) in
            (
              subst (L.At w.sink) (sym same) (L.resumed c s w.sink well p),
              (ground (arith, low), ground (arith, low)),
            )))
          (λ e.
            Ensures-raise (start_block_set c)
              (λ w p. (L.At-IsWell w.sink (suc c) (L.resumed c s w.sink well p), tt)))
    start_from-Ensures none =
        Ensures-if (start_block == 0) (latest_block keccak256 C S config span_cap)
          (pure start_block) (λ e. latest_block-Ensures)
          (λ e.
            Ensures-pure start_block
              (λ w p. (L.empty s w.sink well p start_block, (ground (arith, e), start))))

    pub run-IsWell :
        (chain_id : ℕ) (events : List Event) (w : World C S)
        → w.sink ≡ s
        → All IsLow events
        → Outcome
            (λ _ w'. L.IsWell w'.sink)
            Leaves
            (run keccak256 C S config span_cap chain_id start_block events w).0
            (run keccak256 C S config span_cap chain_id start_block events w).1
    unfolding run resolve_start_block
    run-IsWell chain_id events w same low =
        (Ensures-bind (verify_chain keccak256 C S config span_cap chain_id) _
            (verify_chain-Ensures s chain_id well)
            (λ _.
              Ensures-bind (resolve_start_block keccak256 C S config span_cap start_block)
                (λ n. follow_chain keccak256 C S config span_cap n events)
                (Ensures-bind (read_cursor keccak256 C S config span_cap)
                  (start_from keccak256 C S config span_cap start_block)
                  (read_cursor-Ensures s well) start_from-Ensures)
                (λ n. record { at = λ w p. followed n w p }))).at
          w same
      where
        followed :
            (n : ℕ) (w : World C S)
            → Starts n w
            → Outcome
                (λ _ w'. L.IsWell w'.sink)
                Leaves
                (follow_chain keccak256 C S config span_cap n events w).0
                (follow_chain keccak256 C S config span_cap n events w).1
        followed n w p =
            left C S L (follow_chain keccak256 C S config span_cap n events w).0
              (follow_chain keccak256 C S config span_cap n events w).1
              (follow_chain-Aligned keccak256 C S config span_cap L numbers cap_bound n events w p.0
                p.1 low)
