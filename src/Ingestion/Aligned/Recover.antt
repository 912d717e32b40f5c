-- ===== src/Ingestion/Aligned/Recover.antt =====
-- The recovery from a deep reorganisation, by the position of the sink and of the stream.
use ff_eth_logs.Base.{
  ℕ, zero, suc, ◌-◌, ◌≡◌, ◌≤◌, ◌<◌, inl, inr, Option, none, some, add64, arith, ap, ltb, ◌==◌,
}
use ff_eth_logs.Base.Exec.{ok, Result-cases, pure, raise, ◌>>=◌, ◌>>◌}
use ff_eth_logs.Base.Ensures.{
  Ensures, Ensures-pure, Ensures-raise, Ensures-bind, Ensures-if, Ensures-weaken,
}
use ff_eth_logs.Eventset.{Hash}
use ff_eth_logs.Chain.{BlockHead, EthClient, RpcError}
use ff_eth_logs.Ingestion.Sink.{Sink, SinkLaws}
use ff_eth_logs.Ingestion.Stream.{restart}
use ff_eth_logs.Ingestion.Subscriber.{
  World, Ingest, provider, sink, head_by_number, stored_block_hash, rewind, change, fork_below,
  fork_at, fork_found, find_fork_point, recover_deep_reorg, max_fork_walk, no_ancestor_within,
  no_ancestor_above_genesis, below_coverage,
}
use ff_eth_logs.Ingestion.Aligned.{
  Numbers, Aligned, AlignedAt, Fails, head_by_number-Ensures, stored_block_hash-Ensures,
}

module _ (C : EthClient) (S : Sink) (L : SinkLaws S) (numbers : Numbers C) where
  pub by_provider :
      (n : ℕ) (e : RpcError) (w : World C S) → AlignedAt C S L n w → Fails C S L (provider e) w
  by_provider n e w p = (p.0, tt)

  pub by_sink : (n : ℕ) (e : S.Error) (w : World C S) → AlignedAt C S L n w → Fails C S L (sink e) w
  by_sink n e w p = (p.0, tt)

  -- The ancestor that is found lies below the height `k`.
  abbrev Found : ℕ → ℕ → BlockHead → World C S → Type 0
  Found n k a w = AlignedAt C S L n w × (a.number < k)

  fork_at-Ensures :
      (n k : ℕ) (lower : Ingest C S BlockHead)
      → Ensures (AlignedAt C S L n) (Found n (suc k)) (Fails C S L) lower
      → (stored : Option Hash)
      → Ensures (AlignedAt C S L n) (Found n (suc k)) (Fails C S L) (fork_at C S k lower stored)
  fork_at-Ensures n k lower found none = Ensures-raise (below_coverage k) (λ w p. (p.0, tt))
  fork_at-Ensures n k lower found (some h) =
      Ensures-bind (head_by_number C S k) (fork_found C S h lower)
        (head_by_number-Ensures C S L (Fails C S L) n (by_provider n) numbers k)
        (λ a.
          Ensures-if (a.hash == h) (pure a) lower
            (λ e. Ensures-pure a (λ w p. (p.0, omega (arith, p.1))))
            (λ e. Ensures-weaken lower (λ w p. p.0) (λ b w p. p) found))

  fork_below-Ensures :
      (n height k : ℕ)
      → Ensures (AlignedAt C S L n) (Found n k) (Fails C S L) (fork_below C S height k)
  unfolding fork_below
  fork_below-Ensures n height zero = Ensures-raise no_ancestor_above_genesis (λ w p. (p.0, tt))
  fork_below-Ensures n height (suc k) =
      let lower = fork_below C S height k in
      let found =
        Ensures-weaken lower (λ w p. p) (λ a w p. (p.0, omega (arith, p.1)))
          (fork_below-Ensures n height k) in
      Ensures-if (ltb max_fork_walk (height - k)) (raise (no_ancestor_within height))
        (stored_block_hash C S k >>= fork_at C S k lower)
        (λ e. Ensures-raise (no_ancestor_within height) (λ w p. (p.0, tt)))
        (λ e.
          Ensures-bind (stored_block_hash C S k) (fork_at C S k lower)
            (stored_block_hash-Ensures C S L (Fails C S L) n (by_sink n) k)
            (fork_at-Ensures n k lower found))

  -- The stream restarts at an ancestor to which the sink was rewound.
  restart-Ensures :
      (n height : ℕ) (a : BlockHead)
      → Ensures
          (Found n height a)
          (λ _ w. Aligned C S L w × (w.stream.next ≤ height))
          (Fails C S L)
          (rewind C S a.number >> change C S (restart a))
  unfolding rewind restart add64
  restart-Ensures n height a = record {
    at = λ w p. elim (Result-cases (S.rewind a.number w.sink).0) [
      | inl (u, e) ↦ rw e (moved w p (ap (λ r. (r, (S.rewind a.number w.sink).1)) e))
      | inr (x, e) ↦ rw e (
        (
          L.rewind_failed w.stream.next a.number x w.sink (S.rewind a.number w.sink).1 p.0.0.0
              (ap (λ r. (r, (S.rewind a.number w.sink).1)) e),
          p.0.0.1,
          p.0.0.2,
        ),
        tt,
      )
    ];
  }
    where
      moved :
          (w : World C S)
          → Found n height a w
          → S.rewind a.number w.sink ≡ (ok tt, (S.rewind a.number w.sink).1)
          → Aligned C S L
              (record w { sink = (S.rewind a.number w.sink).1; stream = restart a w.stream })
            × (add64 a.number 1 ≤ height)
      moved w p e =
          let low =
            L.rewound w.stream.next a.number w.sink (S.rewind a.number w.sink).1 p.0.0.0 e in
          let same : add64 a.number 1 ≡ suc a.number = ground (arith, low.1, p.0.0.1) in
          (
            (rw same low.0, ground (arith, low.1, p.0.0.1), ground (arith, low.1, p.0.0.1)),
            ground (arith, p.1, same),
          )

  pub recover_deep_reorg-Ensures :
      (n height : ℕ)
      → Ensures
          (AlignedAt C S L n)
          (λ _ w. Aligned C S L w × (w.stream.next ≤ height))
          (Fails C S L)
          (recover_deep_reorg C S height)
  unfolding recover_deep_reorg find_fork_point
  recover_deep_reorg-Ensures n height =
      Ensures-bind (find_fork_point C S height) _ (fork_below-Ensures n height height)
        (restart-Ensures n height)
