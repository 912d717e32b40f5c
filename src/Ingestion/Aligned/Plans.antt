-- ===== src/Ingestion/Aligned/Plans.antt =====
-- The plan of a range: confirmed blocks from the stream's next on, and the bound on catch-up.
use ff_eth_logs.Base.{
  ℕ, suc, ◌+◌, ◌-◌, ◌≡◌, ◌≤◌, ◌⊎◌, inl, inr, true, false, ◌&&◌, Option, none, some, List, All,
  add64, sub64, arith, refl, sym, subst, ap, Bool-cases, ltb, leb,
}
use ff_eth_logs.Base.Exec.{Result-cases, pure, raise}
use ff_eth_logs.Base.Ensures.{
  Ensures, Outcome, Ensures-pure, Ensures-raise, Ensures-bind, Ensures-if,
}
use ff_eth_logs.Eventset.{lookup}
use ff_eth_logs.Chain.{BlockHead, EthClient}
use ff_eth_logs.Ingestion.Sink.{Sink, SinkLaws}
use ff_eth_logs.Ingestion.Stream.{Heads, put_head, StreamState, retain}
use ff_eth_logs.Ingestion.Subscriber.{catchup_too_large, World, head_by_number}
use ff_eth_logs.Ingestion.Aligned.{Numbers, IsHeight, Aligned, AlignedAt, Fails}
use ff_eth_logs.Ingestion.Subscriber.{Config}
use ff_eth_logs.Ingestion.Record.{record_all, is_retained}
use ff_eth_logs.Ingestion.Plan.{check_catchup_bound, highest, with_boundary, confirmed, plan_range}
use ff_eth_logs.Ingestion.Aligned.Rounds.{record_all-Ensures}

lookup-put_head : (n : ℕ) (h : BlockHead) (heads : Heads) → lookup n (put_head n h heads) ≡ some h
unfolding lookup put_head
lookup-put_head n h heads = ground arith

module _ (C : EthClient) (S : Sink) (config : Config) (L : SinkLaws S) (numbers : Numbers C) where
  -- The gap to the tip is within the bound, where there is one.
  abbrev pub IsBounded : StreamState → Type 0
  IsBounded st =
      (config.max_catchup_blocks ≡ 0) ⊎ (suc (st.tip - st.next) ≤ config.max_catchup_blocks)

  abbrev pub Planned : Option (ℕ × ℕ) → World C S → Type 0
  Planned none w = Aligned C S L w
  Planned (some (from, to_block)) w =
      AlignedAt C S L from w
      × (from ≤ to_block)
      × (to_block + config.confirmation_blocks ≤ w.stream.tip)
      × IsBounded w.stream
      × (is_retained (lookup to_block w.stream.heads) ≡ true)

  within :
      (st : StreamState)
      → (ltb 0 config.max_catchup_blocks
          && (leb st.next st.tip && ltb config.max_catchup_blocks (add64 (sub64 st.tip st.next) 1)))
        ≡ false
      → IsHeight st.tip
      → IsBounded st
  unfolding add64 sub64
  within st e low = elim (Bool-cases (ltb 0 config.max_catchup_blocks)) [
    | inl some_bound ↦ inr (ground (arith, e, low, some_bound))
    | inr no_bound ↦ inl (ground (arith, no_bound))
  ]

  check_catchup_bound-Ensures :
      (st : StreamState)
      → IsHeight st.tip
      → Ensures
          (λ w. Aligned C S L w × (w.stream ≡ st))
          (λ _ w. Aligned C S L w × (w.stream ≡ st) × IsBounded st)
          (Fails C S L)
          (check_catchup_bound C S config st.next st.tip)
  unfolding check_catchup_bound add64 sub64
  check_catchup_bound-Ensures st low =
      Ensures-if
        (ltb 0 config.max_catchup_blocks
          && (leb st.next st.tip && ltb config.max_catchup_blocks (add64 (sub64 st.tip st.next) 1)))
        (raise (catchup_too_large st.next st.tip config.max_catchup_blocks)) (pure tt)
        (λ e.
          Ensures-raise (catchup_too_large st.next st.tip config.max_catchup_blocks)
            (λ w p. (p.0, tt)))
        (λ e. Ensures-pure tt (λ w p. (p.0, p.1, within st e low)))

  asked-Ensures :
      (st : StreamState) (n : ℕ)
      → Ensures
          (λ w. Aligned C S L w × (w.stream ≡ st))
          (λ _ w. Aligned C S L w × (w.stream ≡ st))
          (Fails C S L)
          (head_by_number C S n)
  unfolding head_by_number
  asked-Ensures st n = record {
    at = λ w p. elim (Result-cases (C.head_by_number n w.provider).0) [
      | inl (h, e) ↦ rw e p
      | inr (x, e) ↦ rw e (p.0, tt)
    ];
  }

  with_boundary-Ensures :
      (st : StreamState) (to_block : ℕ)
      → st.next ≤ to_block
      → to_block + config.confirmation_blocks ≤ st.tip
      → IsBounded st
      → (o : Option BlockHead) → lookup to_block st.heads ≡ o
      → Ensures
          (λ w. Aligned C S L w × (w.stream ≡ st))
          Planned
          (Fails C S L)
          (with_boundary C S config st.next to_block o)
  unfolding retain
  with_boundary-Ensures st to_block h deep bounded (some x) e =
      Ensures-pure (some (st.next, to_block)) (λ w p. (
        (p.0, ap (λ s. s.next) p.1),
        h,
        subst (λ s. to_block + config.confirmation_blocks ≤ s.tip) (sym p.1) deep,
        subst IsBounded (sym p.1) bounded,
        subst (λ s. is_retained (lookup to_block s.heads) ≡ true) (sym p.1) (ap is_retained e),
      ))
  with_boundary-Ensures st to_block h deep bounded none e =
      Ensures-bind (head_by_number C S to_block) _ (asked-Ensures st to_block) (λ boundary. record {
        at = λ w p. (
          (p.0, ap (λ s. s.next) p.1),
          h,
          subst (λ s. to_block + config.confirmation_blocks ≤ s.tip) (sym p.1) deep,
          subst IsBounded (sym p.1) bounded,
          ap is_retained (lookup-put_head to_block boundary w.stream.heads),
        );
      })

  confirmed-Ensures :
      (st : StreamState)
      → Ensures
          (λ w. Aligned C S L w × (w.stream ≡ st) × IsBounded st)
          Planned
          (Fails C S L)
          (confirmed C S config st)
  unfolding sub64
  confirmed-Ensures st = record {
    at = λ w p.
        (Ensures-if (ltb st.tip config.confirmation_blocks) (pure none) _
            (λ e. Ensures-pure none (λ w p. p.0))
            (λ e.
              Ensures-if (ltb (sub64 st.tip config.confirmation_blocks) st.next) (pure none)
                (with_boundary C S config st.next (sub64 st.tip config.confirmation_blocks)
                  (lookup (sub64 st.tip config.confirmation_blocks) st.heads))
                (λ f. Ensures-pure none (λ w p. p.0))
                (λ f.
                  with_boundary-Ensures st (sub64 st.tip config.confirmation_blocks)
                    (ground (arith, e, f)) (ground (arith, e, tip_bound st w p)) p.2
                    (lookup (sub64 st.tip config.confirmation_blocks) st.heads) refl))).at
          w (p.0, p.1);
  }
    where
      tip_bound :
          (st : StreamState) (w : World C S)
          → Aligned C S L w × (w.stream ≡ st) × IsBounded st
          → IsHeight st.tip
      tip_bound st w p = subst (λ s. IsHeight s.tip) p.1 p.0.2

  check_catchup_bound-Aligned :
      (next tip : ℕ)
      → Ensures
          (Aligned C S L)
          (λ _ w. Aligned C S L w)
          (Fails C S L)
          (check_catchup_bound C S config next tip)
  unfolding check_catchup_bound
  check_catchup_bound-Aligned next tip =
      Ensures-if
        (ltb 0 config.max_catchup_blocks
          && (leb next tip && ltb config.max_catchup_blocks (add64 (sub64 tip next) 1)))
        (raise (catchup_too_large next tip config.max_catchup_blocks)) (pure tt)
        (λ e. Ensures-raise (catchup_too_large next tip config.max_catchup_blocks) (λ w p. (p, tt)))
        (λ e. Ensures-pure tt (λ w p. p))

  pub plan_range-Ensures :
      (batch : List BlockHead)
      → All (λ h. IsHeight h.number) batch
      → Ensures (Aligned C S L) Planned (Fails C S L) (plan_range C S config batch)
  unfolding plan_range
  plan_range-Ensures batch low = record {
    at = λ w p.
        (Ensures-bind
            (check_catchup_bound C S config w.stream.next (highest C S config w.stream.tip batch)) _
            (check_catchup_bound-Aligned w.stream.next (highest C S config w.stream.tip batch))
            (λ _.
              Ensures-bind (record_all C S batch) _ (record_all-Ensures C S L numbers batch low)
                (λ _. record {
                  at = λ w' q.
                      (Ensures-bind (check_catchup_bound C S config w'.stream.next w'.stream.tip)
                          (λ _. confirmed C S config w'.stream)
                          (check_catchup_bound-Ensures w'.stream q.2)
                          (λ _. confirmed-Ensures w'.stream)).at
                        w' (q, refl);
                }))).at
          w p;
  }

  -- For any provider whose heads have the heights they are asked for, any sink that keeps the laws, and
  -- heads that do not come near 2^64: a plan that names a range starts it at the stream's next block,
  -- which is the sink's, and ends it at a block with the required confirmations below the tip, whose
  -- head is retained; where catch-up is bounded, the gap to the tip is within the bound. A plan that
  -- fails leaves the sink and the stream aligned.
  pub plan_range-Planned :
      (batch : List BlockHead) (w : World C S)
      → All (λ h. IsHeight h.number) batch
      → Aligned C S L w
      → Outcome Planned
          (Fails C S L)
          (plan_range C S config batch w).0
          (plan_range C S config batch w).1
  plan_range-Planned batch w low p = (plan_range-Ensures batch low).at w p
