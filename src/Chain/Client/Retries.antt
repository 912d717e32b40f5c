-- ===== src/Chain/Client/Retries.antt =====
-- What a call returns after its retries.
use ff_eth_logs.Base.{
  ℕ, ◌≡◌, Bool, true, false, List, [], ◌++◌, Option, some, String, refl, sym, ap, ◌∙◌, subst, ◌⊎◌,
  inl, inr, ◌||◌, if◌then◌else◌, Bool-cases,
}
use mathlib.Core.List.{append_assoc, append-nil}
use ff_eth_logs.Base.Exec.{Result, ok, err}
use ff_eth_logs.Base.Ensures.{Outcome}
use ff_eth_logs.Base.Int.{ℤ}
use ff_eth_logs.Base.Text.{codes}
use ff_eth_logs.Eventset.{Hash}
use ff_eth_logs.Chain.{Log, RpcError}
use ff_eth_logs.Chain.Errors.{is_too_many_results_error}
use ff_eth_logs.Chain.Errors.Laws.{is_too_many_results_error-wrapped}
use ff_eth_logs.Chain.Client.{
  Text, CallError, RawClient, Retried, answered, permanently, exhausted, cut_short, once_more,
  Backoff, Urls, wrap, to_rpc, settled, is_retryable_eth_error, redact_urls, failure_text, Calls,
  at_deadline, exceeded_text, judged, after_attempt, retry_operation, after_retries,
  execute_with_retry, real_eth_client,
}

-- The error has the code of another and its text, behind a prefix.
abbrev pub Tells : CallError → CallError → Type 0
Tells e x = (prefix : Text) × (e.cause.message ≡ prefix ++ x.cause.message) × (e.code ≡ x.code)

settled-Tells : (x : CallError) → Tells (settled x) x
unfolding settled
settled-Tells x = elim (Bool-cases (is_retryable_eth_error x)) [
  | inl h ↦ rw h (codes "retryable error: ", refl, refl)
  | inr h ↦ rw h (codes "permanent error: ", refl, refl)
]

if_false : {A : Type 0} (b : Bool) (x y : A) → b ≡ false → (if b then x else y) ≡ y
if_false true x y e = absurd (cc e)
if_false false x y e = refl

-- The error of an attempt that is not tried again.
abbrev as_permanent : CallError → CallError
as_permanent e = record (wrap (codes "permanent error: ") e) { permanent = true }

settled_permanent : (y : CallError) → is_retryable_eth_error y ≡ false → settled y ≡ as_permanent y
unfolding settled
settled_permanent y e =
    if_false (is_retryable_eth_error y) (wrap (codes "retryable error: ") y) (as_permanent y) e

judged_once :
    (R : RawClient) (B : Backoff R) (U : Urls) {A : Type 0} (name : String) (y : CallError)
    (t : R.State)
    → y.deadline ≡ false
    → is_retryable_eth_error y ≡ false
    → judged R B U {A = A} name y t ≡ (err (as_permanent y), t)
judged_once R B U {A} name y t late retryable =
    if_false y.deadline (at_deadline R B U {A = A} name y (R.ctx_err t)) (err (settled y), t) late
    ∙ ap (λ e. (err e, t)) (settled_permanent y retryable)

wrapped-Tells : (before : Text) (e x : CallError) → Tells e x → Tells (wrap before e) x
wrapped-Tells before e x (prefix, text, code) =
    (before ++ prefix, ap (λ m. before ++ m) text ∙ sym (append_assoc before prefix _), code)

module _ (R : RawClient) (B : Backoff R) (U : Urls) where
  module _ {A : Type 0} (op : Calls R B U A) where
    -- An attempt ended with this.
    abbrev pub Attempted : Result CallError A → Type 0
    Attempted r = (s : R.State) × ((op s).0 ≡ r)

    -- An error tells that of an attempt, with the URLs reduced, or the end of the context.
    abbrev pub IsTold : CallError → Type 0
    IsTold e =
        ((x : CallError) × Attempted (err x) × Tells e (redact_urls U x))
        ⊎ ((e.canceled || e.deadline) ≡ true)

    abbrev Judges : CallError → Result CallError A × R.State → Type 0
    Judges x (ok a, s) = ⊥
    Judges x (err e, s) = Tells e x

    judged-Judges :
        (name : String) (x : CallError) (t : R.State) → Judges x (judged R B U {A = A} name x t)
    judged-Judges name x t = by_deadline x.deadline
      where
        late : (c : Bool × R.State) → Judges x (at_deadline R B U {A = A} name x c)
        late (true, s) = settled-Tells x
        late (false, s) = (exceeded_text R B U name, refl, refl)

        by_deadline :
            (b : Bool)
            → Judges x
                (if b then at_deadline R B U {A = A} name x (R.ctx_err t) else (err (settled x), t))
        by_deadline true = late (R.ctx_err t)
        by_deadline false = settled-Tells x

    -- What an attempt ends with, after its error was judged.
    abbrev OfAttempt : Result CallError A × R.State → Type 0
    OfAttempt (ok a, s) = Attempted (ok a)
    OfAttempt (err e, s) = (x : CallError) × Attempted (err x) × Tells e (redact_urls U x)

    retry_operation-OfAttempt :
        (name : String) (s : R.State) → OfAttempt (retry_operation R B U name op s)
    unfolding retry_operation
    retry_operation-OfAttempt name s = after (op s) refl
      where
        judged_of :
            (x : CallError)
            → Attempted (err x)
            → (r : Result CallError A × R.State) → Judges (redact_urls U x) r
            → OfAttempt r
        judged_of x at (ok a, t) j = absurd j
        judged_of x at (err e, t) j = (x, at, j)

        after :
            (r : Result CallError A × R.State) → op s ≡ r → OfAttempt (after_attempt R B U name r)
        after (ok a, t) e = (s, ap (λ r. r.0) e)
        after (err x, t) e =
            judged_of x (s, ap (λ r. r.0) e) (judged R B U {A = A} name (redact_urls U x) t)
              (judged-Judges name (redact_urls U x) t)

    abbrev Ended : Result CallError A × R.State → Type 0
    Ended (ok a, s) = Attempted (ok a)
    Ended (err e, s) = IsTold e

    Retried-Ended :
        (name : String) (s : R.State) (r : Result CallError A × R.State)
        → Retried R (retry_operation R B U name op) s r
        → Ended r
    Retried-Ended name s r (answered e) = subst OfAttempt e (retry_operation-OfAttempt name s)
    Retried-Ended name s r (permanently e h) =
        inl (subst OfAttempt e (retry_operation-OfAttempt name s))
    Retried-Ended name s r (exhausted e h) =
        inl (subst OfAttempt e (retry_operation-OfAttempt name s))
    Retried-Ended name s r (cut_short e h c) = inr c
    Retried-Ended name s r (once_more {s' = s'} e h more) = Retried-Ended name (R.wait s') r more

    pub execute_with_retry-IsTold :
        (name : String) (s : R.State)
        → Outcome
            (λ a _. Attempted (ok a))
            (λ e _. IsTold e)
            (execute_with_retry R B U name op s).0
            (execute_with_retry R B U name op s).1
    unfolding execute_with_retry
    execute_with_retry-IsTold name s = ended (B.retry (retry_operation R B U name op) s) (
        Retried-Ended name s (B.retry (retry_operation R B U name op) s)
          (B.retried (retry_operation R B U name op) s))
      where
        ended :
            (r : Result CallError A × R.State)
            → Ended r
            → Outcome
                (λ a _. Attempted (ok a))
                (λ e _. IsTold e)
                (after_retries R B U name r).0
                (after_retries R B U name r).1
        ended (ok a, t) o = o
        ended (err e, t) (inl (x, at, tells)) =
            inl (x, at, wrapped-Tells (failure_text name) e (redact_urls U x) tells)
        ended (err e, t) (inr c) = inr c

    permanent_once :
        (name : String) (s t : R.State) (y : CallError) (r : Result CallError A × R.State)
        → retry_operation R B U name op s ≡ (err y, t)
        → y.permanent ≡ true
        → Retried R (retry_operation R B U name op) s r
        → r ≡ (err y, t)
    permanent_once name s t y r e h (answered f) = absurd (cc (e, f))
    permanent_once name s t y r e h (permanently f g) = sym f ∙ e
    permanent_once name s t y r e h (exhausted f g) = absurd (cc (e, f, g, h))
    permanent_once name s t y r e h (cut_short f g c) = absurd (cc (e, f, g, h))
    permanent_once name s t y r e h (once_more f g more) = absurd (cc (e, f, g, h))

    -- The error that is returned for one that is not worth a retry.
    abbrev pub given_up : String → CallError → CallError
    given_up name x = wrap (failure_text name) (as_permanent (redact_urls U x))

    pub execute_with_retry_once :
        (name : String) (s t : R.State) (x : CallError)
        → op s ≡ (err x, t)
        → x.deadline ≡ false
        → is_retryable_eth_error (redact_urls U x) ≡ false
        → execute_with_retry R B U name op s ≡ (err (given_up name x), t)
    unfolding execute_with_retry
    execute_with_retry_once name s t x e late retryable = ap (after_retries R B U name) (
        permanent_once name s t (as_permanent (redact_urls U x))
          (B.retry (retry_operation R B U name op) s) (first e) refl
          (B.retried (retry_operation R B U name op) s))
      where
        first :
            op s ≡ (err x, t)
            → retry_operation R B U name op s ≡ (
              err (record (wrap (codes "permanent error: ") (redact_urls U x)) {
                permanent = true;
              }),
              t,
            )
        first e =
            ap (after_attempt R B U name) e
            ∙ judged_once R B U name (redact_urls U x) t late retryable

module _ (R : RawClient) (B : Backoff R) (U : Urls) where
  -- The text and the code of an error, as the paginator sees them.
  abbrev pub rpc_error : CallError → RpcError
  rpc_error x = record { code = x.code; message = x.cause.message }

  redact_code : (x : CallError) → x.code ≡ (redact_urls U x).code
  unfolding redact_urls
  redact_code x = refl

  still_too_many :
      (op : Calls R B U (List Log)) (x : CallError)
      → (redact_urls U x).cause.message ≡ x.cause.message
      → is_too_many_results_error (some (rpc_error x)) ≡ true
      → is_too_many_results_error (some (rpc_error (given_up R B U op "FilterLogs" x))) ≡ true
  still_too_many op x no_url too_many =
      let before = failure_text "FilterLogs" in
      let inner = codes "permanent error: " in
      subst (λ c. IsTooMany c (before ++ (inner ++ (redact_urls U x).cause.message)))
        (redact_code x)
        (subst (IsTooMany x.code) (regroup before inner)
          (is_too_many_results_error-wrapped (before ++ inner) [] (rpc_error x) too_many))
    where
      IsTooMany : Option ℤ → Text → Type 0
      IsTooMany c m = is_too_many_results_error (some (record { code = c; message = m })) ≡ true

      regroup :
          (before inner : Text)
          → (before ++ inner) ++ (x.cause.message ++ [])
            ≡ before ++ (inner ++ (redact_urls U x).cause.message)
      regroup before inner = rw (no_url, append-nil) (append_assoc before inner x.cause.message)

  -- A request for logs that the provider refuses for the size of the answer is tried once: the paginator
  -- gets an error that still asks for a smaller window. The attempt did not exceed its deadline, the
  -- error has no URL in its text, and its text does not make it one to try again.
  pub real_eth_client-is_too_many :
      (from to_block : ℕ) (topics : List (List Hash)) (s t : R.State) (x : CallError)
      → R.filter_logs from to_block topics s ≡ (err x, t)
      → x.deadline ≡ false
      → (redact_urls U x).cause.message ≡ x.cause.message
      → is_retryable_eth_error (redact_urls U x) ≡ false
      → is_too_many_results_error (some (rpc_error x)) ≡ true
      → (e : RpcError) × ((real_eth_client R B U).filter_logs from to_block topics s ≡ (err e, t))
        × (is_too_many_results_error (some e) ≡ true)
  real_eth_client-is_too_many from to_block topics s t x e late no_url retryable too_many =
      let once =
        execute_with_retry_once R B U (R.filter_logs from to_block topics) "FilterLogs" s t x e late
          retryable in
      (
        rpc_error (given_up R B U (R.filter_logs from to_block topics) "FilterLogs" x),
        ap (λ r. (to_rpc r.0, r.1)) once,
        still_too_many (R.filter_logs from to_block topics) x no_url too_many,
      )
