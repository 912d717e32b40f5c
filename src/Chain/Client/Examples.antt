-- ===== src/Chain/Client/Examples.antt =====
-- Retries of three attempts, a node that is slow once and has an answer that is too big, and instances.
use Prim.Native.Nat.{zero}
use ff_eth_logs.Base.{
  ℕ, suc, ◌+◌, ◌≡◌, Bool, true, false, [], ◌∷◌, none, some, String, refl, if◌then◌else◌, ◌==◌,
}
use ff_eth_logs.Base.Exec.{Exec, Result, ok, err}
use ff_eth_logs.Base.Text.{codes}
use ff_eth_logs.Chain.{RpcError}
use ff_eth_logs.Chain.Errors.{is_too_many_results_error, contains_any}
use ff_eth_logs.Chain.Client.{
  CallError, plain, RawClient, Retried, answered, permanently, exhausted, once_more, Backoff, Urls,
  is_retryable_eth_error, redact_urls, execute_with_retry, real_eth_client,
}
use ff_eth_logs.Chain.Client.Retries.{rpc_error, real_eth_client-is_too_many}

abbrev pub failure : String → CallError
failure message = record {
  code = none;
  canceled = false;
  deadline = false;
  permanent = false;
  cause = record { message = codes message; times_out = false; op_error = none; dns_error = none };
  in_url = none;
}

abbrev too_big : CallError
too_big = failure "query returned more than 10000 results"

-- The first call finds the gateway down; every request for logs is too big.
abbrev pub node : RawClient
node = record {
  State = ℕ;
  subscribe = λ s. (ok tt, s + 1);
  filter_logs = λ from to_block topics s. (err too_big, s + 1);
  block_by_number = λ n s. (ok none, s + 1);
  block_receipts = λ n s. (ok [], s + 1);
  block_number = λ s. (if s == 0 then err (failure "503 Service Unavailable") else ok 100, s + 1);
  chain_id = λ s. (ok 1, s + 1);
  ctx_err = λ s. (false, s);
  sleep = λ s. s;
  wait = λ s. s;
  call_timeout = codes "1m0s";
}

abbrev pub no_urls : Urls
no_urls = record { parse = λ t. none; pieces = λ t. plain t ∷ [] }

module _ (R : RawClient) where
  abbrev next :
      {A : Type 0}
      → (R.State → Result CallError A × R.State)
      → Result CallError A × R.State
      → Result CallError A × R.State
  next rest (ok a, s) = (ok a, s)
  next rest (err e, s) = if e.permanent then (err e, s) else rest (R.wait s)

  unfoldable pub retry : {A : Type 0} → ℕ → Exec R.State CallError A → Exec R.State CallError A
  retry zero op s = op s
  retry (suc n) op s = next (retry n op) (op s)

  module _ {A : Type 0} (op : Exec R.State CallError A) where
    by_mark :
        (b : Bool) (e : CallError) (s s' : R.State) (rest : R.State → Result CallError A × R.State)
        → e.permanent ≡ b
        → op s ≡ (err e, s')
        → Retried R op (R.wait s') (rest (R.wait s'))
        → Retried R op s (if b then (err e, s') else rest (R.wait s'))
    by_mark true e s s' rest h f more = permanently f h
    by_mark false e s s' rest h f more = once_more f h more

    last_try : (s : R.State) (r : Result CallError A × R.State) → op s ≡ r → Retried R op s r
    last_try s (ok a, s') e = answered e
    last_try s (err x, s') e = marked x.permanent refl
      where
        marked : (b : Bool) → x.permanent ≡ b → Retried R op s (err x, s')
        marked true h = permanently e h
        marked false h = exhausted e h

    pub retry-Retried : (n : ℕ) (s : R.State) → Retried R op s (retry n op s)
    unfolding retry
    retry-Retried zero s = last_try s (op s) refl
    retry-Retried (suc n) s = after (op s) refl (retry-Retried n)
      where
        after :
            (r : Result CallError A × R.State)
            → op s ≡ r
            → ((t : R.State) → Retried R op t (retry n op t))
            → Retried R op s (next (retry n op) r)
        after (ok a, s') e go = answered e
        after (err x, s') e go = by_mark x.permanent x s s' (retry n op) refl e (go (R.wait s'))

abbrev pub three_tries : (R : RawClient) → Backoff R
three_tries R = record { retry = retry R 2; retried = λ op s. retry-Retried R op 2 s }

-- A gateway that is down is asked again.
asks_again : (real_eth_client node (three_tries node) no_urls).block_number 0 ≡ (ok 100, 2)
unfolding execute_with_retry retry
asks_again = refl

is_final : is_retryable_eth_error (redact_urls no_urls too_big) ≡ false
unfolding is_retryable_eth_error redact_urls
is_final = refl

has_no_url : (redact_urls no_urls too_big).cause.message ≡ too_big.cause.message
unfolding redact_urls
has_no_url = refl

too_big_splits :
    is_too_many_results_error (some (rpc_error node (three_tries node) no_urls too_big)) ≡ true
unfolding is_too_many_results_error contains_any
too_big_splits = refl

real_eth_client-is_too_many_example :
    (e : RpcError) × ((real_eth_client node (three_tries node) no_urls).filter_logs 5 9 [] 0
      ≡ (err e, 1))
    × (is_too_many_results_error (some e) ≡ true)
real_eth_client-is_too_many_example =
    real_eth_client-is_too_many node (three_tries node) no_urls 5 9 [] 0 1 too_big refl refl
      has_no_url is_final too_big_splits
