-- ===== src/Chain/Client.antt =====
-- internal/chain/client.go: `RealEthClient`, the provider behind retries. go-ethereum's client, the
-- retries of package backoff, the URLs in a text and the parts of a URL are parameters. An error is
-- given by what the code asks of it; the number of an operation's tries and the time are the package's.
pub mod Retries
pub mod Examples
use ff_eth_logs.Base.{
  ℕ, ◌≡◌, Bool, true, false, not, ◌&&◌, ◌||◌, List, [], ◌∷◌, ◌++◌, Option, none, some, String, any,
  ltb, u64_mod, if◌then◌else◌, map,
}
use ff_eth_logs.Base.Exec.{Exec, Result, ok, err}
use ff_eth_logs.Base.Int.{ℤ}
use ff_eth_logs.Base.Text.{codes, to_lower, contains, decimal}
use ff_eth_logs.Eventset.{Hash}
use ff_eth_logs.Chain.{Log, BlockHead, RpcError, EthClient}

abbrev pub Text : Type 0
Text = List ℕ

pub data Errno : Type 0 where
  econnrefused econnreset enetunreach ehostunreach other_errno : Errno

-- What `isRetryableEthError` asks of an error: whether it is a timeout of the network, the number of a
-- failed system call, and whether a failed lookup of a name is temporary or timed out.
pub record Cause : Type 0 where
  pub message : Text
  pub times_out : Bool
  pub op_error : Option Errno
  pub dns_error : Option Bool

-- An error of a call: whether it is of the context, whether it is marked as permanent, and the error
-- inside a `url.Error`, if it is one.
pub record CallError : Type 0 where
  pub code : Option ℤ
  pub canceled : Bool
  pub deadline : Bool
  pub permanent : Bool
  pub cause : Cause
  pub in_url : Option Cause

-- `fmt.Errorf` with `%w` at the end.
abbrev pub wrap : Text → CallError → CallError
wrap prefix e = record e { cause = record e.cause { message = prefix ++ e.cause.message } }

abbrev pub retryable_messages : List String
retryable_messages =
    "connection refused" ∷ "connection reset" ∷ "connection timed out" ∷ "query cancelled"
    ∷ "i/o timeout" ∷ "broken pipe" ∷ "rate limit" ∷ "too many requests" ∷ "service unavailable"
    ∷ "bad gateway" ∷ "gateway timeout" ∷ "temporarily unavailable" ∷ "econnreset" ∷ "etimedout"
    ∷ "eof" ∷ "internal error" ∷ "502" ∷ "503" ∷ "504" ∷ []

-- `isTransientSyscall`.
abbrev pub is_transient_syscall : Errno → Bool
is_transient_syscall econnrefused = true
is_transient_syscall econnreset = true
is_transient_syscall enetunreach = true
is_transient_syscall ehostunreach = true
is_transient_syscall other_errno = false

abbrev pub has_transient_syscall : Option Errno → Bool
has_transient_syscall none = false
has_transient_syscall (some e) = is_transient_syscall e

abbrev pub asked_of : Cause → Option Cause → Cause
asked_of outer none = outer
asked_of outer (some inner) = inner

abbrev by_message : Text → Bool
by_message message =
    let msg = map to_lower message in any (λ needle. contains msg (codes needle)) retryable_messages

abbrev by_lookup : Cause → Option Bool → Bool
by_lookup c (some temporary) = temporary
by_lookup c none = by_message c.message

unfoldable pub is_retryable_cause : Cause → Bool
unfolding any contains to_lower
is_retryable_cause c =
    if c.times_out
    then true
    else if has_transient_syscall c.op_error
    then true
    else by_lookup c c.dns_error

-- `isRetryableEthError`.
unfoldable pub is_retryable_eth_error : CallError → Bool
unfolding is_retryable_cause
is_retryable_eth_error e =
    if e.canceled || e.deadline then false else is_retryable_cause (asked_of e.cause e.in_url)

-- The parts of a URL that `net/url` finds, and how a text falls into URLs and what stands between.
pub data Piece : Type 0 where
  plain url : Text → Piece

pub record Urls : Type 0 where
  pub parse : Text → Option (Text × Text)
  pub pieces : Text → List Piece

abbrev host_of : Option (Text × Text) → Text
host_of none = codes "<redacted>"
host_of (some (scheme, [])) = codes "<redacted>"
host_of (some (scheme, c ∷ host)) = scheme ++ (codes "://" ++ (c ∷ host))

-- `endpointForLogs`.
unfoldable pub endpoint_for_logs : Urls → Text → Text
endpoint_for_logs U raw = host_of (U.parse raw)

unfoldable pub redact_pieces : Urls → List Piece → Text
unfolding endpoint_for_logs
redact_pieces U [] = []
redact_pieces U (plain t ∷ rest) = t ++ redact_pieces U rest
redact_pieces U (url t ∷ rest) = endpoint_for_logs U t ++ redact_pieces U rest

-- `RedactURLs` of an error that is there.
unfoldable pub redact_urls : Urls → CallError → CallError
unfolding redact_pieces
redact_urls U e = record e {
  cause = record e.cause { message = redact_pieces U (U.pieces e.cause.message) };
}

-- go-ethereum's client, each call under a context of its own, and what the state is after a wait.
-- A block that the node does not have is `none`, the chain's id has any size, and `call_timeout` is the
-- text of the client's timeout as package time prints it.
pub record RawClient : Type 1 where
  pub State : Type 0
  pub subscribe : Exec State CallError (Unit {0})
  pub filter_logs : ℕ → ℕ → List (List Hash) → Exec State CallError (List Log)
  pub block_by_number : ℕ → Exec State CallError (Option BlockHead)
  pub block_receipts : ℕ → Exec State CallError (List (List Log))
  pub block_number : Exec State CallError ℕ
  pub chain_id : Exec State CallError ℕ
  pub ctx_err : State → Bool × State
  pub sleep : State → State
  pub wait : State → State
  pub call_timeout : Text

module _ (R : RawClient) where
  -- What package backoff documents of `Retry`: it calls the operation until it answers, fails with a
  -- permanent error, or the policy or the context ends the tries.
  pub data Retried {A : Type 0} (op : Exec R.State CallError A)
      : R.State → Result CallError A × R.State → Type 0 where
    answered : {s s' : R.State} {a : A} → op s ≡ (ok a, s') → Retried op s (ok a, s')
    permanently :
        {s s' : R.State} {e : CallError}
        → op s ≡ (err e, s')
        → e.permanent ≡ true
        → Retried op s (err e, s')
    exhausted :
        {s s' : R.State} {e : CallError}
        → op s ≡ (err e, s')
        → e.permanent ≡ false
        → Retried op s (err e, s')
    cut_short :
        {s s' : R.State} {e x : CallError}
        → op s ≡ (err e, s')
        → e.permanent ≡ false
        → (x.canceled || x.deadline) ≡ true
        → Retried op s (err x, s')
    once_more :
        {s s' : R.State} {e : CallError} {r : Result CallError A × R.State}
        → op s ≡ (err e, s')
        → e.permanent ≡ false
        → Retried op (R.wait s') r
        → Retried op s r

  pub record Backoff : Type 1 where
    pub retry : {A : Type 0} → Exec R.State CallError A → Exec R.State CallError A
    pub retried :
        {A : Type 0} (op : Exec R.State CallError A) (s : R.State) → Retried op s (retry op s)

-- An error of the client's own, marked by `backoff.Permanent`.
abbrev pub own_error : Text → CallError
own_error message = record {
  code = none;
  canceled = false;
  deadline = false;
  permanent = true;
  cause = record { message = message; times_out = false; op_error = none; dns_error = none };
  in_url = none;
}

abbrev pub to_rpc : {A : Type 0} → Result CallError A → Result RpcError A
to_rpc (ok a) = ok a
to_rpc (err e) = err (record { code = e.code; message = e.cause.message })

-- What becomes of an error that is not the deadline of the attempt alone.
unfoldable pub settled : CallError → CallError
unfolding is_retryable_eth_error
settled e =
    if is_retryable_eth_error e
    then wrap (codes "retryable error: ") e
    else record (wrap (codes "permanent error: ") e) { permanent = true }

abbrev pub failure_text : String → Text
failure_text name = codes "ethereum operation " ++ (codes name ++ codes " failed after retries: ")

module _ (R : RawClient) (B : Backoff R) (U : Urls) where
  abbrev pub Calls : Type 0 → Type 0
  Calls A = Exec R.State CallError A

  -- An attempt past its deadline, given whether the caller's context has ended too.
  abbrev pub exceeded_text : String → Text
  exceeded_text name =
      codes "retryable error: "
      ++ (codes name ++ (codes " exceeded " ++ (R.call_timeout ++ codes ": ")))

  abbrev pub at_deadline :
      {A : Type 0} → String → CallError → Bool × R.State → Result CallError A × R.State
  at_deadline name e (true, s) = (err (settled e), s)
  at_deadline name e (false, s) = (err (wrap (exceeded_text name) e), s)

  abbrev pub judged : {A : Type 0} → String → CallError → Calls A
  judged name e s = if e.deadline then at_deadline name e (R.ctx_err s) else (err (settled e), s)

  abbrev pub after_attempt :
      {A : Type 0} → String → Result CallError A × R.State → Result CallError A × R.State
  after_attempt name (ok a, s) = (ok a, s)
  after_attempt name (err e, s) = judged name (redact_urls U e) s

  -- `retryOperation`.
  unfoldable pub retry_operation : {A : Type 0} → String → Calls A → Calls A
  unfolding settled redact_urls
  retry_operation name op s = after_attempt name (op s)

  abbrev pub after_retries :
      {A : Type 0} → String → Result CallError A × R.State → Result CallError A × R.State
  after_retries name (ok a, s) = (ok a, s)
  after_retries name (err e, s) = (err (wrap (failure_text name) e), s)

  -- `executeWithRetry`.
  unfoldable pub execute_with_retry : {A : Type 0} → String → Calls A → Calls A
  unfolding retry_operation
  execute_with_retry name op s = after_retries name (B.retry (retry_operation name op) s)

  abbrev pub found :
      ℕ → Result CallError (Option BlockHead) × R.State → Result CallError BlockHead × R.State
  found n (ok (some h), s) = (ok h, s)
  found n (ok none, s) = (err (own_error (codes "block " ++ (decimal n ++ codes ": not found"))), s)
  found n (err e, s) = (err e, s)

  abbrev pub fitting : Result CallError ℕ × R.State → Result CallError ℕ × R.State
  fitting (ok n, s) =
      if ltb n u64_mod
      then (ok n, s)
      else (err (own_error (codes "chain id " ++ (decimal n ++ codes " does not fit uint64"))), s)
  fitting (err e, s) = (err e, s)

  abbrev pub method : {A : Type 0} → String → Calls A → Exec R.State RpcError A
  method name op s = (to_rpc (execute_with_retry name op s).0, (execute_with_retry name op s).1)

  -- `RealEthClient`.
  abbrev pub real_eth_client : EthClient
  real_eth_client = record {
    State = R.State;
    subscribe_new_head = method "SubscribeNewHead" R.subscribe;
    filter_logs = λ from to_block topics. method "FilterLogs" (R.filter_logs from to_block topics);
    head_by_number = λ n. method "HeadByNumber" (λ s. found n (R.block_by_number n s));
    block_receipts = λ n. method "BlockReceipts" (R.block_receipts n);
    block_number = method "BlockNumber" R.block_number;
    chain_id = method "ChainID" (λ s. fitting (R.chain_id s));
    ctx_err = R.ctx_err;
    sleep = R.sleep;
  }
