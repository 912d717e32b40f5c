-- ===== src/Chain/Errors.antt =====
-- internal/chain/errors.go: which provider errors mean that a window is too big. Texts are ASCII.
pub mod Laws
use ff_eth_logs.Base.{
  ℕ, ◌≡◌, Bool, true, false, ◌&&◌, ◌||◌, List, [], ◌∷◌, Option, none, some, String, map, any,
  if◌then◌else◌,
}
use ff_eth_logs.Base.Text.{codes, to_lower, contains}
use ff_eth_logs.Base.Int.{ℤ, negsuc, int_eq}
use ff_eth_logs.Chain.{RpcError}

unfoldable pub contains_any : RpcError → List String → Bool
unfolding any contains to_lower
contains_any e needles =
    let msg = map to_lower e.message in any (λ needle. contains msg (codes needle)) needles

unfoldable pub is_invalid_params : RpcError → Bool
is_invalid_params e = elim e.code [ none ↦ false | some code ↦ int_eq code (negsuc 32601) ]

-- A nil error is `none`.
unfoldable pub is_block_range_cap_error : Option RpcError → Bool
unfolding is_invalid_params
is_block_range_cap_error none = false
is_block_range_cap_error (some e) =
    if is_invalid_params e && contains_any e ("range" ∷ "limit" ∷ [])
    then true
    else contains_any e (
        "exceeds limit of" ∷ "block range limit" ∷ "exceeds max block range"
        ∷ "block range is too wide" ∷ "range too large" ∷ "range is too large" ∷ [])
      || (contains_any e ("limited to" ∷ []) && contains_any e ("block range" ∷ []))

unfoldable pub is_too_many_results_error : Option RpcError → Bool
is_too_many_results_error none = false
is_too_many_results_error (some e) =
    contains_any e (
      "query returned more than" ∷ "too many results" ∷ "too many logs" ∷ "exceeds max results"
      ∷ [])
    || is_block_range_cap_error (some e)
