-- ===== src/Chain/Errors/Laws.antt =====
-- How the two classes relate, and what wrapping an error does to them.
use ff_eth_logs.Base.{
  ℕ, ◌≡◌, Bool, true, List, [], ◌∷◌, ◌++◌, Option, none, some, String, map, any, arith,
}
use mathlib.Core.List.{map-append}
use ff_eth_logs.Base.Text.{codes, to_lower, contains-append}
use ff_eth_logs.Chain.{RpcError}
use ff_eth_logs.Chain.Errors.{contains_any, is_block_range_cap_error, is_too_many_results_error}

-- Every span cap counts as "too many results".
pub is_block_range_cap_error-is_too_many :
    (e : Option RpcError) → is_block_range_cap_error e ≡ true → is_too_many_results_error e ≡ true
unfolding is_too_many_results_error is_block_range_cap_error
is_block_range_cap_error-is_too_many none h = h
is_block_range_cap_error-is_too_many (some e) h = ground arith

-- `fmt.Errorf("before: %w", e)`, and what a caller may add behind: the code is still found.
abbrev pub wrapped : List ℕ → List ℕ → RpcError → RpcError
wrapped before after e = record e { message = before ++ (e.message ++ after) }

any_mono :
    (p q : String → Bool) (xs : List String)
    → ((x : String) → p x ≡ true → q x ≡ true)
    → any p xs ≡ true
    → any q xs ≡ true
unfolding any
any_mono p q [] h k = k
any_mono p q (x ∷ xs) h k = ground (arith, h x, any_mono p q xs h)

pub contains_any-wrapped :
    (before after : List ℕ) (e : RpcError) (needles : List String)
    → contains_any e needles ≡ true
    → contains_any (wrapped before after e) needles ≡ true
unfolding contains_any
contains_any-wrapped before after e needles = any_mono _ _ needles λ x h.
    rw (map-append, map-append)
      (contains-append (map to_lower before) (map to_lower e.message) (map to_lower after) (codes x)
        h)

pub is_block_range_cap_error-wrapped :
    (before after : List ℕ) (e : RpcError)
    → is_block_range_cap_error (some e) ≡ true
    → is_block_range_cap_error (some (wrapped before after e)) ≡ true
unfolding is_block_range_cap_error
is_block_range_cap_error-wrapped before after e h = grind (arith, contains_any-wrapped)

-- An error that asks for a smaller window still does so when text is put around its message.
pub is_too_many_results_error-wrapped :
    (before after : List ℕ) (e : RpcError)
    → is_too_many_results_error (some e) ≡ true
    → is_too_many_results_error (some (wrapped before after e)) ≡ true
unfolding is_too_many_results_error
is_too_many_results_error-wrapped before after e h =
    grind (arith, contains_any-wrapped, is_block_range_cap_error-wrapped before after e)
