-- ===== src/Ingestion/Stream.antt =====
-- internal/ingestion/subscriber.go: the position of the stream (`streamState`) and what changes it
-- without asking anyone. The map of heads is a list of entries, of which a key has one at most.
use ff_eth_logs.Base.{ℕ, List, [], ◌∷◌, Bool, not, ◌&&◌, filter, ltb, ◌==◌, add64, if◌then◌else◌}
use ff_eth_logs.Chain.{BlockHead}

abbrev pub Heads : Type 0
Heads = List (ℕ × BlockHead)

-- `streamState`.
pub record StreamState : Type 0 where
  pub next : ℕ
  pub lower_bound : ℕ
  pub tip : ℕ
  pub heads : Heads

-- `delete(heads, n)` for the heights that a test picks.
unfoldable pub delete_heads : (ℕ → Bool) → Heads → Heads
unfolding filter
delete_heads gone = filter (λ (n, _). not (gone n))

-- `heads[n] = h`.
unfoldable pub put_head : ℕ → BlockHead → Heads → Heads
unfolding delete_heads
put_head n h heads = (n, h) ∷ delete_heads (λ m. m == n) heads

unfoldable pub retain : ℕ → BlockHead → StreamState → StreamState
unfolding put_head
retain n h st = record st { heads = put_head n h st.heads }

unfoldable pub forget : (ℕ → Bool) → StreamState → StreamState
unfolding delete_heads
forget gone st = record st { heads = delete_heads gone st.heads }

unfoldable pub nearest_retained_below : ℕ → Heads → ℕ
nearest_retained_below n [] = 0
nearest_retained_below n ((k, _) ∷ heads) =
    let best = nearest_retained_below n heads in if ltb k n && ltb best k then k else best

unfoldable pub truncate_above : ℕ → StreamState → StreamState
unfolding delete_heads
truncate_above height st = record st {
  heads = delete_heads (λ m. ltb height m) st.heads;
  tip = height;
}

-- `advance`.
unfoldable pub advance : ℕ → StreamState → StreamState
unfolding delete_heads
advance to_block st =
    let next = add64 to_block 1 in
    record st { next = next; heads = delete_heads (λ n. ltb (add64 n 1) next) st.heads }

-- The end of `record`: the head is retained and may raise the tip.
unfoldable pub retain_tip : ℕ → BlockHead → StreamState → StreamState
unfolding put_head
retain_tip n h st = record st {
  heads = put_head n h st.heads;
  tip = if ltb st.tip n then n else st.tip;
}

-- The stream restarts from a canonical head.
unfoldable pub restart : BlockHead → StreamState → StreamState
restart ancestor st = record st {
  heads = (ancestor.number, ancestor) ∷ [];
  next = add64 ancestor.number 1;
  tip = ancestor.number;
}
