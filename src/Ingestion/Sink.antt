-- ===== src/Ingestion/Sink.antt =====
-- internal/ingestion: the warehouse as ingestion sees it (`Sink`), and what ingestion relies on. The
-- log store fills this interface in Ingestion.Warehouse.
use ff_eth_logs.Base.{ℕ, suc, ◌+◌, ◌≡◌, ◌≤◌, ◌<◌, Option, some, none, List, u64_mod}
use ff_eth_logs.Base.Exec.{Exec, ok, err}
use ff_eth_logs.Eventset.{Hash}
use ff_eth_logs.Chain.{Log}
use ff_eth_logs.Logstore.{Block}
use ff_eth_logs.Logstore.Write.Contiguous.{Run}

-- The runner's `Store`: `Sink` and `CursorStore`. Its answers may depend on what was asked of it before.
pub record Sink : Type 1 where
  pub State : Type 0
  pub Error : Type 0
  pub write_range : ℕ → ℕ → List Block → List Log → Exec State Error (Unit {0})
  pub stored_block_hash : ℕ → Exec State Error (Option Hash)
  pub rewind : ℕ → Exec State Error (Unit {0})
  pub cursor : Exec State Error (Option ℕ)

-- `At s next` says that the sink is well formed and that its next block to write is `next`. A write
-- of a run of blocks from there moves it past the run, a rewind moves it down, and nothing else does.
pub record SinkLaws (S : Sink) : Type 1 where
  pub At : S.State → ℕ → Type 0
  -- What holds between two runs.
  pub IsWell : S.State → Type 0
  pub At-IsWell : (s : S.State) (next : ℕ) → At s next → IsWell s
  pub resumed : (c : ℕ) (s s' : S.State) → IsWell s → S.cursor s ≡ (ok (some c), s') → At s' (suc c)
  pub empty : (s s' : S.State) → IsWell s → S.cursor s ≡ (ok none, s') → (next : ℕ) → At s' next
  pub cursor_failed :
      (e : S.Error) (s s' : S.State) → IsWell s → S.cursor s ≡ (err e, s') → IsWell s'
  pub written :
      (from to_block : ℕ) (blocks : List Block) (logs : List Log) (s s' : S.State)
      → At s from
      → Run from blocks
      → from ≤ to_block
      → to_block + 1 < u64_mod
      → S.write_range from to_block blocks logs s ≡ (ok tt, s')
      → At s' (suc to_block)
  pub write_failed :
      (next from to_block : ℕ) (blocks : List Block) (logs : List Log) (e : S.Error)
      (s s' : S.State)
      → At s next
      → S.write_range from to_block blocks logs s ≡ (err e, s')
      → At s' next
  pub read : (next n : ℕ) (s : S.State) → At s next → At (S.stored_block_hash n s).1 next
  pub rewound :
      (next to_block : ℕ) (s s' : S.State)
      → At s next
      → S.rewind to_block s ≡ (ok tt, s')
      → At s' (suc to_block) × (suc to_block < next)
  pub rewind_failed :
      (next to_block : ℕ) (e : S.Error) (s s' : S.State)
      → At s next
      → S.rewind to_block s ≡ (err e, s')
      → At s' next
