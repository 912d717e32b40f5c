-- ===== src/Command/Launches.antt =====
-- The commands that are started over one warehouse in its life.
use ff_eth_logs.Base.{
  some, ℕ, ◌+◌, ◌≡◌, ◌<◌, Bool, List, String, u64_mod, inl, inr, true, arith, sym, subst,
}
use ff_eth_logs.Base.Exec.{Result, ok}
use ff_eth_logs.Eventset.{Hash}
use ff_eth_logs.Chain.{EthClient}
use ff_eth_logs.Logstore.{Database}
use ff_eth_logs.Logstore.Write.Covered.{IsCovered}
use ff_eth_logs.Logstore.Read.{Access, ReadError, read}
use ff_eth_logs.Logstore.Locks.{Advisory}
use ff_eth_logs.Backfill.Manifest.{Text, Manifest}
use ff_eth_logs.Backfill.Loaded.{Stands}
use ff_eth_logs.Command.Outside.{Outside, Host}
use ff_eth_logs.Command.Process.{run}
use ff_eth_logs.Command.Kept.{run-Kept}
use ff_eth_logs.Command.Lasts.{IsUsable, HasRoom, Before, After, commands_last}

module _ (keccak256 : String → Hash) (C : EthClient) (A : Advisory) (m : Manifest) where
  -- Commands that were run one after another, each with arguments, surroundings and failures of its
  -- own. Between two of them anything but the tables may change.
  pub data Launches (h : Host C A) : Host C A → Type 0 where
    unused : Launches h h
    launched :
        {h' : Host C A} (session : ℕ) (O : Outside) (args : List Text)
        → Launches h h'
        → IsUsable C O
        → ((dir : Text) → (O.export dir).manifest ≡ some m)
        → HasRoom h'.site
        → Launches h (run keccak256 C A session O args h').1
    elsewhere : {h' : Host C A} (g : Host C A) → Launches h h' → g.site ≡ h'.site → Launches h g

  Launches-Stands :
      (bound : m.last + 1 < u64_mod) {h h' : Host C A}
      → Launches h h'
      → Stands m h.site
      → Stands m h'.site
  Launches-Stands bound unused p = p
  Launches-Stands bound (launched {h'} session O args l usable given room) p =
      run-Kept keccak256 C A session O (Before keccak256 C A session O m bound given usable)
        (After keccak256 C A session O m bound given usable)
        (commands_last keccak256 C A session O m bound given usable) args h'
        (Launches-Stands bound l p, room)
  Launches-Stands bound (elsewhere g l same) p =
      subst (Stands m) (sym same) (Launches-Stands bound l p)

  -- A read that is answered was not under the maintenance flag.
  read-unmarked :
      {B F : Type 0} (faults : Access → Bool) (locked : Bool) (wrap : ReadError → F)
      (body : Database → Result F B) (db : Database) (b : B)
      → read faults locked wrap body db ≡ ok b
      → db.maintenance ≡ true
      → ⊥
  unfolding read
  read-unmarked faults locked wrap body db b e on = ground (arith, e, on)

  -- Let the warehouse stand, and let commands be run over it in any order, with any arguments and
  -- failures, and wherever they are given up, where the exports all have one manifest `m`, whose last
  -- block is below 2^64 - 1; before each command the covered head is a million or more below 2^64, as
  -- are the heights of the provider, and the settings keep to their bounds. A read that is answered
  -- afterwards meets a warehouse of which every covered height has its block row.
  pub Launches-Served :
      {B F : Type 0} (h h' : Host C A) (faults : Access → Bool) (locked : Bool)
      (wrap : ReadError → F) (body : Database → Result F B) (b : B)
      → m.last + 1 < u64_mod
      → Stands m h.site
      → Launches h h'
      → read faults locked wrap body h'.site.database ≡ ok b
      → IsCovered h'.site.database
  Launches-Served h h' faults locked wrap body b bound p l e = elim (Launches-Stands bound l p).2 [
    | inl on ↦ absurd (read-unmarked faults locked wrap body h'.site.database b e on)
    | inr covered ↦ covered
  ]
