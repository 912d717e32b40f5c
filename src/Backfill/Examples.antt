-- ===== src/Backfill/Examples.antt =====
-- An export of two blocks and a log, loaded stage by stage into a new database, and instances.
use ff_eth_logs.Base.Int.{pos}
use ff_eth_logs.Base.{
  any, sub64, add64, ◌*◌, ℕ, ◌+◌, ◌≡◌, inr, Bool, true, false, List, [], ◌∷◌, none, some, arith,
  refl,
}
use ff_eth_logs.Base.Ensures.{Outcome}
use ff_eth_logs.Base.Text.{codes}
use ff_eth_logs.Logstore.{Block, Row}
use ff_eth_logs.Logstore.Write.{Faults, publish_body}
use ff_eth_logs.Logstore.Write.Covered.{no_rows}
use ff_eth_logs.Backfill.Manifest.{Text, Manifest, ManifestFile, Export}
use ff_eth_logs.Backfill.Checks.{Step, Site, parts_from}
use ff_eth_logs.Backfill.Loader.{finish}
use ff_eth_logs.Backfill.Finished.{Finishes, Unfinished, finish-Published}
use ff_eth_logs.Backfill.Loaded.{Stands}
use ff_eth_logs.Backfill.Stages.{
  Attempt, Stage, prepare_stage, logs_stage, blocks_stage, finish_stage, perform, perform-Stands,
}

abbrev pub file : ManifestFile
file = record { size = 3; md5 = codes "md5" }

abbrev pub listed : List (Text × ManifestFile)
listed = (codes "logs/part=000/l.parquet", file) ∷ (codes "blocks/b.parquet", file) ∷ []

abbrev pub two_blocks : Manifest
two_blocks = record {
  first = 5;
  last = 6;
  block_rows = 2;
  log_rows = 1;
  parts = (codes "000", 1) ∷ [];
  files = listed;
}

abbrev pub row : Row
row = record {
  block_number = 5;
  log_index = pos 0;
  tx_index = pos 0;
  tx_hash = 77;
  address = 7;
  topic0 = some 9;
  topic1 = none;
  topic2 = none;
  topic3 = none;
  bytes = [];
}

abbrev pub block : ℕ → Block
block n = record { number = n; hash = n + 1000; timestamp = n * 12 }

-- A block above the interval came with the export of the blocks.
abbrev pub export : Export
export = record {
  manifest = some two_blocks;
  size_and_md5 = λ name. some file;
  parquet_under = λ prefix. [];
  parquet_in = λ dir. codes "x" ∷ [];
  is_directory = λ dir. true;
  row_count = λ name. some 1;
  block_rows_of = λ name. some (block 5 ∷ block 6 ∷ block 7 ∷ []);
  log_rows_of = λ name. some (row ∷ []);
  sha256 = λ text. text;
}

abbrev pub works : Step → Bool
works st = false

abbrev pub store_works : Faults
store_works st = false

abbrev attempt : Stage → Attempt
attempt stage = record { stage = stage; faults = works; store_faults = store_works }

abbrev pub new_site : Site
new_site = record { database = no_rows; units = [] }

abbrev four_stages : List Attempt
four_stages =
    attempt prepare_stage ∷ attempt logs_stage ∷ attempt blocks_stage ∷ attempt finish_stage ∷ []

perform_publishes :
    (perform export four_stages new_site).database.cursor ≡ some (record { start = 5; head = 6 })
unfolding perform add64 sub64 parts_from any publish_body
perform_publishes = refl

perform_trims : (perform export four_stages new_site).database.blocks ≡ block 5 ∷ block 6 ∷ []
unfolding perform add64 sub64 parts_from any publish_body
perform_trims = refl

pub new_site-Stands : Stands two_blocks new_site
new_site-Stands = (tt, λ c e. absurd (cc e), inr (λ c e. absurd (cc e)))

perform-Stands_example : Stands two_blocks (perform export four_stages new_site)
perform-Stands_example =
    perform-Stands export two_blocks refl (omega arith) four_stages new_site new_site-Stands

-- The site before the last stage.
staged : Site
staged =
    perform export (attempt prepare_stage ∷ attempt logs_stage ∷ attempt blocks_stage ∷ []) new_site

staged-Stands : Stands two_blocks staged
unfolding staged
staged-Stands =
    perform-Stands export two_blocks refl (omega arith)
      (attempt prepare_stage ∷ attempt logs_stage ∷ attempt blocks_stage ∷ []) new_site
      new_site-Stands

finish-Published_example :
    Outcome
      (Finishes export works store_works two_blocks refl
        (omega arith)
        staged
        staged-Stands.0
        staged-Stands.1)
      (Unfinished export works store_works two_blocks refl
        (omega arith)
        staged
        staged-Stands.0
        staged-Stands.1)
      (finish export works store_works staged).0
      (finish export works store_works staged).1
finish-Published_example =
    finish-Published export works store_works two_blocks refl (omega arith) staged staged-Stands.0
      staged-Stands.1
