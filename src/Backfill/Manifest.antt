-- ===== src/Backfill/Manifest.antt =====
-- internal/backfill/manifest.go: the description of an export, and the checks of the local copy against
-- it. The directory of the export is a record of what reading it gives; SHA-256 is a parameter of it.
-- Counts of rows and sizes are natural numbers. A map is a list of entries, of which a key has one.
use ff_eth_logs.Base.{
  ℕ, zero, suc, ◌+◌, ◌/◌, ◌%◌, Bool, true, false, not, ◌&&◌, ◌||◌, List, [], ◌∷◌, ◌++◌, Option,
  none, some, filter, add64, sub64, ltb, ◌==◌, if◌then◌else◌,
}
use ff_eth_logs.Base.Exec.{Result, ok}
use ff_eth_logs.Base.Results.{◌>>=◌, ◌>>◌, fail_if, or_fail}
use ff_eth_logs.Base.Sort.{sort_by}
use ff_eth_logs.Base.Text.{codes, has_prefix}
use ff_eth_logs.Logstore.{Block, Row}

abbrev pub Text : Type 0
Text = List ℕ

-- A listed file: its size and its MD5 in base64.
pub record ManifestFile : Type 0 where
  pub size : ℕ
  pub md5 : Text

pub record Manifest : Type 0 where
  pub first : ℕ
  pub last : ℕ
  pub block_rows : ℕ
  pub log_rows : ℕ
  pub parts : List (Text × ℕ)
  pub files : List (Text × ManifestFile)

pub data BackfillError : Type 0 where
  no_manifest not_contiguous wrong_sum no_files : BackfillError
  no_entry missing_file altered unlisted : Text → BackfillError
  coverage_gap no_blocks wrong_blocks : BackfillError
  other_export incomplete missing_part no_parquet : Text → BackfillError
  wrong_rows outside_rows : ℕ → BackfillError
  failed : BackfillError

-- The export's directory, and the functions outside the repository that it is read with.
pub record Export : Type 0 where
  -- manifest.json, read and parsed.
  pub manifest : Option Manifest
  pub size_and_md5 : Text → Option ManifestFile
  -- The Parquet files under a prefix, two folders down at most.
  pub parquet_under : Text → List Text
  pub parquet_in : Text → List Text
  pub is_directory : Text → Bool
  -- The count in a file's footer, and its rows.
  pub row_count : Text → Option ℕ
  pub block_rows_of : Text → Option (List Block)
  pub log_rows_of : Text → Option (List Row)
  pub sha256 : Text → Text

unfoldable pub same_text : Text → Text → Bool
same_text [] [] = true
same_text [] (y ∷ ys) = false
same_text (x ∷ xs) [] = false
same_text (x ∷ xs) (y ∷ ys) = x == y && same_text xs ys

unfoldable pub text_before : Text → Text → Bool
text_before xs [] = false
text_before [] (y ∷ ys) = true
text_before (x ∷ xs) (y ∷ ys) = ltb x y || (x == y && text_before xs ys)

-- A key of a map.
unfoldable pub find {ℓ} : {A : Type ℓ} → Text → List (Text × A) → Option A
unfolding same_text
find key [] = none
find key ((k, a) ∷ rest) = if same_text k key then some a else find key rest

-- `%d`, with a digit for each round at least.
unfoldable pub decimal : ℕ → ℕ → Text
decimal zero n = []
decimal (suc rounds) n =
    let rest = decimal rounds (n / 10) in
    if ltb n 10 then (48 + n) ∷ [] else rest ++ ((48 + n % 10) ∷ [])

-- `%03d`.
unfoldable pub three_digits : ℕ → Text
unfolding decimal
three_digits n =
    if ltb n 10
    then 48 ∷ 48 ∷ decimal (suc n) n
    else if ltb n 100
    then 48 ∷ decimal (suc n) n
    else decimal (suc n) n

-- `manifestPartDir`.
unfoldable pub manifest_part_dir : ℕ → Text
unfolding three_digits
manifest_part_dir part = codes "logs/part=" ++ three_digits part

unfoldable pub sum_rows : List (Text × ℕ) → ℕ
sum_rows [] = 0
sum_rows ((_, n) ∷ rest) = n + sum_rows rest

abbrev pub is_empty {ℓ} : {A : Type ℓ} → List A → Bool
is_empty [] = true
is_empty (x ∷ xs) = false

-- The checks of `readManifest`.
unfoldable pub check_manifest : Manifest → Result BackfillError Manifest
unfolding sum_rows
check_manifest m = do
  fail_if (ltb m.last m.first || not (m.block_rows == add64 (sub64 m.last m.first) 1))
      not_contiguous
  fail_if (not (sum_rows m.parts == m.log_rows)) wrong_sum
  fail_if (is_empty m.files) no_files
  ok m

module _ (E : Export) where
  -- `readManifest`.
  unfoldable pub read_manifest : Result BackfillError Manifest
  unfolding check_manifest
  read_manifest = or_fail E.manifest no_manifest >>= check_manifest

  -- `partRows`.
  unfoldable pub part_rows : Manifest → ℕ → Result BackfillError ℕ
  unfolding find three_digits
  part_rows m part = or_fail (find (three_digits part) m.parts) (no_entry (three_digits part))

  abbrev pub entry_before : Text × ManifestFile → Text × ManifestFile → Bool
  entry_before (a, _) (b, _) = text_before a b

  -- The entries of a unit, in the order of their names.
  unfoldable pub entries_under : Text → Manifest → List (Text × ManifestFile)
  unfolding has_prefix text_before sort_by filter
  entries_under prefix m =
      sort_by entry_before (filter (λ (name, _). has_prefix prefix name) m.files)

  unfoldable pub check_listed : List (Text × ManifestFile) → Result BackfillError (Unit {0})
  unfolding same_text
  check_listed [] = ok tt
  check_listed ((name, want) ∷ rest) = do
    got ← or_fail (E.size_and_md5 name) (missing_file name)
    fail_if (not (got.size == want.size) || not (same_text got.md5 want.md5)) (altered name)
    check_listed rest

  abbrev pub is_listed : Option ManifestFile → Bool
  is_listed none = false
  is_listed (some f) = true

  unfoldable pub check_local : Manifest → List Text → Result BackfillError (Unit {0})
  unfolding find
  check_local m [] = ok tt
  check_local m (name ∷ rest) = do
    fail_if (not (is_listed (find name m.files))) (unlisted name)
    check_local m rest

  -- `verifyFilesUnder`; `verifyFiles` is that of the empty prefix.
  unfoldable pub verify_files_under : Text → Manifest → Result BackfillError (Unit {0})
  unfolding entries_under check_listed check_local
  verify_files_under prefix m = do
    fail_if (is_empty (entries_under prefix m)) no_files
    check_listed (entries_under prefix m)
    check_local m (E.parquet_under prefix)

  unfoldable pub fingerprint_text : List (Text × ManifestFile) → Text
  unfolding decimal
  fingerprint_text [] = []
  fingerprint_text ((name, f) ∷ rest) =
      name
      ++ (codes "|"
          ++ (decimal (suc f.size) f.size
              ++ (codes "|" ++ (f.md5 ++ (10 ∷ fingerprint_text rest)))))

  -- `unitFingerprint`.
  unfoldable pub unit_fingerprint : Text → Manifest → Text
  unfolding entries_under fingerprint_text
  unit_fingerprint prefix m = E.sha256 (fingerprint_text (entries_under prefix m))
