-- ===== src/FileList/Cardinality.antt =====
-- The estimate that `GetCardinality` (src/functions/delta_scan/delta_multi_file_list.cpp) makes of
-- the files' statistics.
use duckdb_delta.Prelude.{
  ℕ, ◌+◌, ◌%◌, ◌^◌, ◌<◌, ◌≡◌, ap, ◌∙◌, inl, inr, Bool, true, false, ◌||◌, none, some, List, [], ◌∷◌,
  ◌==◌, Bool-cases, arith, if◌then◌else◌,
}
use duckdb_delta.Kernel.{ℤ}
use duckdb_delta.TimeTravel.{invalid_index}
use duckdb_delta.FileList.Snapshot.{SnapshotKernel}
use duckdb_delta.FileList.Transform.{Values}
use duckdb_delta.FileList.Scan.{ScanKernel, DeltaFileMetaData}
use duckdb_delta.FileList.Files.{sum_cardinalities, statistics_of, known_statistics}

module _ (K : SnapshotKernel) (now_ms : ℤ) (D : Values) (S : ScanKernel K D) where
  abbrev MetaData : Type 0
  MetaData = DeltaFileMetaData K now_ms D S

  -- The records of the files that have statistics, and whether there is one.
  abbrev pub known_total : List MetaData → ℕ
  known_total [] = 0
  known_total (m ∷ ms) =
      (if m.cardinality == invalid_index then 0 else m.cardinality) + known_total ms

  abbrev pub any_known : List MetaData → Bool
  any_known [] = false
  any_known (m ∷ ms) = (if m.cardinality == invalid_index then false else true) || any_known ms

  fits : (a b : ℕ) → a + b < 2 ^ 64 → (a + b) % 2 ^ 64 ≡ a + b
  fits a b h = omega arith

  skip : (a c : ℕ) (p : Bool) → ◌≡◌ {A = ℕ × Bool} (a + c, p) (a + (0 + c), p)
  skip a c p = ground arith

  regroup :
      (a b c : ℕ) (p q : Bool)
      → ◌≡◌ {A = ℕ × Bool} (a + b + c, true || q) (a + (b + c), p || (true || q))
  regroup a b c true q = ground arith
  regroup a b c false q = ground arith

  sum_cardinalities-total :
      (ms : List MetaData) (total : ℕ) (any : Bool)
      → total + known_total ms < 2 ^ 64
      → sum_cardinalities K now_ms D S ms total any ≡ (total + known_total ms, any || any_known ms)
  unfolding sum_cardinalities
  sum_cardinalities-total [] total true h = ground arith
  sum_cardinalities-total [] total false h = ground arith
  sum_cardinalities-total (m ∷ ms) total any h =
      elim (Bool-cases (m.cardinality == invalid_index)) [
        | inl unknown ↦ rw unknown (
            sum_cardinalities-total ms total any (ground arith)
            ∙ skip total (known_total ms) (any || any_known ms))
        | inr known ↦ rw known (
            ap (λ (n : ℕ). sum_cardinalities K now_ms D S ms n true)
              (fits total m.cardinality (ground arith))
            ∙ sum_cardinalities-total ms (total + m.cardinality) true (ground arith)
            ∙ regroup total m.cardinality (known_total ms) any (any_known ms))
      ]

  final :
      (count total : ℕ) (any : Bool)
      → (if count == 0 then some 0 else known_statistics K now_ms D S (0 + total, false || any))
        ≡ (if count == 0 then some 0 else if any then some total else none)
  final count total true = ground arith
  final count total false = ground arith

  -- With no file the estimate is 0, and with none of known size there is none. Else it is the sum of
  -- the known sizes, which does not wrap if it fits 64 bits.
  pub statistics_of-total :
      (count : ℕ) (ms : List MetaData)
      → known_total ms < 2 ^ 64
      → statistics_of K now_ms D S count ms
        ≡ (if count == 0 then some 0 else if any_known ms then some (known_total ms) else none)
  unfolding statistics_of
  statistics_of-total count ms h =
      ap (λ (r : ℕ × Bool). if count == 0 then some 0 else known_statistics K now_ms D S r)
        (sum_cardinalities-total ms 0 false (omega (arith, h)))
      ∙ final count (known_total ms) (any_known ms)
