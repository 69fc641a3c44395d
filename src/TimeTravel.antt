-- ===== src/TimeTravel.antt =====
-- Time travel targets: `DeltaTimeTravelSpec` (src/include/delta_time_travel.hpp), its functions and
-- the checks of timestamps in src/storage/delta_catalog.cpp.
use duckdb_delta.Prelude.{
  ℕ, ◌+◌, Bool, false, Result, ok, err, error, invalid_input, internal, invalid_configuration, ltb,
  if◌then◌else◌, ◌>>=◌, ◌==◌,
}
use duckdb_delta.Prelude.Bytes.{Text, bytes, text_eq}
use duckdb_delta.Kernel.{ℤ, pos, negsuc}

-- `DConstants::INVALID_INDEX`, which stands for the latest version.
abbrev pub invalid_index : ℕ
invalid_index = 18446744073709551615

-- `timestamp_tz_t`: microseconds since the epoch, or one of the infinities.
pub data Timestamp : Type 0 where
  finite : ℤ → Timestamp
  infinite : Timestamp

abbrev pub pos_part : ℤ → ℕ
pos_part (pos n) = n
pos_part (negsuc n) = 0

abbrev pub neg_part : ℤ → ℕ
neg_part (pos n) = 0
neg_part (negsuc n) = n + 1

abbrev pub ltb_ℤ : ℤ → ℤ → Bool
ltb_ℤ a b = ltb (pos_part a + neg_part b) (pos_part b + neg_part a)

abbrev pub eqb_ℤ : ℤ → ℤ → Bool
eqb_ℤ (pos m) (pos n) = m == n
eqb_ℤ (pos m) (negsuc n) = false
eqb_ℤ (negsuc m) (pos n) = false
eqb_ℤ (negsuc m) (negsuc n) = m == n

pub data DeltaTimeTravelSpec : Type 0 where
  latest : DeltaTimeTravelSpec
  from_version : ℕ → DeltaTimeTravelSpec
  from_timestamp : Timestamp → DeltaTimeTravelSpec

unfoldable pub get_version : DeltaTimeTravelSpec → Result ℕ
get_version (from_version v) = ok v
get_version _ =
    err (error internal "DeltaTimeTravelSpec::GetVersion on a spec that does not name a version")

unfoldable pub get_timestamp : DeltaTimeTravelSpec → Result Timestamp
get_timestamp (from_timestamp t) = ok t
get_timestamp _ =
    err
      (error internal "DeltaTimeTravelSpec::GetTimestamp on a spec that does not name a timestamp")

-- `Timestamp::GetEpochMs` is DuckDB's.
unfoldable pub timestamp_to_epoch_ms : (ℤ → ℤ) → Timestamp → Result ℤ
timestamp_to_epoch_ms get_epoch_ms (finite micros) = ok (get_epoch_ms micros)
timestamp_to_epoch_ms get_epoch_ms infinite =
    err (error invalid_input "Delta time travel requires a finite timestamp")

-- `now_ms` is the start of the transaction, or the clock outside one.
unfoldable pub reject_future_timestamp : ℤ → ℤ → Result (Unit {0})
reject_future_timestamp now_ms timestamp_ms =
    if ltb_ℤ now_ms timestamp_ms
    then err (error invalid_input "Delta time travel does not accept a future timestamp")
    else ok tt

-- An AT clause: its unit, and its value with DuckDB's two casts of it.
pub record AtClause : Type 0 where
  pub unit : Text
  pub as_ubigint : Result ℕ
  pub as_timestamp_tz : Result Timestamp

unfoldable pub from_at_clause : AtClause → Result DeltaTimeTravelSpec
from_at_clause c =
    if text_eq c.unit (bytes "version")
    then (c.as_ubigint >>= λ v. ok (from_version v))
    else if text_eq c.unit (bytes "timestamp")
    then (c.as_timestamp_tz >>= λ t. ok (from_timestamp t))
    else err (
        error invalid_configuration
          "Delta tables only support at_clause with unit 'version' or 'timestamp'")
