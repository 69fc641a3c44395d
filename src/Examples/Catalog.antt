-- ===== src/Examples/Catalog.antt =====
-- Lookups in a table that grows while a transaction runs (src/storage/delta_schema_entry.cpp), and the
-- options of an ATTACH (src/delta_extension.cpp).
use duckdb_delta.Prelude.{
  ℕ, ◌≡◌, ◌≢◌, refl, ◌⊎◌, true, false, Option, none, some, List, [], ◌∷◌, arith, Result, ok, err,
  Error, All, error, invalid_input,
}
use duckdb_delta.Prelude.Bytes.{Text, bytes, text_eq}
use duckdb_delta.Kernel.{ℤ, pos}
use duckdb_delta.TimeTravel.{invalid_index, finite, AtClause}
use duckdb_delta.Transaction.{automatic, read_only}
use duckdb_delta.Catalog.Source.{TableSource}
use duckdb_delta.Catalog.Lookup.{LookupConfig, LookupState, lookup_table}
use duckdb_delta.Catalog.Pinned.{Consistent}
use duckdb_delta.Catalog.FileLists.{TableSettings, TableEntry, create_table_entry, table_source}
use duckdb_delta.Catalog.Stored.{lookup_table-repeats, lookup_table-keeps}
use duckdb_delta.Columns.{no_columns}
use duckdb_delta.Examples.Reading.{versions}
use duckdb_delta.Attach.{OptionValue, Attached, apply_options, version, timestamp, pushdown_all}
use duckdb_delta.Attach.Exclusive.{apply_options-exclusive, Given, Names}

three-ne : (w head : ℕ) (ms : ℤ) (v : ℕ) → ◌≡◌ {A = Result ℕ} (ok 3) (ok v) → v ≢ invalid_index
three-ne w head ms v h = ground arith

abbrev settings : TableSettings versions
settings = record {
  delta_path = bytes "/t/";
  can_access = true;
  catalog_log_tail = none;
  max_catalog_version = pos 0;
  exists_at = λ w. true;
  visit_schema = λ w loaded. ok no_columns;
  lower = λ t. t;
  to_idx = λ t. none;
}

-- A table that grows, by the kernel whose third commit is the last one before any timestamp.
abbrev growing : TableSource
growing = table_source versions (pos 9) settings three-ne

abbrev config : LookupConfig
config = record {
  use_cache = false;
  has_specific_timestamp = false;
  specific_timestamp = finite (pos 0);
  catalog_name = bytes "d";
  internal_table_name = bytes "t";
  identifier_eq = text_eq;
}

abbrev to_ms : ℤ → ℤ
to_ms z = z

abbrev fresh : LookupState growing to_ms
fresh = record {
  use_specific_version = invalid_index;
  cached_table = none;
  entries = record { table_entry = none; versioned_table_entries = []; timestamp_versions = [] };
}

abbrev at_five : Option AtClause
at_five = some (record {
  unit = bytes "version";
  as_ubigint = ok 5;
  as_timestamp_tz = err (error invalid_input "");
})

abbrev after_head : LookupState growing to_ms
after_head = (lookup_table growing to_ms config 7 none fresh).0

abbrev after_five : LookupState growing to_ms
after_five = (lookup_table growing to_ms config 7 at_five fresh).0

-- The list of the table at a version, built on the one that the schema caches.
abbrev listed_at : ℕ → TableEntry versions (pos 9) settings
listed_at v = record {
  snapshot = record {
    path = bytes "/t/";
    old_snapshot = some v;
    delta_log_path = none;
    max_catalog_version = pos 0;
    version = v;
    has_requested_timestamp = false;
    requested_timestamp_ms = pos 0;
    snapshot = some v;
    initialized_snapshot = true;
  };
  schema = record {
    have_bound = true;
    global_columns = no_columns;
    not_null_constraints = [];
    has_null_constraints_in_arrays = false;
    string_width_bounds = [];
  };
}

-- Version 8 is committed between the two lookups.
lookup_table-repeats_example :
    lookup_table growing to_ms config 8 none after_head ≡ (after_head, ok (some (listed_at 7)))
unfolding lookup_table create_table_entry
lookup_table-repeats_example =
    lookup_table-repeats versions (pos 9) settings three-ne to_ms config 7 8 none fresh after_head
      (listed_at 7) refl

lookup_table-keeps_example :
    Consistent growing to_ms config (lookup_table growing to_ms config 7 at_five fresh).0
lookup_table-keeps_example =
    lookup_table-keeps versions (pos 9) settings three-ne to_ms config 7 at_five fresh (tt, tt)

abbrev two : OptionValue
two = record {
  as_bool = ok true;
  as_text = ok (bytes "2");
  as_ubigint = ok 2;
  as_bigint = ok (pos 2);
  as_timestamp_tz = ok (finite (pos 2));
}

abbrev both_options : List (Text × OptionValue)
both_options = (bytes "timestamp", two) ∷ (bytes "pin_snapshot", two) ∷ (bytes "version", two) ∷ []

abbrev same_text : Text → Text
same_text s = s

abbrev unattached : Attached same_text to_ms (pos 9)
unattached = record {
  access_mode = automatic;
  use_cache = false;
  use_specific_version = invalid_index;
  has_specific_timestamp = false;
  specific_timestamp = finite (pos 0);
  pushdown_partition_info = true;
  filter_pushdown_mode = pushdown_all;
  internal_table_name = bytes "t";
  child_catalog_mode = false;
  parent_catalog_name = [];
  parent_catalog_schema = [];
  parent_commit = false;
  catalog_log_tail = none;
  max_catalog_version = pos 0;
  unity_table_id = [];
}

two-ne : ◌≡◌ {A = Result ℕ} (ok 2) (ok invalid_index) → ⊥
two-ne h = ground arith

both-Names : All Names both_options
both-Names = (λ e. two-ne, (λ e. two-ne, (λ e. two-ne, tt)))

apply_options-exclusive_example :
    (Given version both_options
      → Given timestamp both_options
      → (e : Error) × (apply_options same_text to_ms (pos 9) both_options unattached ≡ err e))
    × ((c' : Attached same_text to_ms (pos 9))
        → Given version both_options ⊎ Given timestamp both_options
        → apply_options same_text to_ms (pos 9) both_options unattached ≡ ok c'
        → c'.access_mode ≡ read_only)
apply_options-exclusive_example =
    apply_options-exclusive same_text to_ms (pos 9) both_options unattached refl both-Names
