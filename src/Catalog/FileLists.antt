-- ===== src/Catalog/FileLists.antt =====
-- The file lists fill what the lookup needs of the table: `CreateFileList`, `CreateTableEntry`
-- (src/storage/delta_schema_entry.cpp), the constructor and `ResolveTimestampWithin` of
-- `DeltaMultiFileList` (src/functions/delta_scan/delta_multi_file_list.cpp). An entry's columns and
-- tags go into DuckDB's table info and are left out. The kernel's visitor of a schema is an argument.
use duckdb_delta.Prelude.{
  ℕ, ◌≡◌, ◌≢◌, refl, ap, sym, ◌∙◌, inl, inr, Bool, true, false, Option, none, some, List, [],
  Result, ok, err, error, undefined, permission, >>-ok, ok-injective, if◌then◌else◌, if_true, ◌>>=◌,
  Bool-cases, if_false,
}
use duckdb_delta.Prelude.Bytes.{Text}
use duckdb_delta.Kernel.{ℤ, pos, negsuc}
use duckdb_delta.TimeTravel.{
  invalid_index, Timestamp, timestamp_to_epoch_ms, reject_future_timestamp,
}
use duckdb_delta.Types.{LogicalType}
use duckdb_delta.Columns.{DeltaColumns, no_columns}
use duckdb_delta.Catalog.Source.{TableSource}
use duckdb_delta.FileList.Snapshot.{
  SnapshotKernel, SnapshotList, Step, ensure_snapshot_initialized, initialize_snapshot, within,
  version_as_of, resolve_timestamp_within,
}
use duckdb_delta.FileList.Versions.{Loaded, initialize_snapshot-Loaded}
use duckdb_delta.FileList.Constraints.{BoundSchema, bind}

-- What the catalog holds of the table: its path as the kernel spells it, whether DuckDB may read it,
-- and the log of a catalog-managed table. `exists_at` is `DeltaTableExistsAt`.
pub record TableSettings (K : SnapshotKernel) : Type 1 where
  pub delta_path : Text
  pub can_access : Bool
  pub catalog_log_tail : Option K.LogTail
  pub max_catalog_version : ℤ
  pub exists_at : K.World → Bool
  pub visit_schema : K.World → K.Snapshot → Result DeltaColumns
  pub lower : Text → Text
  pub to_idx : Text → Option ℕ

module _ (K : SnapshotKernel) (now_ms : ℤ) (T : TableSettings K) where
  open K use {World}

  abbrev pub EntryList : Type 0
  EntryList = SnapshotList K now_ms

  -- `DeltaTableEntry` by its list, with what the list has bound.
  pub record TableEntry : Type 0 where
    pub snapshot : EntryList
    pub schema : BoundSchema

  abbrev pub old_kernel_snapshot : Option EntryList → Option K.Snapshot
  old_kernel_snapshot none = none
  old_kernel_snapshot (some previous) = previous.snapshot

  -- Only a version that is not negative is taken over.
  abbrev pub catalog_version : ℤ → ℤ
  catalog_version (pos n) = pos n
  catalog_version (negsuc n) = negsuc 0

  unfoldable pub catalog_file_list : ℕ → Option EntryList → Result EntryList
  catalog_file_list version old_snapshot =
      if T.can_access
      then ok (record {
        path = T.delta_path;
        old_snapshot = old_kernel_snapshot old_snapshot;
        delta_log_path = T.catalog_log_tail;
        max_catalog_version = catalog_version T.max_catalog_version;
        version = version;
        has_requested_timestamp = false;
        requested_timestamp_ms = pos 0;
        snapshot = none;
        initialized_snapshot = false;
      })
      else err (
          error permission
            "Cannot access \"%s\" - file system operations are disabled by configuration")

  abbrev pub unbound : BoundSchema
  unbound = record {
    have_bound = false;
    global_columns = no_columns;
    not_null_constraints = [];
    has_null_constraints_in_arrays = false;
    string_width_bounds = [];
  }

  abbrev pub visit_loaded : World → Option K.Snapshot → Result DeltaColumns
  visit_loaded w none = err undefined
  visit_loaded w (some loaded) = T.visit_schema w loaded

  abbrev pub bound_entry :
      EntryList → BoundSchema × Result (List (Text × LogicalType)) → Result TableEntry
  bound_entry list (schema, ok fields) = ok (record { snapshot = list; schema = schema })
  bound_entry list (schema, err e) = err e

  -- `Bind` of a list, with its snapshot.
  abbrev pub bind_list : World → Step K now_ms (Unit {0}) → Result TableEntry
  bind_list w (list, err e) = err e
  bind_list w (list, ok done) =
      bound_entry list (bind T.lower T.to_idx (visit_loaded w list.snapshot) unbound)

  abbrev pub old_list : Option TableEntry → Option EntryList
  old_list none = none
  old_list (some e) = some e.snapshot

  -- A list that throws is dropped with the entry.
  unfoldable pub create_table_entry : World → ℕ → Option TableEntry → Result TableEntry
  unfolding catalog_file_list ensure_snapshot_initialized bind
  create_table_entry w version old = catalog_file_list version (old_list old) >>= λ list.
      bind_list w (ensure_snapshot_initialized K now_ms w list)

  bind_list-ok :
      (w : World) (r : Step K now_ms (Unit {0})) (e : TableEntry)
      → bind_list w r ≡ ok e
      → r ≡ (e.snapshot, ok tt)
  bind_list-ok w (list, err x) e h = cc
  bind_list-ok w (list, ok done) e h =
      ap (λ (l : EntryList). (l, ok tt))
        (taken (bind T.lower T.to_idx (visit_loaded w list.snapshot) unbound) h)
    where
      taken :
          (b : BoundSchema × Result (List (Text × LogicalType)))
          → bound_entry list b ≡ ok e
          → list ≡ e.snapshot
      taken (schema, ok fields) h = ap (λ (x : TableEntry). x.snapshot) (ok-injective h)
      taken (schema, err x) h = cc

  -- An entry that is made reads one snapshot and reports its version, and it is the one asked for.
  pub create_table_entry-Loaded :
      (w : World) (v : ℕ) (old : Option TableEntry) (e : TableEntry)
      → create_table_entry w v old ≡ ok e
      → Loaded K now_ms e.snapshot × (v ≢ invalid_index → e.snapshot.version ≡ v)
  unfolding create_table_entry catalog_file_list ensure_snapshot_initialized
  create_table_entry-Loaded w v old e h = elim (Bool-cases T.can_access) [
    | inl may ↦
        let list : EntryList = record {
          path = T.delta_path;
          old_snapshot = old_kernel_snapshot (old_list old);
          delta_log_path = T.catalog_log_tail;
          max_catalog_version = catalog_version T.max_catalog_version;
          version = v;
          has_requested_timestamp = false;
          requested_timestamp_ms = pos 0;
          snapshot = none;
          initialized_snapshot = false;
        } in
        let next = λ (l : EntryList). bind_list w (ensure_snapshot_initialized K now_ms w l) in
        let (loaded, kept) = initialize_snapshot-Loaded K now_ms w list e.snapshot refl (
          bind_list-ok w (initialize_snapshot K now_ms w list) e
            (sym (ap (λ (r : Result EntryList). r >>= next) (if_true T.can_access _ _ may)) ∙ h)) in
        (loaded, λ ne. kept refl ne)
    | inr may_not ↦ cc (
        sym (
          ap
            (λ (r : Result EntryList).
              r >>= λ l. bind_list w (ensure_snapshot_initialized K now_ms w l))
            (if_false T.can_access _ _ may_not))
        ∙ h)
  ]

  pub within-ne :
      (w : World) (loaded : Option K.Snapshot) (ms : ℤ) (v : ℕ)
      → ((head : K.Snapshot) (u : ℕ) → K.latest_version_as_of w head ms ≡ ok u → u ≢ invalid_index)
      → within K now_ms w loaded ms ≡ ok v
      → v ≢ invalid_index
  unfolding version_as_of
  within-ne w none ms v own h = cc
  within-ne w (some head) ms v own h =
      let (past, named) =
        >>-ok (reject_future_timestamp now_ms ms) (K.latest_version_as_of w head ms) v h in
      own head v named

  -- `resolve_timestamp_within` of a list that has its snapshot.
  pub resolve_timestamp_within-within :
      (get_epoch_ms : ℤ → ℤ) (w : World) (t : Timestamp) (list : EntryList)
      → list.initialized_snapshot ≡ true
      → resolve_timestamp_within K now_ms get_epoch_ms w t list
        ≡ (list, timestamp_to_epoch_ms get_epoch_ms t >>= within K now_ms w list.snapshot)
  unfolding resolve_timestamp_within ensure_snapshot_initialized
  resolve_timestamp_within-within get_epoch_ms w t list there = rw there refl

  -- The file lists as the lookup's source. The log's versions are below the largest number of 64 bits,
  -- as the protocol has them.
  abbrev pub table_source :
      ((w : World) (head : K.Snapshot) (ms : ℤ) (v : ℕ)
        → K.latest_version_as_of w head ms ≡ ok v
        → v ≢ invalid_index)
      → TableSource
  table_source own = record {
    World = World;
    Entry = TableEntry;
    version = λ e. e.snapshot.version;
    create_table_entry = create_table_entry;
    resolve_timestamp_within = λ w e ms. within K now_ms w e.snapshot.snapshot ms;
    table_exists = T.exists_at;
    version-create_table_entry =
        λ w v old e ne made. (create_table_entry-Loaded w v old e made).1 ne;
    resolve_timestamp_within-ne =
        λ w e ms v named. within-ne w e.snapshot.snapshot ms v (λ head u. own w head ms u) named;
  }
