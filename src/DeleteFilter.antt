-- ===== src/DeleteFilter.antt =====
-- `DeltaDeleteFilter::Filter` (src/functions/delta_scan/delta_multi_file_reader.cpp): the rows of a
-- vector that a deletion vector leaves.
pub mod Selection
use duckdb_delta.Prelude.{
  ℕ, zero, suc, ◌+◌, ◌%◌, ◌^◌, Bool, true, false, Option, none, some, List, [], ◌∷◌, get_elem?,
  ◌==◌, if◌then◌else◌,
}

-- `row_id >= dv.len || dv.ptr[row_id]`, of the kernel's slice, which holds true for a row to keep.
unfoldable pub is_selected : List Bool → ℕ → Bool
is_selected dv row_id = elim (get_elem? dv row_id) [ none ↦ true | some keep ↦ keep ]

-- `SelectionVector::set_index`, on what the buffer holds.
unfoldable pub set_index : (ℕ → ℕ) → ℕ → ℕ → ℕ → ℕ
set_index sel at value j = if j == at then value else sel j

-- The loop with `remaining` rounds to go. The sum is unsigned, on 64 bits.
unfoldable pub filter_rows : List Bool → ℕ → ℕ → ℕ → ℕ → (ℕ → ℕ) → ℕ × (ℕ → ℕ)
unfolding is_selected set_index
filter_rows dv start_row_index i zero current_select sel = (current_select, sel)
filter_rows dv start_row_index i (suc remaining) current_select sel =
    filter_rows dv start_row_index (suc i) remaining
      (if is_selected dv ((i + start_row_index) % 2 ^ 64)
        then suc current_select
        else current_select)
      (set_index sel current_select i)

-- With what the buffer holds after `Initialize`.
unfoldable pub filter : List Bool → ℕ → ℕ → (ℕ → ℕ) → ℕ × (ℕ → ℕ)
unfolding filter_rows
filter dv start_row_index count sel =
    if count == 0 then (0, sel) else filter_rows dv start_row_index 0 count 0 sel
