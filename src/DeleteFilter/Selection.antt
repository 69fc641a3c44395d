-- ===== src/DeleteFilter/Selection.antt =====
-- What the deletion filter selects (src/functions/delta_scan/delta_multi_file_reader.cpp).
use duckdb_delta.Prelude.{
  ℕ, zero, suc, ◌+◌, ◌%◌, ◌^◌, ◌≤◌, ◌<◌, ◌≡◌, ◌≢◌, refl, ap, ◌∙◌, inl, inr, Bool, false, not,
  Option, some, List, [], ◌∷◌, get_elem?, length, ◌==◌, if◌then◌else◌, arith, Bool-cases,
}
use duckdb_delta.DeleteFilter.{is_selected, set_index, filter_rows, filter}

-- The row has a mark in the deletion vector, and the mark does not keep it.
unfoldable pub is_deleted : List Bool → ℕ → Bool
is_deleted [] row = false
is_deleted (keep ∷ dv) zero = not keep
is_deleted (keep ∷ dv) (suc row) = is_deleted dv row

-- The rows of a vector that a deletion vector does not delete, in order: `n` rows from row `i` of a
-- vector that starts at row `start`.
unfoldable pub kept_rows : List Bool → ℕ → ℕ → ℕ → List ℕ
unfolding is_deleted
kept_rows dv start i zero = []
kept_rows dv start i (suc n) =
    let rest = kept_rows dv start (suc i) n in if is_deleted dv (i + start) then rest else i ∷ rest

is_selected-is_deleted : (dv : List Bool) (row : ℕ) → is_deleted dv row ≡ not (is_selected dv row)
unfolding is_deleted is_selected
is_selected-is_deleted [] row = refl
is_selected-is_deleted (keep ∷ dv) zero = refl
is_selected-is_deleted (keep ∷ dv) (suc row) = is_selected-is_deleted dv row

-- What a loop that has filled `cur` places leaves.
record Selects (kept : List ℕ) (cur bound : ℕ) (sel : ℕ → ℕ) (r : ℕ × (ℕ → ℕ)) : Type 0 where
  count : r.0 ≡ cur + length kept
  picks : (j v : ℕ) → get_elem? kept j ≡ some v → r.1 (cur + j) ≡ v
  before : (j : ℕ) → j < cur → r.1 j ≡ sel j
  beyond : (j : ℕ) → bound ≤ j → r.1 j ≡ sel j

set_index-same : (sel : ℕ → ℕ) (at v : ℕ) → set_index sel at v at ≡ v
unfolding set_index
set_index-same sel at v = ground arith

set_index-other : (sel : ℕ → ℕ) (at v j : ℕ) → j ≢ at → set_index sel at v j ≡ sel j
unfolding set_index
set_index-other sel at v j h = ground arith

some-injective : {i v : ℕ} → ◌≡◌ {A = Option ℕ} (some i) (some v) → i ≡ v
some-injective e = cc

keep-Selects :
    (kept : List ℕ) (i cur bound : ℕ) (sel : ℕ → ℕ) (r : ℕ × (ℕ → ℕ))
    → cur < bound
    → Selects kept (suc cur) bound (set_index sel cur i) r
    → Selects (i ∷ kept) cur bound sel r
keep-Selects kept i cur bound sel r h s = record {
  count = omega (arith, s.count);
  picks = picks-from;
  before = λ j lt. s.before j (omega arith) ∙ set_index-other sel cur i j (omega arith);
  beyond = λ j le. s.beyond j le ∙ set_index-other sel cur i j (omega arith);
}
  where
    picks-from : (j v : ℕ) → get_elem? (i ∷ kept) j ≡ some v → r.1 (cur + j) ≡ v
    picks-from zero v e =
        ap r.1 (omega arith)
        ∙ s.before cur (omega arith)
        ∙ set_index-same sel cur i
        ∙ some-injective e
    picks-from (suc j) v e = ap r.1 (omega arith) ∙ s.picks j v e

drop-Selects :
    (kept : List ℕ) (i cur bound : ℕ) (sel : ℕ → ℕ) (r : ℕ × (ℕ → ℕ))
    → cur < bound
    → Selects kept cur bound (set_index sel cur i) r
    → Selects kept cur bound sel r
drop-Selects kept i cur bound sel r h s = record {
  count = s.count;
  picks = s.picks;
  before = λ j lt. s.before j lt ∙ set_index-other sel cur i j (omega arith);
  beyond = λ j le. s.beyond j le ∙ set_index-other sel cur i j (omega arith);
}

filter_rows-Selects :
    (dv : List Bool) (start i n cur bound : ℕ) (sel : ℕ → ℕ)
    → i + n + start < 2 ^ 64
    → cur + n ≤ bound
    → Selects (kept_rows dv start i n) cur bound sel (filter_rows dv start i n cur sel)
unfolding filter_rows kept_rows
filter_rows-Selects dv start i zero cur bound sel fits le = record {
  count = omega arith;
  picks = λ j v e. cc;
  before = λ j lt. refl;
  beyond = λ j h. refl;
}
filter_rows-Selects dv start i (suc n) cur bound sel fits le =
    rw (wrap) (elim (Bool-cases (is_selected dv (i + start))) [
      | inl keep ↦
          rw (is_selected-is_deleted dv (i + start), keep)
            (keep-Selects (kept_rows dv start (suc i) n) i cur bound sel
              (filter_rows dv start (suc i) n (suc cur) (set_index sel cur i)) (omega arith)
              (filter_rows-Selects dv start (suc i) n (suc cur) bound (set_index sel cur i)
                (omega arith) (omega arith)))
      | inr deleted ↦
          rw (is_selected-is_deleted dv (i + start), deleted)
            (drop-Selects (kept_rows dv start (suc i) n) i cur bound sel
              (filter_rows dv start (suc i) n cur (set_index sel cur i)) (omega arith)
              (filter_rows-Selects dv start (suc i) n cur bound (set_index sel cur i) (omega arith)
                (omega arith)))
    ])
  where
    wrap : (i + start) % 2 ^ 64 ≡ i + start
    wrap = omega arith

-- The filter counts the rows that the deletion vector does not delete and lists them in order at the
-- front of the selection, for a vector whose row numbers fit 64 bits; a row past the end of the
-- deletion vector is not deleted. No place from the count of the vector's rows on is changed.
pub filter-keeps :
    (dv : List Bool) (start count : ℕ) (sel : ℕ → ℕ)
    → count + start < 2 ^ 64
    → let r = filter dv start count sel in
      (r.0 ≡ length (kept_rows dv start 0 count))
      × ((j v : ℕ) → get_elem? (kept_rows dv start 0 count) j ≡ some v → r.1 j ≡ v)
      × ((j : ℕ) → count ≤ j → r.1 j ≡ sel j)
unfolding filter filter_rows kept_rows
filter-keeps dv start zero sel fits = (refl, λ j v e. cc, λ j h. refl)
filter-keeps dv start (suc n) sel fits =
    let s = filter_rows-Selects dv start 0 (suc n) 0 (suc n) sel (omega arith) (omega arith) in
    rw (nonzero n, filter)
      (
        omega (arith, s.count),
        λ j v e. ap (filter_rows dv start 0 (suc n) 0 sel).1 (omega arith) ∙ s.picks j v e,
        s.beyond,
      )
  where
    nonzero : (m : ℕ) → (suc m == 0) ≡ false
    nonzero m = ground arith
