-- ===== src/Insert/FieldPaths.antt =====
-- The paths of struct fields, as the constraints and the statistics name them, are read back as the
-- names they were made of (src/storage/delta_insert.cpp).
use mathlib.Core.Option
use mathlib.Core.List.{append_assoc, append-nil}
use duckdb_delta.Prelude.{
  ℕ, zero, suc, ◌≤◌, ◌<◌, ◌≡◌, ◌≢◌, refl, ap, sym, ◌∙◌, ◌⊎◌, inl, inr, Option, none, some, List, [],
  ◌∷◌, ◌++◌, arith, Result, ok, err, Error, ◌==◌, ◌>>=◌, length, length-append, Bool-cases, ==_iff,
  ==_refl, Result-cases,
}
use duckdb_delta.Prelude.Bytes.{Text}
use duckdb_delta.Insert.QuotedList.{
  prepend, unquote, parse_quoted_value, next_value, parse_quoted_values, parse_quoted_list,
  double_quotes, quoted_name, field_path,
}

-- The text behind a quoted value does not go on with a quote.
abbrev Ends : Text → Type 0
Ends [] = Unit
Ends (c ∷ cs) = c ≢ b'"'

unquote-plain : (c : ℕ) (s : Text) → c ≢ b'"' → unquote (c ∷ s) ≡ prepend c (unquote s)
unfolding unquote
unquote-plain c [] h = ground arith
unquote-plain c (d ∷ ds) h = ground arith

unquote-escaped : (s : Text) → unquote (b'"' ∷ b'"' ∷ s) ≡ prepend b'"' (unquote s)
unfolding unquote
unquote-escaped s = refl

unquote-end : (rest : Text) → Ends rest → unquote (b'"' ∷ rest) ≡ ok ([], rest)
unfolding unquote
unquote-end [] h = refl
unquote-end (c ∷ cs) h = ground arith

-- The closing quote is the first one that is not doubled.
unquote-double_quotes :
    (s rest : Text) → Ends rest → unquote (double_quotes s ++ b'"' ∷ rest) ≡ ok (s, rest)
unfolding double_quotes
unquote-double_quotes [] rest h = unquote-end rest h
unquote-double_quotes (c ∷ cs) rest h = elim (Bool-cases (c == b'"')) [
  | inl quote ↦ rw quote (
      unquote-escaped (double_quotes cs ++ b'"' ∷ rest)
      ∙ ap (prepend b'"') (unquote-double_quotes cs rest h)
      ∙ ap (λ (x : ℕ). ok (x ∷ cs, rest)) (sym ((==_iff c b'"').0 quote)))
  | inr plain ↦ rw plain (
      unquote-plain c (double_quotes cs ++ b'"' ∷ rest) (ground arith)
      ∙ ap (prepend c) (unquote-double_quotes cs rest h))
]

parse_quoted_value-quoted_name :
    (name rest : Text) → Ends rest → parse_quoted_value (quoted_name name ++ rest) ≡ ok (name, rest)
unfolding parse_quoted_value quoted_name
parse_quoted_value-quoted_name name rest h =
    ap unquote (append_assoc (double_quotes name) (b'"' ∷ []) rest)
    ∙ unquote-double_quotes name rest h

-- The path of a field below the columns and fields that hold it.
unfoldable pub path_of : Text → List Text → Text
unfolding field_path
path_of parent [] = parent
path_of parent (name ∷ names) = path_of (field_path parent name) names

-- The same path, from its end.
abbrev joined : List Text → Text
joined [] = []
joined (name ∷ names) = b'.' ∷ (quoted_name name ++ joined names)

joined-Ends : (names : List Text) → Ends (joined names)
joined-Ends [] = tt
joined-Ends (name ∷ names) = ground arith

path_of-joined :
    (c : ℕ) (cs : Text) (names : List Text) → path_of (c ∷ cs) names ≡ (c ∷ cs) ++ joined names
unfolding path_of field_path
path_of-joined c cs [] = ap (λ (t : Text). c ∷ t) (sym (append-nil cs))
path_of-joined c cs (name ∷ names) =
    path_of-joined c (cs ++ b'.' ∷ quoted_name name) names
    ∙ ap (λ (t : Text). c ∷ t) (append_assoc cs (b'.' ∷ quoted_name name) (joined names))

parse_quoted_values-last :
    (fuel : ℕ) (input value : Text) (separator : ℕ)
    → parse_quoted_value input ≡ ok (value, [])
    → parse_quoted_values (suc fuel) input separator ≡ some (ok (value ∷ []))
unfolding parse_quoted_values next_value
parse_quoted_values-last fuel input value separator h = rw (h, parse_quoted_values) refl

parse_quoted_values-next :
    (fuel : ℕ) (input value rest : Text) (separator : ℕ)
    → parse_quoted_value input ≡ ok (value, separator ∷ rest)
    → parse_quoted_values (suc fuel) input separator
      ≡ Option.map
          (λ r. r >>= λ values. ok (value ∷ values))
          (parse_quoted_values fuel rest separator)
unfolding parse_quoted_values next_value
parse_quoted_values-next fuel input value rest separator h =
    rw (h, parse_quoted_values, ==_refl separator) refl

parse-joined :
    (fuel : ℕ) (name : Text) (names : List Text)
    → length names < fuel
    → parse_quoted_values fuel (quoted_name name ++ joined names) b'.' ≡ some (ok (name ∷ names))
parse-joined zero name names h = absurd (omega arith)
parse-joined (suc fuel) name [] h =
    parse_quoted_values-last fuel (quoted_name name ++ []) name b'.'
      (parse_quoted_value-quoted_name name [] tt)
parse-joined (suc fuel) name (next ∷ names) h =
    parse_quoted_values-next fuel (quoted_name name ++ joined (next ∷ names)) name
      (quoted_name next ++ joined names) b'.'
      (parse_quoted_value-quoted_name name (joined (next ∷ names)) (joined-Ends (next ∷ names)))
    ∙ ap (Option.map (λ (r : Result (List Text)). r >>= λ values. ok (name ∷ values)))
        (parse-joined fuel next names (omega arith))

length-joined : (names : List Text) → length names ≤ length (joined names)
unfolding quoted_name
length-joined [] = omega arith
length-joined (name ∷ names) =
    omega (arith, length-joined names, length-append (quoted_name name) (joined names))

-- The path that a column and the struct fields below it are named by is read back as their names, in
-- order, whatever characters these hold. The list is read to its end.
pub parse_quoted_list-path_of :
    (column : Text) (fields : List Text)
    → parse_quoted_list (path_of [] (column ∷ fields)) b'.' ≡ some (ok (column ∷ fields))
unfolding parse_quoted_list path_of field_path quoted_name
parse_quoted_list-path_of column fields =
    ap (λ (t : Text). parse_quoted_list t b'.')
      (path_of-joined b'"' (double_quotes column ++ b'"' ∷ []) fields)
    ∙ parse-joined (length (quoted_name column ++ joined fields)) column fields (
        omega (
          arith,
          length-joined fields,
          length-append (double_quotes column ++ b'"' ∷ []) (joined fields),
        ))

prepend-ok :
    (c : ℕ) (r : Result (Text × Text)) (value left : Text)
    → prepend c r ≡ ok (value, left)
    → (v : Text) × (r ≡ ok (v, left))
prepend-ok c (ok (v, l)) value left h = (v, cc)
prepend-ok c (err e) value left h = cc

ok-left :
    (left' value' value left : Text)
    → ◌≡◌ {A = Result (Text × Text)} (ok (value', left')) (ok (value, left))
    → left' ≡ left
ok-left left' value' value left h = cc

unquote-shorter : (s value left : Text) → unquote s ≡ ok (value, left) → length left < length s
unfolding unquote
unquote-shorter [] value left h = cc
unquote-shorter (c ∷ []) value left h = ground arith
unquote-shorter (c ∷ d ∷ ds) value left h = elim (Bool-cases (c == b'"')) [
  | inl quote ↦ elim (Bool-cases (d == b'"')) [
    | inl doubled ↦
        let (v, e) = prepend-ok b'"' (unquote ds) value left (rw (quote, doubled, unquote) at h) in
        omega (arith, unquote-shorter ds v left e)
    | inr ends ↦
        let same = ok-left (d ∷ ds) [] value left (rw (quote, ends, unquote) at h) in
        omega (arith, ap length same)
  ]
  | inr plain ↦
      let (v, e) = prepend-ok c (unquote (d ∷ ds)) value left (rw (plain, unquote) at h) in
      omega (arith, unquote-shorter (d ∷ ds) v left e)
]

parse_quoted_value-shorter :
    (s value left : Text) → parse_quoted_value s ≡ ok (value, left) → suc (length left) < length s
unfolding parse_quoted_value
parse_quoted_value-shorter [] value left h = cc
parse_quoted_value-shorter (c ∷ cs) value left h = elim (Bool-cases (c == b'"')) [
  | inl quote ↦ omega (arith, unquote-shorter cs value left (rw (quote, parse_quoted_value) at h))
  | inr plain ↦ cc (rw (plain, parse_quoted_value) at h)
]

next_value-shorter :
    (separator : ℕ) (left rest : Text)
    → next_value separator left ≡ ok (some rest)
    → length rest < length left
unfolding next_value
next_value-shorter separator [] rest h = cc
next_value-shorter separator (c ∷ cs) rest h = ground arith

Returns : Option (Result (List Text)) → Type 0
Returns o = (r : Result (List Text)) × (o ≡ some r)

map-Returns :
    (f : Result (List Text) → Result (List Text)) (o : Option (Result (List Text)))
    → Returns o
    → Returns (Option.map f o)
unfolding Returns
map-Returns f (some r) h = (f r, refl)
map-Returns f none h = cc h.1

Next-cases :
    (r : Result (Option Text))
    → (r ≡ ok none) ⊎ ((rest : Text) × (r ≡ ok (some rest))) ⊎ ((e : Error) × (r ≡ err e))
Next-cases (ok none) = inl refl
Next-cases (ok (some rest)) = inr (inl (rest, refl))
Next-cases (err e) = inr (inr (e, refl))

parse_quoted_values-Returns :
    (fuel : ℕ) (input : Text) (separator : ℕ)
    → 0 < fuel
    → length input ≤ fuel
    → Returns (parse_quoted_values fuel input separator)
unfolding Returns parse_quoted_values
parse_quoted_values-Returns zero input separator z h = absurd (omega arith)
parse_quoted_values-Returns (suc fuel) input separator z h =
    elim (Result-cases (parse_quoted_value input)) [
      | inr (e, failed) ↦ (err e, rw (failed, parse_quoted_values) refl)
      | inl ((value, left), read) ↦ elim (Next-cases (next_value separator left)) [
        | inl last ↦ (ok (value ∷ []), rw (read, last, parse_quoted_values) refl)
        | inr (inl (rest, more)) ↦
            let shorter = parse_quoted_value-shorter input value left read in
            let shorter' = next_value-shorter separator left rest more in
            rw (read, more, parse_quoted_values)
              (map-Returns (λ r. r >>= λ values. ok (value ∷ values))
                (parse_quoted_values fuel rest separator)
                (parse_quoted_values-Returns fuel rest separator (omega arith) (omega arith)))
        | inr (inr (e, failed)) ↦ (err e, rw (read, failed, parse_quoted_values) refl)
      ]
    ]

-- No input exhausts the loop: the list is read or the exception is thrown.
pub parse_quoted_list-returns :
    (input : Text) (separator : ℕ)
    → (r : Result (List Text)) × (parse_quoted_list input separator ≡ some r)
unfolding parse_quoted_list Returns
parse_quoted_list-returns [] separator = (ok [], refl)
parse_quoted_list-returns (c ∷ cs) separator =
    parse_quoted_values-Returns (length (c ∷ cs)) (c ∷ cs) separator (omega arith) (omega arith)
