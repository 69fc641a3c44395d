-- ===== src/CreateTable/Partitions.antt =====
-- The partition columns that are taken in (src/storage/delta_create_table.cpp).
use mathlib.Core.List.{append_assoc, append-nil}
use duckdb_delta.Prelude.{
  ok-injective, ◌≡◌, ◌≢◌, refl, ap, sym, ◌∙◌, inl, inr, Bool, false, ◌||◌, Option, none, some, List,
  [], ◌∷◌, ◌++◌, ok, >>=-ok, >>-ok, Bool-cases, subst, arith,
}
use duckdb_delta.Prelude.Bytes.{text_eq_sym, Text, text_eq}
use duckdb_delta.Types.{LogicalType, Fields, blob}
use duckdb_delta.CreateTable.{
  throw_if_partition_type_unwritable, contains, find_column, append_key, resolve_keys,
  resolve_partition_columns,
}

-- No name stands twice.
abbrev pub Distinct : List Text → Type 0
Distinct [] = Unit {0}
Distinct (x ∷ xs) = (contains x xs ≡ false) × Distinct xs

or-false : (a b : Bool) → (a || b) ≡ false → (a ≡ false) × (b ≡ false)
or-false a b h = ground arith

contains-append :
    (y x : Text) (ys : List Text)
    → contains y ys ≡ false
    → text_eq x y ≡ false
    → contains y (ys ++ x ∷ []) ≡ false
unfolding contains
contains-append y x [] h e = rw e refl
contains-append y x (z ∷ zs) h e =
    let (other, rest) = or-false (text_eq z y) (contains y zs) h in
    rw (other, contains-append y x zs rest e) refl

Distinct-append :
    (xs : List Text) (x : Text) → Distinct xs → contains x xs ≡ false → Distinct (xs ++ x ∷ [])
unfolding contains
Distinct-append [] x d h = (refl, tt)
Distinct-append (y ∷ ys) x d h =
    let (other, rest) = or-false (text_eq y x) (contains x ys) h in
    (contains-append y x ys d.0 (text_eq_sym x y ∙ other), Distinct-append ys x d.1 rest)

unwritable-blob : (t : LogicalType) → throw_if_partition_type_unwritable t ≡ ok tt → t ≢ blob
unfolding throw_if_partition_type_unwritable
unwritable-blob t h e = cc (sym (ap throw_if_partition_type_unwritable e) ∙ h)

module _ (ci_equals : Text → Text → Bool) where
  -- Each name is that of the column that the key at its place names, which is not a BLOB.
  abbrev pub Resolved : Fields → List Text → List Text → Type 0
  Resolved columns [] [] = Unit {0}
  Resolved columns [] (n ∷ ns) = ⊥
  Resolved columns (k ∷ ks) [] = ⊥
  Resolved columns (k ∷ ks) (n ∷ ns) =
      ((t : LogicalType) × (find_column ci_equals k columns ≡ some (n, t)) × (t ≢ blob))
      × Resolved columns ks ns

  append_key-ok :
      (result result' : List Text) (found : Option (Text × LogicalType))
      → append_key ci_equals result found ≡ ok result'
      → (n : Text) × (t : LogicalType) × (found ≡ some (n, t))
        × (t ≢ blob)
        × (contains n result ≡ false)
        × (result' ≡ result ++ n ∷ [])
  append_key-ok result result' none h = cc
  append_key-ok result result' (some (n, t)) h =
      let (writable, fresh) = >>-ok (throw_if_partition_type_unwritable t) _ result' h in
      elim (Bool-cases (contains n result)) [
        | inl twice ↦ cc (rw twice at fresh)
        | inr once ↦
            (n, t, refl, unwritable-blob t writable, once, sym (ok-injective (rw once at fresh)))
      ]

  resolve_keys-Resolved :
      (columns : Fields) (keys result names : List Text)
      → Distinct result
      → resolve_keys ci_equals columns keys result ≡ ok names
      → (added : List Text) × (names ≡ result ++ added)
        × Resolved columns keys added
        × Distinct names
  unfolding resolve_keys
  resolve_keys-Resolved columns [] result names d h =
      ([], sym (ok-injective h) ∙ sym (append-nil result), tt, subst Distinct (ok-injective h) d)
  resolve_keys-Resolved columns (key ∷ keys) result names d h =
      let (result', first, last) =
        >>=-ok (append_key ci_equals result (find_column ci_equals key columns)) _ names h in
      let (n, t, found, writable, once, grown) =
        append_key-ok result result' (find_column ci_equals key columns) first in
      let (added, e, resolved, distinct) =
        resolve_keys-Resolved columns keys result' names
          (subst Distinct (sym grown) (Distinct-append result n d once)) last in
      (
        n ∷ added,
        e ∙ ap (λ (r : List Text). r ++ added) grown ∙ append_assoc result (n ∷ []) added,
        ((t, found, writable), resolved),
        distinct,
      )

  -- The partition columns that are taken in are, key by key and in order, columns of the table under
  -- the names that the table gives them; none is a BLOB and none stands twice, whatever the case that
  -- the keys are written in.
  pub resolve_partition_columns-Distinct :
      (columns : Fields) (keys names : List Text)
      → resolve_partition_columns ci_equals columns keys ≡ ok names
      → Resolved columns keys names × Distinct names
  unfolding resolve_partition_columns
  resolve_partition_columns-Distinct columns keys names h =
      let (added, e, resolved, distinct) = resolve_keys-Resolved columns keys [] names tt h in
      (subst (Resolved columns keys) (sym e) resolved, distinct)
