-- ===== src/Schema/Storable.antt =====
-- The list of storable types and the visitor of fields agree (src/delta_schema_builder.cpp).
use duckdb_delta.Prelude.{
  ℕ, ◌≡◌, sym, ap, subst, refl, ◌∙◌, ◌⊎◌, inl, inr, Bool, true, false, Option, none, some, List,
  ◌∷◌, Result, ok, err, Error, error, not_implemented, and_then, Option-cases, String,
}
use duckdb_delta.Prelude.Bytes.{Text, bytes}
use duckdb_delta.Types.{
  LogicalType, Fields, boolean, tinyint, smallint, integer, bigint, float, double, varchar, blob,
  date, timestamp, timestamp_tz, variant, decimal, struct, list, array, map_type, other, end, field,
}
use duckdb_delta.Schema.Builder.{
  KernelLeaf, find_unsupported_type, find_unsupported_field, found_first, SchemaVisitor,
  visit_field, visit_children, build, answer_kernel, throw_if_delta_cannot_store,
}

-- What `VisitField` throws for a type that Delta cannot store.
abbrev pub cannot_store : Error
cannot_store = error not_implemented "Delta CREATE TABLE does not support column '%s' of type %s%s"

found_first-none : (a b : Option LogicalType) → found_first a b ≡ none → (a ≡ none) × (b ≡ none)
found_first-none none b h = (refl, h)
found_first-none (some t) b h = cc

module _ (V : SchemaVisitor) where
  open V use {State}

  -- One of the kernel's functions has thrown this.
  pub data KernelThrew : Error → Type 0 where
    at_leaf :
        (l : KernelLeaf) (name : Text) (n : Bool) (s s' : State) {e : Error}
        → V.visit_field_leaf l name n s ≡ (s', err e)
        → KernelThrew e
    at_variant :
        (name : Text) (i : ℕ) (n : Bool) (s s' : State) {e : Error}
        → V.visit_field_variant name i n s ≡ (s', err e)
        → KernelThrew e
    at_struct :
        (name : Text) (is : List ℕ) (n : Bool) (s s' : State) {e : Error}
        → V.visit_field_struct name is n s ≡ (s', err e)
        → KernelThrew e
    at_array :
        (name : Text) (i : ℕ) (n : Bool) (s s' : State) {e : Error}
        → V.visit_field_array name i n s ≡ (s', err e)
        → KernelThrew e
    at_map :
        (name : Text) (i j : ℕ) (n : Bool) (s s' : State) {e : Error}
        → V.visit_field_map name i j n s ≡ (s', err e)
        → KernelThrew e

  -- A step for a table whose first type that cannot be stored is `bad`: it returns only if there is
  -- none, and throws what the kernel has thrown, or that there is one.
  abbrev Sound : {A : Type 0} → Option LogicalType → State × Result A → Type 0
  Sound bad (s, ok a) = bad ≡ none
  Sound bad (s, err e) = KernelThrew e ⊎ ((u : LogicalType) × (bad ≡ some u) × (e ≡ cannot_store))

  called :
      (r : State × Result ℕ)
      → ((s : State) (e : Error) → r ≡ (s, err e) → KernelThrew e)
      → Sound none r
  called (s, ok id) h = refl
  called (s, err e) h = inl (h s e refl)

  and_then-Sound :
      {A B : Type 0} (bad : Option LogicalType) (r : State × Result A)
      (f : State → A → State × Result B)
      → Sound none r
      → ((s : State) (a : A) → Sound bad (f s a))
      → Sound bad (and_then r f)
  and_then-Sound bad (s, ok a) f h g = g s a
  and_then-Sound bad (s, err e) f (inl threw) g = inl threw
  and_then-Sound bad (s, err e) f (inr (u, found, same)) g = cc found

  visit_field-refuses :
      (t u : LogicalType) (name : Text) (n : Bool) (s : State)
      → find_unsupported_type t ≡ some u
      → visit_field V t name n s ≡ (s, err cannot_store)
  unfolding visit_field find_unsupported_type
  visit_field-refuses (struct fields) u name n s h = rw h refl
  visit_field-refuses (list e) u name n s h = rw h refl
  visit_field-refuses (map_type k v) u name n s h = rw h refl
  visit_field-refuses (array e k) u name n s h = refl
  visit_field-refuses (other id) u name n s h = refl
  visit_field-refuses boolean u name n s h = cc
  visit_field-refuses tinyint u name n s h = cc
  visit_field-refuses smallint u name n s h = cc
  visit_field-refuses integer u name n s h = cc
  visit_field-refuses bigint u name n s h = cc
  visit_field-refuses float u name n s h = cc
  visit_field-refuses double u name n s h = cc
  visit_field-refuses varchar u name n s h = cc
  visit_field-refuses blob u name n s h = cc
  visit_field-refuses date u name n s h = cc
  visit_field-refuses timestamp u name n s h = cc
  visit_field-refuses timestamp_tz u name n s h = cc
  visit_field-refuses variant u name n s h = cc
  visit_field-refuses (decimal w c) u name n s h = cc

  leaf-Sound :
      (l : KernelLeaf) (name : Text) (n : Bool) (s : State)
      → Sound none (V.visit_field_leaf l name n s)
  leaf-Sound l name n s = called (V.visit_field_leaf l name n s) (λ s' e h. at_leaf l name n s s' h)

  struct-Sound :
      (name : Text) (is : List ℕ) (n : Bool) (s : State)
      → Sound none (V.visit_field_struct name is n s)
  struct-Sound name is n s =
      called (V.visit_field_struct name is n s) (λ s' e h. at_struct name is n s s' h)

  mutual
    unfolding visit_field find_unsupported_type

    visit_field-Sound :
        (t : LogicalType) (name : Text) (n : Bool) (s : State)
        → find_unsupported_type t ≡ none
        → Sound none (visit_field V t name n s)
    visit_field-Sound boolean name n s h = leaf-Sound _ name n s
    visit_field-Sound tinyint name n s h = leaf-Sound _ name n s
    visit_field-Sound smallint name n s h = leaf-Sound _ name n s
    visit_field-Sound integer name n s h = leaf-Sound _ name n s
    visit_field-Sound bigint name n s h = leaf-Sound _ name n s
    visit_field-Sound float name n s h = leaf-Sound _ name n s
    visit_field-Sound double name n s h = leaf-Sound _ name n s
    visit_field-Sound varchar name n s h = leaf-Sound _ name n s
    visit_field-Sound blob name n s h = leaf-Sound _ name n s
    visit_field-Sound date name n s h = leaf-Sound _ name n s
    visit_field-Sound timestamp_tz name n s h = leaf-Sound _ name n s
    visit_field-Sound timestamp name n s h = leaf-Sound _ name n s
    visit_field-Sound (decimal w c) name n s h = leaf-Sound _ name n s
    visit_field-Sound variant name n s h =
        and_then-Sound none (V.visit_field_leaf _ _ false s) _ (leaf-Sound _ _ false s) (λ s₁ i.
          and_then-Sound none (V.visit_field_leaf _ _ false s₁) _ (leaf-Sound _ _ false s₁) (λ s₂ j.
            and_then-Sound none (V.visit_field_struct name _ false s₂) _
              (struct-Sound name _ false s₂)
              (λ s₃ k.
                called (V.visit_field_variant name k n s₃)
                  (λ s' e h. at_variant name k n s₃ s' h))))
    visit_field-Sound (struct fields) name n s h = rw h (
        and_then-Sound none (visit_children V fields s) _ (visit_children-Sound fields s h)
          (λ s' ids. struct-Sound name ids n s'))
    visit_field-Sound (list e) name n s h = rw h (
        and_then-Sound none (visit_field V e (bytes "element") true s) _
          (visit_field-Sound e (bytes "element") true s h)
          (λ s₁ id.
            called (V.visit_field_array name id n s₁)
              (λ s' x threw. at_array name id n s₁ s' threw)))
    visit_field-Sound (map_type k v) name n s h =
        let (hk, hv) = found_first-none (find_unsupported_type k) (find_unsupported_type v) h in
        rw h (
          and_then-Sound none (visit_field V k (bytes "key") false s) _
            (visit_field-Sound k (bytes "key") false s hk)
            (λ s₁ i.
              and_then-Sound none (visit_field V v (bytes "value") true s₁) _
                (visit_field-Sound v (bytes "value") true s₁ hv)
                (λ s₂ j.
                  called (V.visit_field_map name i j n s₂)
                    (λ s' x threw. at_map name i j n s₂ s' threw))))
    visit_field-Sound (array e k) name n s h = cc
    visit_field-Sound (other id) name n s h = cc

    visit_children-Sound :
        (fields : Fields) (s : State)
        → find_unsupported_field fields ≡ none
        → Sound none (visit_children V fields s)
    visit_children-Sound end s h = refl
    visit_children-Sound (field name t rest) s h =
        let (ht, hr) = found_first-none (find_unsupported_type t) (find_unsupported_field rest) h in
        and_then-Sound none (visit_field V t name true s) _ (visit_field-Sound t name true s ht)
          (λ s₁ id.
            and_then-Sound none (visit_children V rest s₁) _ (visit_children-Sound rest s₁ hr)
              (λ s₂ ids. refl))

  visit_children-refuses :
      (fields : Fields) (u : LogicalType) (s : State)
      → find_unsupported_field fields ≡ some u
      → Sound (some u) (visit_children V fields s)
  unfolding visit_field find_unsupported_type
  visit_children-refuses end u s h = cc
  visit_children-refuses (field name t rest) u s h = elim (Option-cases (find_unsupported_type t)) [
    | inr (x, bad) ↦
        subst
          (λ (r : State × Result ℕ). Sound (some u) (
            and_then r
              (λ s₁ id. and_then (visit_children V rest s₁) (λ s₂ ids. (s₂, ok (id ∷ ids))))))
          (sym (visit_field-refuses t x name true s bad)) (inr (u, refl, refl))
    | inl good ↦
        and_then-Sound (some u) (visit_field V t name true s) _
          (visit_field-Sound t name true s good)
          (λ s₁ id.
            kept u (visit_children V rest s₁) (λ s₂ ids. (s₂, ok (id ∷ ids)))
              (visit_children-refuses rest u s₁ (
                sym (
                  ap (λ (o : Option LogicalType). found_first o (find_unsupported_field rest)) good)
                ∙ h)))
  ]
    where
      kept :
          {A B : Type 0} (u : LogicalType) (r : State × Result A) (f : State → A → State × Result B)
          → Sound (some u) r
          → Sound (some u) (and_then r f)
      kept u (s, ok a) f h = cc h
      kept u (s, err e) f h = h

  -- What the kernel is told of a table that can be stored, and of one that cannot.
  abbrev pub Accepted : State × (ℕ × Option Error) → Type 0
  Accepted (s, (id, none)) = Unit {0}
  Accepted (s, (id, some e)) = (id ≡ 0) × KernelThrew e

  abbrev pub Refused : State × (ℕ × Option Error) → Type 0
  Refused (s, (id, none)) = ⊥
  Refused (s, (id, some e)) = (id ≡ 0) × (KernelThrew e ⊎ (e ≡ cannot_store))

  answer_kernel-Accepted : (r : State × Result ℕ) → Sound none r → Accepted (answer_kernel V r)
  unfolding answer_kernel
  answer_kernel-Accepted (s, ok id) h = tt
  answer_kernel-Accepted (s, err e) (inl threw) = (refl, threw)
  answer_kernel-Accepted (s, err e) (inr (u, found, same)) = cc found

  answer_kernel-Refused :
      (u : LogicalType) (r : State × Result (List ℕ)) (f : State → List ℕ → State × Result ℕ)
      → Sound (some u) r
      → Refused (answer_kernel V (and_then r f))
  unfolding answer_kernel
  answer_kernel-Refused u (s, ok ids) f h = cc h
  answer_kernel-Refused u (s, err e) f (inl threw) = (refl, inl threw)
  answer_kernel-Refused u (s, err e) f (inr (v, found, same)) = (refl, inr same)

  build-Accepted :
      (columns : Fields) (s : State)
      → find_unsupported_field columns ≡ none
      → Accepted (build V columns s)
  unfolding build
  build-Accepted columns s h =
      answer_kernel-Accepted
        (and_then (visit_children V columns s)
          (λ s' ids. V.visit_field_struct (bytes "root") ids false s'))
        (and_then-Sound none (visit_children V columns s) _ (visit_children-Sound columns s h)
          (λ s' ids. struct-Sound (bytes "root") ids false s'))

  build-Refused :
      (columns : Fields) (u : LogicalType) (s : State)
      → find_unsupported_field columns ≡ some u
      → Refused (build V columns s)
  unfolding build
  build-Refused columns u s h =
      answer_kernel-Refused u (visit_children V columns s)
        (λ s' ids. V.visit_field_struct (bytes "root") ids false s')
        (visit_children-refuses columns u s h)

throw_if_delta_cannot_store-finds :
    (columns : Fields)
    → ((find_unsupported_field columns ≡ none) × (throw_if_delta_cannot_store columns ≡ ok tt))
      ⊎ ((u : LogicalType) × (message : String) × (find_unsupported_field columns ≡ some u)
          × (throw_if_delta_cannot_store columns ≡ err (error not_implemented message)))
unfolding find_unsupported_type throw_if_delta_cannot_store
throw_if_delta_cannot_store-finds end = inl (refl, refl)
throw_if_delta_cannot_store-finds (field name t rest) =
    elim (Option-cases (find_unsupported_type t)) [
      | inr (u, bad) ↦ inr (
        u,
        "%s does not support column '%s' of type %s%s: Delta has no such type. %s",
        rw bad refl,
        rw bad refl,
      )
      | inl good ↦ rw good (throw_if_delta_cannot_store-finds rest)
    ]

-- The check before CREATE TABLE AS and COPY, and the schema builder, agree whatever the kernel does.
-- If the check passes, the builder itself refuses nothing: an error that it keeps is one that a
-- function of the kernel has thrown. If the check refuses, with an error of not implemented, the
-- builder keeps an error and tells the kernel that there is no such field: its own error of not
-- implemented, or one that the kernel has thrown before. It never throws across the kernel's
-- interface.
pub throw_if_delta_cannot_store-build :
    (V : SchemaVisitor) (columns : Fields) (s : V.State)
    → ((throw_if_delta_cannot_store columns ≡ ok tt) × Accepted V (build V columns s))
      ⊎ ((message : String) × (throw_if_delta_cannot_store columns
            ≡ err (error not_implemented message))
          × Refused V (build V columns s))
throw_if_delta_cannot_store-build V columns s = elim (throw_if_delta_cannot_store-finds columns) [
  | inl (none_found, passes) ↦ inl (passes, build-Accepted V columns s none_found)
  | inr (u, message, found, refuses) ↦ inr (message, refuses, build-Refused V columns u s found)
]
