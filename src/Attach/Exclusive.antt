-- ===== src/Attach/Exclusive.antt =====
-- What the options of ATTACH say of the version that is read (src/delta_extension.cpp).
use duckdb_delta.Prelude.{
  ok-injective, >>=-ok, >>-ok, subst, ℕ, ◌≡◌, ◌≢◌, refl, ap, sym, ◌∙◌, ◌⊎◌, inl, inr, true, false,
  some, List, [], ◌∷◌, Result, ok, err, Error, ◌==◌, ◌>>=◌, Bool-cases, Result-cases, All, ==_iff,
}
use duckdb_delta.Prelude.Bytes.{Text}
use duckdb_delta.Kernel.{ℤ}
use duckdb_delta.TimeTravel.{invalid_index, timestamp_to_epoch_ms, reject_future_timestamp}
use duckdb_delta.Transaction.{read_only}
use duckdb_delta.Attach.{
  mode_of_string, OptionValue, AttachOption, pin_snapshot, pushdown_partition_info,
  pushdown_filters, version, timestamp, internal_table_name, child_catalog_mode, parent_catalog,
  parent_catalog_schema, parent_commit, log_tail, max_catalog_version, unity_table_id, unrecognized,
  option_of_name, Attached, set_version, set_timestamp, apply_option, apply_options,
}

-- Whether an option is given.
abbrev pub Given : AttachOption → List (Text × OptionValue) → Type 0
Given o [] = ⊥
Given o ((name, value) ∷ rest) = (option_of_name name ≡ o) ⊎ Given o rest

-- A version that is given is not the number that stands for none.
abbrev pub Names : Text × OptionValue → Type 0
Names p = option_of_name p.0 ≡ version → p.1.as_ubigint ≢ ok invalid_index

module _ (lower : Text → Text) (get_epoch_ms : ℤ → ℤ) (now_ms : ℤ) where
  abbrev Catalog : Type 0
  Catalog = Attached lower get_epoch_ms now_ms

  -- What the time travel options have left: the version or the timestamp is set, but not both, and
  -- either makes the catalog read-only.
  record Travels (c c' : Catalog) : Type 0 where
    keeps_version : c.use_specific_version ≢ invalid_index → c'.use_specific_version ≢ invalid_index
    keeps_timestamp : c.has_specific_timestamp ≡ true → c'.has_specific_timestamp ≡ true
    keeps_read_only : c.access_mode ≡ read_only → c'.access_mode ≡ read_only
    exclusive :
        (c.use_specific_version ≡ invalid_index) ⊎ (c.has_specific_timestamp ≡ false)
        → (c'.use_specific_version ≡ invalid_index) ⊎ (c'.has_specific_timestamp ≡ false)

  Same : (c c' : Catalog) → Type 0
  Same c c' =
      (c'.use_specific_version ≡ c.use_specific_version)
      × (c'.has_specific_timestamp ≡ c.has_specific_timestamp)
      × (c'.access_mode ≡ c.access_mode)

  Same-Travels : (c c' : Catalog) → Same c c' → Travels c c'
  unfolding Same
  Same-Travels c c' (v, t, a) = record {
    keeps_version = λ h e. h (sym v ∙ e);
    keeps_timestamp = λ h. t ∙ h;
    keeps_read_only = λ h. a ∙ h;
    exclusive = λ x. elim x [ inl h ↦ inl (v ∙ h) | inr h ↦ inr (t ∙ h) ];
  }

  set_version-Travels :
      (value : OptionValue) (c c' : Catalog)
      → value.as_ubigint ≢ ok invalid_index
      → set_version lower get_epoch_ms now_ms value c ≡ ok c'
      → Travels c c' × (c'.use_specific_version ≢ invalid_index) × (c'.access_mode ≡ read_only)
  unfolding set_version
  set_version-Travels value c c' ne h = elim (Bool-cases c.has_specific_timestamp) [
    | inl timed ↦ cc (rw (timed, set_version) at h)
    | inr free ↦
        let (v, e, last) = >>=-ok value.as_ubigint _ c' (rw (free, set_version) at h) in
        let same = ok-injective last in
        let version_set = λ (x : c'.use_specific_version ≡ invalid_index).
          ne (e ∙ ap (λ (n : ℕ). ok n) (ap (λ (k : Catalog). k.use_specific_version) same ∙ x)) in
        (
          record {
            keeps_version = λ old. version_set;
            keeps_timestamp = λ old. cc;
            keeps_read_only = λ old. sym (ap (λ (k : Catalog). k.access_mode) same);
            exclusive = λ x. inr (sym (ap (λ (k : Catalog). k.has_specific_timestamp) same));
          },
          version_set,
          sym (ap (λ (k : Catalog). k.access_mode) same),
        )
  ]

  set_timestamp-Travels :
      (value : OptionValue) (c c' : Catalog)
      → set_timestamp lower get_epoch_ms now_ms value c ≡ ok c'
      → Travels c c' × (c'.has_specific_timestamp ≡ true) × (c'.access_mode ≡ read_only)
  unfolding set_timestamp
  set_timestamp-Travels value c c' h = elim (Bool-cases (c.use_specific_version == invalid_index)) [
    | inr attached ↦ cc (rw (attached, set_timestamp) at h)
    | inl free ↦
        let (t, e, h₁) = >>=-ok value.as_timestamp_tz _ c' (rw (free, set_timestamp) at h) in
        let (ms, e₁, h₂) = >>=-ok (timestamp_to_epoch_ms get_epoch_ms t) _ c' h₁ in
        let (e₂, last) = >>-ok (reject_future_timestamp now_ms ms) _ c' h₂ in
        let same = ok-injective last in
        (
          record {
            keeps_version =
                λ old. absurd (old ((==_iff c.use_specific_version invalid_index).0 free));
            keeps_timestamp = λ old. sym (ap (λ (k : Catalog). k.has_specific_timestamp) same);
            keeps_read_only = λ old. sym (ap (λ (k : Catalog). k.access_mode) same);
            exclusive = λ x. inl (
                sym (ap (λ (k : Catalog). k.use_specific_version) same)
                ∙ (==_iff c.use_specific_version invalid_index).0 free);
          },
          sym (ap (λ (k : Catalog). k.has_specific_timestamp) same),
          sym (ap (λ (k : Catalog). k.access_mode) same),
        )
  ]

  plain-Travels :
      {A : Type 0} (r : Result A) (f : A → Catalog) (c c' : Catalog)
      → ((a : A) → Same c (f a))
      → (r >>= λ a. ok (f a)) ≡ ok c'
      → Travels c c'
  plain-Travels (ok a) f c c' same h = Same-Travels c c' (subst (Same c) (ok-injective h) (same a))
  plain-Travels (err e) f c c' same h = cc

  -- What an option that was accepted leaves.
  Applied : AttachOption → Catalog → Catalog → Type 0
  Applied o c c' =
      Travels c c'
      × (o ≡ version → (c'.use_specific_version ≢ invalid_index) × (c'.access_mode ≡ read_only))
      × (o ≡ timestamp → (c'.has_specific_timestamp ≡ true) × (c'.access_mode ≡ read_only))

  apply_option-Applied :
      (o : AttachOption) (value : OptionValue) (c c' : Catalog)
      → (o ≡ version → value.as_ubigint ≢ ok invalid_index)
      → apply_option lower get_epoch_ms now_ms o value c ≡ ok c'
      → Applied o c c'
  unfolding apply_option Applied Same
  apply_option-Applied pin_snapshot value c c' ne h =
      (plain-Travels value.as_bool _ c c' (λ b. (refl, refl, refl)) h, λ e. cc, λ e. cc)
  apply_option-Applied pushdown_partition_info value c c' ne h =
      (plain-Travels value.as_bool _ c c' (λ b. (refl, refl, refl)) h, λ e. cc, λ e. cc)
  apply_option-Applied pushdown_filters value c c' ne h =
      let (s, e, rest) = >>=-ok value.as_text _ c' h in
      (
        plain-Travels (mode_of_string lower s) _ c c' (λ b. (refl, refl, refl)) rest,
        λ e. cc,
        λ e. cc,
      )
  apply_option-Applied version value c c' ne h =
      let (t, v, r) = set_version-Travels value c c' (ne refl) h in (t, λ e. (v, r), λ e. cc)
  apply_option-Applied timestamp value c c' ne h =
      let (t, v, r) = set_timestamp-Travels value c c' h in (t, λ e. cc, λ e. (v, r))
  apply_option-Applied internal_table_name value c c' ne h =
      (plain-Travels value.as_text _ c c' (λ b. (refl, refl, refl)) h, λ e. cc, λ e. cc)
  apply_option-Applied child_catalog_mode value c c' ne h =
      (plain-Travels value.as_bool _ c c' (λ b. (refl, refl, refl)) h, λ e. cc, λ e. cc)
  apply_option-Applied parent_catalog value c c' ne h =
      (plain-Travels value.as_text _ c c' (λ b. (refl, refl, refl)) h, λ e. cc, λ e. cc)
  apply_option-Applied parent_catalog_schema value c c' ne h =
      (plain-Travels value.as_text _ c c' (λ b. (refl, refl, refl)) h, λ e. cc, λ e. cc)
  apply_option-Applied parent_commit value c c' ne h =
      (plain-Travels value.as_bool _ c c' (λ b. (refl, refl, refl)) h, λ e. cc, λ e. cc)
  apply_option-Applied log_tail value c c' ne h = (
    plain-Travels (ok value) (λ (a : OptionValue). record c { catalog_log_tail = some value }) c c'
        (λ b. (refl, refl, refl)) h,
    λ e. cc,
    λ e. cc,
  )
  apply_option-Applied max_catalog_version value c c' ne h =
      (plain-Travels value.as_bigint _ c c' (λ b. (refl, refl, refl)) h, λ e. cc, λ e. cc)
  apply_option-Applied unity_table_id value c c' ne h =
      (plain-Travels value.as_text _ c c' (λ b. (refl, refl, refl)) h, λ e. cc, λ e. cc)
  apply_option-Applied unrecognized value c c' ne h = cc

  Travels-trans : (c d e : Catalog) → Travels c d → Travels d e → Travels c e
  Travels-trans c d e f g = record {
    keeps_version = λ h. g.keeps_version (f.keeps_version h);
    keeps_timestamp = λ h. g.keeps_timestamp (f.keeps_timestamp h);
    keeps_read_only = λ h. g.keeps_read_only (f.keeps_read_only h);
    exclusive = λ h. g.exclusive (f.exclusive h);
  }

  -- The outcome of the whole loop.
  Outcome : List (Text × OptionValue) → Catalog → Catalog → Type 0
  Outcome options c c' =
      Travels c c'
      × (Given version options
          → (c'.use_specific_version ≢ invalid_index) × (c'.access_mode ≡ read_only))
      × (Given timestamp options
          → (c'.has_specific_timestamp ≡ true) × (c'.access_mode ≡ read_only))

  apply_options-Outcome :
      (options : List (Text × OptionValue)) (c c' : Catalog)
      → All Names options
      → apply_options lower get_epoch_ms now_ms options c ≡ ok c'
      → Outcome options c c'
  unfolding apply_options Applied Outcome Same
  apply_options-Outcome [] c c' names h = (
    Same-Travels c c' (subst (Same c) (ok-injective h) (refl, refl, refl)),
    λ x. absurd x,
    λ x. absurd x,
  )
  apply_options-Outcome ((name, value) ∷ rest) c c' names h =
      let (d, first, last) =
        >>=-ok (apply_option lower get_epoch_ms now_ms (option_of_name name) value c)
          (λ d. apply_options lower get_epoch_ms now_ms rest d) c' h in
      let (t, v, s) = apply_option-Applied (option_of_name name) value c d names.0 first in
      let (t', v', s') = apply_options-Outcome rest d c' names.1 last in
      (
        Travels-trans c d c' t t',
        λ x. elim x [
          | inl here ↦ (t'.keeps_version (v here).0, t'.keeps_read_only (v here).1)
          | inr later ↦ v' later
        ],
        λ x. elim x [
          | inl here ↦ (t'.keeps_timestamp (s here).0, t'.keeps_read_only (s here).1)
          | inr later ↦ s' later
        ],
      )

  -- Whatever the order of the options: from a catalog that names no version yet, an ATTACH that gives
  -- both a version and a timestamp is refused, and one that gives either and succeeds attaches a
  -- read-only catalog. The version 18446744073709551615, which stands for none, is left out.
  pub apply_options-exclusive :
      (options : List (Text × OptionValue)) (c : Catalog)
      → c.use_specific_version ≡ invalid_index
      → All Names options
      → (Given version options
          → Given timestamp options
          → (e : Error) × (apply_options lower get_epoch_ms now_ms options c ≡ err e))
        × ((c' : Catalog)
            → Given version options ⊎ Given timestamp options
            → apply_options lower get_epoch_ms now_ms options c ≡ ok c'
            → c'.access_mode ≡ read_only)
  unfolding Outcome
  apply_options-exclusive options c fresh names = (
    λ given_version given_timestamp.
        elim (Result-cases (apply_options lower get_epoch_ms now_ms options c)) [
          | inr (e, refused) ↦ (e, refused)
          | inl (c', accepted) ↦
              let (t, v, s) = apply_options-Outcome options c c' names accepted in
              absurd (elim (t.exclusive (inl fresh)) [
                | inl no_version ↦ (v given_version).0 no_version
                | inr no_timestamp ↦ cc ((s given_timestamp).0)
              ])
        ],
    λ c' given accepted.
        let (t, v, s) = apply_options-Outcome options c c' names accepted in
        elim given [ inl g ↦ (v g).1 | inr g ↦ (s g).1 ],
  )
