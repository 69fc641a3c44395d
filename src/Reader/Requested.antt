-- ===== src/Reader/Requested.antt =====
-- The version that the options of `delta_scan` ask for
-- (src/functions/delta_scan/delta_multi_file_reader.cpp).
use mathlib.Core.Option.{some-injective}
use duckdb_delta.Prelude.{
  ℕ, ◌≡◌, ◌≢◌, refl, ap, sym, ◌∙◌, ◌⊎◌, inl, inr, Bool, true, false, Option, none, some, List, [],
  ◌∷◌, Result, ok, err, and_then, and_then-ok, ok-injective, step-throws, >>=-ok, ◌>>=◌,
}
use duckdb_delta.Prelude.Bytes.{Text}
use duckdb_delta.Kernel.{ℤ}
use duckdb_delta.TimeTravel.{
  invalid_index, DeltaTimeTravelSpec, Timestamp, timestamp_to_epoch_ms, latest, from_version,
  from_timestamp,
}
use duckdb_delta.FileList.Snapshot.{
  SnapshotKernel, SnapshotList, pin, pin_timestamp, initialize_snapshot,
}
use duckdb_delta.FileList.Versions.{
  Loaded, ResolvedAt, initialize_snapshot-Loaded, initialize_snapshot-ResolvedAt,
}
use duckdb_delta.Reader.Options.{
  ScanOption, Value, option_of_key, ScanOptions, require_latest, set_requested, parse_scan_option,
  parse_option, parse_options, new_list, pin_requested, set_log_tail, set_max_catalog_version,
  bind_requested,
}

module _ (K : SnapshotKernel) (now_ms : ℤ) (identifier_eq : Text → Text → Bool) where
  open K use {World}

  abbrev Options : Type 0
  Options = ScanOptions K now_ms identifier_eq

  abbrev State : Type 0
  State = SnapshotList K now_ms

  -- What an option asks for, if it is one of the two.
  abbrev pub asked : ScanOption → Value K now_ms identifier_eq → Option (Result DeltaTimeTravelSpec)
  asked ScanOption.version value = some (value.as_ubigint >>= λ v. ok (from_version v))
  asked ScanOption.timestamp value = some (value.as_timestamp_tz >>= λ t. ok (from_timestamp t))
  asked ScanOption.pushdown_partition_info value = none
  asked ScanOption.pushdown_filters value = none
  asked ScanOption.log_tail value = none
  asked ScanOption.max_catalog_version value = none
  asked ScanOption.of_core value = none

  -- None of the options asks for a version or a timestamp.
  abbrev pub AsksNothing : List (Text × Value K now_ms identifier_eq) → Type 0
  AsksNothing [] = Unit {0}
  AsksNothing ((key, value) ∷ rest) =
      (asked (option_of_key K now_ms identifier_eq key) value ≡ none) × AsksNothing rest

  -- Just one of them does, for this.
  abbrev pub AsksOnce : List (Text × Value K now_ms identifier_eq) → DeltaTimeTravelSpec → Type 0
  AsksOnce [] spec = ⊥
  AsksOnce ((key, value) ∷ rest) spec =
      ((asked (option_of_key K now_ms identifier_eq key) value ≡ none) × AsksOnce rest spec)
      ⊎ ((asked (option_of_key K now_ms identifier_eq key) value ≡ some (ok spec))
          × AsksNothing rest)

  -- One option: it asks for nothing and leaves `requested`, or nothing was requested before.
  abbrev Parsed : Option (Result DeltaTimeTravelSpec) → Options → Options → Type 0
  Parsed a s s' =
      ((a ≡ none) × (s'.requested ≡ s.requested))
      ⊎ ((spec : DeltaTimeTravelSpec) × (a ≡ some (ok spec))
          × (s.requested ≡ latest)
          × (s'.requested ≡ spec))

  require_latest-ok :
      (now : DeltaTimeTravelSpec) (r : Result DeltaTimeTravelSpec) (spec : DeltaTimeTravelSpec)
      → require_latest K now_ms identifier_eq now r ≡ ok spec
      → (now ≡ latest) × (r ≡ ok spec)
  require_latest-ok latest r spec h = (refl, h)
  require_latest-ok (from_version v) r spec h = cc
  require_latest-ok (from_timestamp t) r spec h = cc

  set_requested-Parsed :
      (s s' : Options) (known : Bool) (r : Result DeltaTimeTravelSpec)
      → set_requested K now_ms identifier_eq s r ≡ ok (s', known)
      → Parsed (some r) s s'
  set_requested-Parsed s s' known r h =
      let (spec, e, last) =
        >>=-ok (require_latest K now_ms identifier_eq s.requested r)
          (λ named. ok (record s { requested = named }, true)) (s', known) h in
      let (was_latest, named) = require_latest-ok s.requested r spec e in
      inr (
        spec,
        ap (λ (x : Result DeltaTimeTravelSpec). some x) named,
        was_latest,
        sym (ap (λ (x : Options × Bool). x.0.requested) (ok-injective last)),
      )

  parse_scan_option-Parsed :
      (o : ScanOption) (core : Result Bool) (value : Value K now_ms identifier_eq) (s s' : Options)
      (known : Bool)
      → parse_scan_option K now_ms identifier_eq o core value s ≡ ok (s', known)
      → Parsed (asked o value) s s'
  unfolding parse_scan_option
  parse_scan_option-Parsed ScanOption.version core value s s' known h =
      set_requested-Parsed s s' known _ h
  parse_scan_option-Parsed ScanOption.timestamp core value s s' known h =
      set_requested-Parsed s s' known _ h
  parse_scan_option-Parsed ScanOption.pushdown_partition_info core value s s' known h =
      inl (refl, sym (ap (λ (x : Options × Bool). x.0.requested) (ok-injective h)))
  parse_scan_option-Parsed ScanOption.pushdown_filters core value s s' known h =
      inl (refl, sym (ap (λ (x : Options × Bool). x.0.requested) (ok-injective h)))
  parse_scan_option-Parsed ScanOption.log_tail core value s s' known h =
      inl (refl, sym (ap (λ (x : Options × Bool). x.0.requested) (ok-injective h)))
  parse_scan_option-Parsed ScanOption.max_catalog_version core value s s' known h =
      inl (refl, sym (ap (λ (x : Options × Bool). x.0.requested) (ok-injective h)))
  parse_scan_option-Parsed ScanOption.of_core core value s s' known h =
      let (b, e, last) = >>=-ok core (λ known. ok (s, known)) (s', known) h in
      inl (refl, sym (ap (λ (x : Options × Bool). x.0.requested) (ok-injective last)))

  -- What is asked for is never the latest version by name.
  asked-ne-latest :
      (o : ScanOption) (value : Value K now_ms identifier_eq) (spec : DeltaTimeTravelSpec)
      → asked o value ≡ some (ok spec)
      → spec ≢ latest
  asked-ne-latest ScanOption.version value spec h is_latest =
      let (v, e, last) =
        >>=-ok value.as_ubigint (λ v. ok (from_version v)) spec (some-injective _ _ h) in
      cc (ok-injective last ∙ is_latest)
  asked-ne-latest ScanOption.timestamp value spec h is_latest =
      let (t, e, last) =
        >>=-ok value.as_timestamp_tz (λ t. ok (from_timestamp t)) spec (some-injective _ _ h) in
      cc (ok-injective last ∙ is_latest)
  asked-ne-latest ScanOption.pushdown_partition_info value spec h is_latest = cc
  asked-ne-latest ScanOption.pushdown_filters value spec h is_latest = cc
  asked-ne-latest ScanOption.log_tail value spec h is_latest = cc
  asked-ne-latest ScanOption.max_catalog_version value spec h is_latest = cc
  asked-ne-latest ScanOption.of_core value spec h is_latest = cc

  -- From a reader that nothing was requested of: nothing is asked for and the latest is read, or just
  -- one option asks, and that is what is requested. After a request no other passes.
  parse_options-asked :
      (core : Text → Value K now_ms identifier_eq → Result Bool)
      (options : List (Text × Value K now_ms identifier_eq)) (s s' : Options)
      → parse_options K now_ms identifier_eq core options s ≡ ok s'
      → (AsksNothing options × (s'.requested ≡ s.requested))
        ⊎ ((s.requested ≡ latest) × AsksOnce options s'.requested)
  unfolding parse_options parse_option
  parse_options-asked core [] s s' h =
      inl (tt, sym (ap (λ (x : Options). x.requested) (ok-injective h)))
  parse_options-asked core ((key, value) ∷ rest) s s' h =
      let o = option_of_key K now_ms identifier_eq key in
      let ((s₁, known), e, later) =
        >>=-ok (parse_scan_option K now_ms identifier_eq o (core key value) value s)
          (λ parsed. parse_options K now_ms identifier_eq core rest parsed.0) s' h in
      joined key value rest s s₁ s' (parse_scan_option-Parsed o (core key value) value s s₁ known e)
        (parse_options-asked core rest s₁ s' later)
    where
      joined :
          (key : Text) (value : Value K now_ms identifier_eq)
          (rest : List (Text × Value K now_ms identifier_eq)) (s s₁ s' : Options)
          → Parsed (asked (option_of_key K now_ms identifier_eq key) value) s s₁
          → (AsksNothing rest × (s'.requested ≡ s₁.requested))
            ⊎ ((s₁.requested ≡ latest) × AsksOnce rest s'.requested)
          → (AsksNothing ((key, value) ∷ rest) × (s'.requested ≡ s.requested))
            ⊎ ((s.requested ≡ latest) × AsksOnce ((key, value) ∷ rest) s'.requested)
      joined key value rest s s₁ s' (inl (none_here, same)) (inl (none_later, kept)) =
          inl ((none_here, none_later), kept ∙ same)
      joined key value rest s s₁ s' (inl (none_here, same)) (inr (was_latest, once)) =
          inr (sym same ∙ was_latest, inl (none_here, once))
      joined key value rest s s₁ s' (inr (spec, here, was_latest, now)) (inl (none_later, kept)) =
          inr (
            was_latest,
            inr (
              here ∙ ap (λ (x : DeltaTimeTravelSpec). some (ok x)) (sym (kept ∙ now)),
              none_later,
            ),
          )
      joined key value rest s s₁ s' (inr (spec, here, was_latest, now)) (inr (again, once)) =
          absurd (
            asked-ne-latest (option_of_key K now_ms identifier_eq key) value spec here
              (sym now ∙ again))

  -- What the rest of the bind leaves alone.
  abbrev coordinates : State → ℕ × Bool × Option K.Snapshot × ℤ
  coordinates s = (s.version, s.has_requested_timestamp, s.snapshot, s.requested_timestamp_ms)

  abbrev Done : Type 0
  Done = State × Result (Unit {0})

  set_log_tail-coordinates :
      (o : Option (Value K now_ms identifier_eq)) (s s' : State)
      → set_log_tail K now_ms identifier_eq o s ≡ (s', ok tt)
      → coordinates s' ≡ coordinates s
  set_log_tail-coordinates none s s' h = sym (ap (λ (x : Done). coordinates x.0) h)
  set_log_tail-coordinates (some value) s s' h =
      let (s₁, tail, e, last) =
        and_then-ok (s, value.as_log_tail)
          (λ (s₁ : State) tail. (record s₁ { delta_log_path = some tail }, ok tt)) s' tt h in
      sym (ap (λ (x : Done). coordinates x.0) last)
      ∙ sym (ap (λ (x : State × Result K.LogTail). coordinates x.0) e)

  set_max_catalog_version-coordinates :
      (o : Option (Value K now_ms identifier_eq)) (s s' : State)
      → set_max_catalog_version K now_ms identifier_eq o s ≡ (s', ok tt)
      → coordinates s' ≡ coordinates s
  set_max_catalog_version-coordinates none s s' h = sym (ap (λ (x : Done). coordinates x.0) h)
  set_max_catalog_version-coordinates (some value) s s' h =
      let (s₁, v, e, last) =
        and_then-ok (s, value.as_bigint)
          (λ (s₁ : State) v. (record s₁ { max_catalog_version = v }, ok tt)) s' tt h in
      sym (ap (λ (x : Done). coordinates x.0) last)
      ∙ sym (ap (λ (x : State × Result ℤ). coordinates x.0) e)

  -- The pin of a new list.
  abbrev Pinned : (ℤ → ℤ) → DeltaTimeTravelSpec → State → Type 0
  Pinned get_epoch_ms spec s =
      (s.snapshot ≡ none)
      × ((v : ℕ) → spec ≡ from_version v → (s.version ≡ v) × (s.has_requested_timestamp ≡ false))
      × ((t : Timestamp)
          → spec ≡ from_timestamp t
          → (timestamp_to_epoch_ms get_epoch_ms t ≡ ok s.requested_timestamp_ms)
            × (s.has_requested_timestamp ≡ true))

  from_version-injective : (u v : ℕ) → from_version u ≡ from_version v → u ≡ v
  from_version-injective u v e = cc

  from_timestamp-injective : (t u : Timestamp) → from_timestamp t ≡ from_timestamp u → t ≡ u
  from_timestamp-injective t u e = cc

  pin_timestamp-Pinned :
      (r : Result ℤ) (s s' : State)
      → pin_timestamp K now_ms r s ≡ (s', ok tt)
      → (s'.snapshot ≡ s.snapshot)
        × (r ≡ ok s'.requested_timestamp_ms)
        × (s'.has_requested_timestamp ≡ true)
  pin_timestamp-Pinned (ok ms) s s' h = (
    sym (ap (λ (x : Done). x.0.snapshot) h),
    ap (λ (x : Done). ok x.0.requested_timestamp_ms) h,
    sym (ap (λ (x : Done). x.0.has_requested_timestamp) h),
  )
  pin_timestamp-Pinned (err e) s s' h = step-throws _ s' e tt h

  pin_requested-Pinned :
      (get_epoch_ms : ℤ → ℤ) (spec : DeltaTimeTravelSpec) (path : Text) (s : State)
      → pin_requested K now_ms identifier_eq get_epoch_ms spec
          (new_list K now_ms identifier_eq path)
        ≡ (s, ok tt)
      → Pinned get_epoch_ms spec s
  unfolding pin
  pin_requested-Pinned get_epoch_ms latest path s h =
      (sym (ap (λ (x : Done). x.0.snapshot) h), λ v e. cc e, λ t e. cc e)
  pin_requested-Pinned get_epoch_ms (from_version u) path s h = (
    sym (ap (λ (x : Done). x.0.snapshot) h),
    λ v e. (
      sym (ap (λ (x : Done). x.0.version) h) ∙ from_version-injective u v e,
      sym (ap (λ (x : Done). x.0.has_requested_timestamp) h),
    ),
    λ t e. cc e,
  )
  pin_requested-Pinned get_epoch_ms (from_timestamp u) path s h =
      let (held, at, timed) =
        pin_timestamp-Pinned (timestamp_to_epoch_ms get_epoch_ms u)
          (new_list K now_ms identifier_eq path) s h in
      (
        held,
        λ v e. cc e,
        λ t e. (
          ap (timestamp_to_epoch_ms get_epoch_ms) (sym (from_timestamp-injective u t e)) ∙ at,
          timed,
        ),
      )

  -- A scan by path whose options are taken in, and whose list gets its snapshot: at most one option
  -- asks for a version or a timestamp, and it is the one requested; the list reads one snapshot and
  -- reports that snapshot's version; if a version is asked for, it is that one; and if a timestamp is
  -- asked for, it is the one that the log has for the timestamp, in milliseconds, at the head of the
  -- table. The largest number of 64 bits, which stands for no version, is left out.
  pub bind_requested-Loaded :
      (core : Text → Value K now_ms identifier_eq → Result Bool) (get_epoch_ms : ℤ → ℤ)
      (options : List (Text × Value K now_ms identifier_eq)) (path : Text) (w : World)
      (fresh parsed : Options) (s s' : State)
      → fresh.requested ≡ latest
      → parse_options K now_ms identifier_eq core options fresh ≡ ok parsed
      → bind_requested K now_ms identifier_eq get_epoch_ms false parsed
          (new_list K now_ms identifier_eq path)
        ≡ (s, ok tt)
      → initialize_snapshot K now_ms w s ≡ (s', ok tt)
      → ((AsksNothing options × (parsed.requested ≡ latest)) ⊎ AsksOnce options parsed.requested)
        × Loaded K now_ms s'
        × ((v : ℕ) → parsed.requested ≡ from_version v → v ≢ invalid_index → s'.version ≡ v)
        × ((t : Timestamp)
            → parsed.requested ≡ from_timestamp t
            → (ms : ℤ) × (v : ℕ) × (timestamp_to_epoch_ms get_epoch_ms t ≡ ok ms)
              × ResolvedAt K now_ms w ms s v
              × (v ≢ invalid_index → s'.version ≡ v))
  unfolding bind_requested
  bind_requested-Loaded core get_epoch_ms options path w fresh parsed s s' unasked p b i =
      let (s₁, pinned, e₁, h₁) =
        and_then-ok
          (pin_requested K now_ms identifier_eq get_epoch_ms parsed.requested
            (new_list K now_ms identifier_eq path))
          (λ s₁ pinned.
            and_then (set_log_tail K now_ms identifier_eq parsed.log_tail_option s₁) (λ s₂ tail.
              set_max_catalog_version K now_ms identifier_eq parsed.max_catalog_version_option s₂))
          s tt b in
      let (s₂, tail, e₂, h₂) =
        and_then-ok (set_log_tail K now_ms identifier_eq parsed.log_tail_option s₁)
          (λ s₂ tail.
            set_max_catalog_version K now_ms identifier_eq parsed.max_catalog_version_option s₂)
          s tt h₁ in
      let same =
        set_max_catalog_version-coordinates parsed.max_catalog_version_option s₂ s h₂
        ∙ set_log_tail-coordinates parsed.log_tail_option s₁ s₂ e₂ in
      let (none_loaded, at, in_time) =
        pin_requested-Pinned get_epoch_ms parsed.requested path s₁ e₁ in
      let (loaded, kept) =
        initialize_snapshot-Loaded K now_ms w s s'
          (ap (λ (x : ℕ × Bool × Option K.Snapshot × ℤ). x.2) same ∙ none_loaded) i in
      (
        elim (parse_options-asked core options fresh parsed p) [
          | inl (nothing_asked, latest_kept) ↦ inl (nothing_asked, latest_kept ∙ unasked)
          | inr (was_latest, once) ↦ inr once
        ],
        loaded,
        λ v asked ne.
            let (is_v, untimed) = at v asked in
            let now = ap (λ (x : ℕ × Bool × Option K.Snapshot × ℤ). x.0) same ∙ is_v in
            kept (ap (λ (x : ℕ × Bool × Option K.Snapshot × ℤ). x.1) same ∙ untimed)
              (λ invalid. ne (sym now ∙ invalid))
            ∙ now,
        λ t asked.
            let (is_ms, timed) = in_time t asked in
            let (v, resolved, reads) =
              initialize_snapshot-ResolvedAt K now_ms w s s'
                (ap (λ (x : ℕ × Bool × Option K.Snapshot × ℤ). x.2) same ∙ none_loaded)
                (ap (λ (x : ℕ × Bool × Option K.Snapshot × ℤ). x.1) same ∙ timed) i in
            (
              s.requested_timestamp_ms,
              v,
              is_ms ∙ ap (λ (x : ℕ × Bool × Option K.Snapshot × ℤ). ok x.3) (sym same),
              resolved,
              reads,
            ),
      )
