-- ===== src/FileList/Versions.antt =====
-- The version of the snapshot that a file list reads
-- (src/functions/delta_scan/delta_multi_file_list.cpp).
use duckdb_delta.Prelude.{
  ℕ, ◌≡◌, ◌≢◌, refl, ap, sym, ◌∙◌, ◌⊎◌, inl, inr, Bool, true, false, Option, none, some, Result, ok,
  err, and_then, and_then-ok, if◌then◌else◌, ◌==◌, ==_iff, Bool-cases, step-injective, step-throws,
  subst, >>=-ok, >>-ok, ◌>>◌, ◌>>=◌,
}
use duckdb_delta.Kernel.{ℤ}
use duckdb_delta.TimeTravel.{invalid_index, reject_future_timestamp}
use duckdb_delta.FileList.Snapshot.{
  SnapshotKernel, SnapshotList, initialize_snapshot, load_snapshot, fix_unless_loaded, fix_version,
  resolve_timestamp, take_built, check_version, keep_head, resolve_from_head, version_as_of,
  create_snapshot_builder, build_snapshot, rephrase,
}

module _ (K : SnapshotKernel) (now_ms : ℤ) where
  open K use {World}

  abbrev State : Type 0
  State = SnapshotList K now_ms

  -- The list holds a snapshot, and its version is the snapshot's.
  abbrev pub Loaded : State → Type 0
  Loaded s = (built : K.Snapshot) × (s.snapshot ≡ some built) × (s.version ≡ K.version built)

  check_version-Loaded :
      (built : K.Snapshot) (s s' : State)
      → check_version K now_ms built s ≡ (s', ok tt)
      → Loaded s' × (s.version ≢ invalid_index → s'.version ≡ s.version)
  check_version-Loaded built s s' h = elim (Bool-cases (s.version == invalid_index)) [
    | inl head ↦
        let h' = rw (head, check_version) at h in
        (
          (
            built,
            sym (ap (λ (x : State × Result (Unit {0})). x.0.snapshot) h'),
            sym (ap (λ (x : State × Result (Unit {0})). x.0.version) h'),
          ),
          λ ne. absurd (ne ((==_iff s.version invalid_index).0 head)),
        )
    | inr named ↦ elim (Bool-cases (K.version built == s.version)) [
      | inl same ↦
          let h' = rw (named, same, check_version) at h in
          (
            (
              built,
              sym (ap (λ (x : State × Result (Unit {0})). x.0.snapshot) h'),
              sym (ap (λ (x : State × Result (Unit {0})). x.0.version) h')
                  ∙ sym ((==_iff (K.version built) s.version).0 same),
            ),
            λ ne. sym (ap (λ (x : State × Result (Unit {0})). x.0.version) h'),
          )
      | inr other ↦
          cc (ap (λ (x : State × Result (Unit {0})). x.1) (rw (named, other, check_version) at h))
    ]
  ]

  take_built-Loaded :
      (r : Result K.Snapshot) (s s' : State)
      → take_built K now_ms r s ≡ (s', ok tt)
      → Loaded s' × (s.version ≢ invalid_index → s'.version ≡ s.version)
  take_built-Loaded (ok built) s s' h = check_version-Loaded built s s' h
  take_built-Loaded (err e) s s' h = step-throws s s' e tt h

  -- Resolving a timestamp loads no snapshot but the head that the timestamp stands for.
  abbrev HeadOf : Option K.Snapshot → ℕ → State → Type 0
  HeadOf before v s =
      (s.snapshot ≡ before)
      ⊎ ((head : K.Snapshot) × (s.snapshot ≡ some head) × (v ≡ K.version head))

  keep_head-HeadOf :
      (head : K.Snapshot) (r : Result ℕ) (s s' : State) (v : ℕ)
      → keep_head K now_ms head r s ≡ (s', ok v)
      → HeadOf s.snapshot v s'
  keep_head-HeadOf head (err e) s s' v h = step-throws s s' e v h
  keep_head-HeadOf head (ok x) s s' v h = elim (Bool-cases (x == K.version head)) [
    | inl same ↦
        let (kept, found) =
          step-injective (record s { snapshot = some head }) s' x v (rw (same, keep_head) at h) in
        inr (
          head,
          sym (ap (λ (k : State). k.snapshot) kept),
          sym found ∙ (==_iff x (K.version head)).0 same,
        )
    | inr other ↦
        let (kept, found) = step-injective s s' x v (rw (other, keep_head) at h) in
        inl (sym (ap (λ (k : State). k.snapshot) kept))
  ]

  resolve_from_head-HeadOf :
      (w : World) (ms : ℤ) (r : Result K.Snapshot) (s s' : State) (v : ℕ)
      → resolve_from_head K now_ms w ms r s ≡ (s', ok v)
      → HeadOf s.snapshot v s'
  resolve_from_head-HeadOf w ms (ok head) s s' v h =
      keep_head-HeadOf head (version_as_of K now_ms w head ms) s s' v h
  resolve_from_head-HeadOf w ms (err e) s s' v h = step-throws s s' e v h

  -- Before the snapshot is loaded: there is none, or it is the one at the version.
  abbrev Ready : State → Type 0
  Ready s = (s.snapshot ≡ none) ⊎ Loaded s

  fix_version-timed :
      (w : World) (s : State)
      → s.has_requested_timestamp ≡ true
      → fix_version K now_ms w s
        ≡ and_then
            (resolve_timestamp K now_ms w s.requested_timestamp_ms s)
            (λ (s' : State) v. (record s' { version = v }, ok tt))
  unfolding fix_version
  fix_version-timed w s timed =
      ap
        (λ (b : Bool).
          if b
          then and_then (resolve_timestamp K now_ms w s.requested_timestamp_ms s)
              (λ (s' : State) v. (record s' { version = v }, ok tt))
          else (s, ok tt))
        timed

  fix_version-untimed :
      (w : World) (s : State)
      → s.has_requested_timestamp ≡ false
      → fix_version K now_ms w s ≡ (s, ok tt)
  unfolding fix_version
  fix_version-untimed w s untimed =
      ap
        (λ (b : Bool).
          if b
          then and_then (resolve_timestamp K now_ms w s.requested_timestamp_ms s)
              (λ (s' : State) v. (record s' { version = v }, ok tt))
          else (s, ok tt))
        untimed

  fix_version-Ready :
      (w : World) (s s' : State)
      → s.snapshot ≡ none
      → fix_version K now_ms w s ≡ (s', ok tt)
      → Ready s' × (s.has_requested_timestamp ≡ false → s'.version ≡ s.version)
  unfolding fix_version resolve_timestamp
  fix_version-Ready w s s' fresh h = elim (Bool-cases s.has_requested_timestamp) [
    | inl timed ↦
        let (u, v, resolved, last) =
          and_then-ok (resolve_timestamp K now_ms w s.requested_timestamp_ms s)
            (λ (s' : State) v. (record s' { version = v }, ok tt)) s' tt
            (sym (fix_version-timed w s timed) ∙ h) in
        let at = sym (ap (λ (x : State × Result (Unit {0})). x.0.version) last) in
        let held = sym (ap (λ (x : State × Result (Unit {0})). x.0.snapshot) last) in
        (
          elim (resolve_from_head-HeadOf w s.requested_timestamp_ms _ s u v resolved) [
            | inl none_loaded ↦ inl (held ∙ none_loaded ∙ fresh)
            | inr (head, loaded, is_head) ↦ inr (head, held ∙ loaded, at ∙ is_head)
          ],
          λ untimed. cc (sym timed ∙ untimed),
        )
    | inr untimed ↦
        let same = sym (fix_version-untimed w s untimed) ∙ h in
        (
          inl (sym (ap (λ (x : State × Result (Unit {0})). x.0.snapshot) same) ∙ fresh),
          λ e. sym (ap (λ (x : State × Result (Unit {0})). x.0.version) same),
        )
  ]

  load_snapshot-Loaded :
      (w : World) (loaded : Option K.Snapshot) (s s' : State)
      → s.snapshot ≡ loaded
      → Ready s
      → load_snapshot K now_ms w loaded s ≡ (s', ok tt)
      → Loaded s' × (s.version ≢ invalid_index → s'.version ≡ s.version)
  unfolding load_snapshot
  load_snapshot-Loaded w none s s' e ready h = take_built-Loaded _ s s' h
  load_snapshot-Loaded w (some built) s s' e (inl fresh) h = cc (sym fresh ∙ e)
  load_snapshot-Loaded w (some built) s s' e (inr l) h =
      let (kept, done) = step-injective s s' tt tt h in
      (subst Loaded kept l, λ ne. sym (ap (λ (k : State). k.version) kept))

  -- A file list that gets its snapshot, from a version, from a timestamp or at the head, reads one
  -- snapshot and reports that snapshot's version; and if it asked for a version, it is that one.
  pub initialize_snapshot-Loaded :
      (w : World) (s s' : State)
      → s.snapshot ≡ none
      → initialize_snapshot K now_ms w s ≡ (s', ok tt)
      → Loaded s'
        × (s.has_requested_timestamp ≡ false → s.version ≢ invalid_index → s'.version ≡ s.version)
  unfolding initialize_snapshot fix_unless_loaded
  initialize_snapshot-Loaded w s s' fresh h =
      let (s₁, engine, started, h₁) =
        and_then-ok (s, K.create_delta_engine w s.path)
          (λ s₁ engine. and_then (fix_unless_loaded K now_ms w s₁.snapshot s₁) (λ s₂ fixed.
            and_then (load_snapshot K now_ms w s₂.snapshot s₂)
              (λ (s₃ : State) loaded. (record s₃ { initialized_snapshot = true }, ok tt))))
          s' tt h in
      let same = ap (λ (x : State × Result (Unit {0})). x.0) started in
      let fresh₁ = ap (λ (k : State). k.snapshot) (sym same) ∙ fresh in
      let (s₂, fixed, e₂, h₂) =
        and_then-ok (fix_unless_loaded K now_ms w s₁.snapshot s₁)
          (λ s₂ fixed.
            and_then (load_snapshot K now_ms w s₂.snapshot s₂)
              (λ (s₃ : State) loaded. (record s₃ { initialized_snapshot = true }, ok tt)))
          s' tt h₁ in
      let (s₃, loaded, e₃, h₃) =
        and_then-ok (load_snapshot K now_ms w s₂.snapshot s₂)
          (λ (s₃ : State) loaded. (record s₃ { initialized_snapshot = true }, ok tt)) s' tt h₂ in
      let (ready, untimed) =
        fix_version-Ready w s₁ s₂ fresh₁
          (sym (ap (λ (x : Option K.Snapshot). fix_unless_loaded K now_ms w x s₁) fresh₁) ∙ e₂) in
      let ((built, held, at), named) = load_snapshot-Loaded w s₂.snapshot s₂ s₃ refl ready e₃ in
      let last = sym (ap (λ (x : State × Result (Unit {0})). x.0.version) h₃) in
      (
        (built, sym (ap (λ (x : State × Result (Unit {0})). x.0.snapshot) h₃) ∙ held, last ∙ at),
        λ no_timestamp ne.
            let kept =
              untimed (ap (λ (k : State). k.has_requested_timestamp) (sym same) ∙ no_timestamp)
              ∙ ap (λ (k : State). k.version) (sym same) in
            last ∙ named (λ invalid. ne (sym kept ∙ invalid)) ∙ kept,
      )

  -- A version that a timestamp stands for: the log's version at it, as the head of the table that the
  -- list opens tells. The timestamp is not in the future.
  pub record ResolvedAt (w : World) (ms : ℤ) (s : State) (v : ℕ) : Type 0 where
    pub builder : K.Builder
    pub at_head : create_snapshot_builder K now_ms w invalid_index s ≡ ok builder
    pub head : K.Snapshot
    pub built : K.build w builder ≡ ok head
    pub not_future : reject_future_timestamp now_ms ms ≡ ok tt
    pub named : K.latest_version_as_of w head ms ≡ ok v

  rephrase-ok :
      (r : Result K.Snapshot) (head : K.Snapshot) → rephrase K now_ms r ≡ ok head → r ≡ ok head
  unfolding rephrase
  rephrase-ok (ok built) head h = h
  rephrase-ok (err e) head h = cc

  keep_head-resolved :
      (head : K.Snapshot) (r : Result ℕ) (s s' : State) (v : ℕ)
      → keep_head K now_ms head r s ≡ (s', ok v)
      → r ≡ ok v
  keep_head-resolved head (err e) s s' v h = step-throws s s' e v h
  keep_head-resolved head (ok x) s s' v h = ap (λ (p : State × Result ℕ). p.1) h

  resolve_from_head-resolved :
      (w : World) (ms : ℤ) (r : Result K.Snapshot) (s s' : State) (v : ℕ)
      → resolve_from_head K now_ms w ms r s ≡ (s', ok v)
      → (head : K.Snapshot) × (r ≡ ok head) × (version_as_of K now_ms w head ms ≡ ok v)
  resolve_from_head-resolved w ms (ok head) s s' v h =
      (head, refl, keep_head-resolved head (version_as_of K now_ms w head ms) s s' v h)
  resolve_from_head-resolved w ms (err e) s s' v h = step-throws s s' e v h

  resolve_timestamp-ResolvedAt :
      (w : World) (ms : ℤ) (s s' : State) (v : ℕ)
      → resolve_timestamp K now_ms w ms s ≡ (s', ok v)
      → ResolvedAt w ms s v
  unfolding resolve_timestamp build_snapshot version_as_of
  resolve_timestamp-ResolvedAt w ms s s' v h =
      let (head, opened, read) =
        resolve_from_head-resolved w ms
          (reject_future_timestamp now_ms ms
            >> (create_snapshot_builder K now_ms w invalid_index s >>= build_snapshot K now_ms w))
          s s' v h in
      let (past, found) =
        >>-ok (reject_future_timestamp now_ms ms)
          (create_snapshot_builder K now_ms w invalid_index s >>= build_snapshot K now_ms w) head
          opened in
      let (builder, at_head, built) =
        >>=-ok (create_snapshot_builder K now_ms w invalid_index s) (build_snapshot K now_ms w) head
          found in
      let (again, named) =
        >>-ok (reject_future_timestamp now_ms ms) (K.latest_version_as_of w head ms) v read in
      record {
        builder = builder;
        at_head = at_head;
        head = head;
        built = rephrase-ok (K.build w builder) head built;
        not_future = past;
        named = named;
      }

  fix_version-ResolvedAt :
      (w : World) (s s' : State)
      → s.has_requested_timestamp ≡ true
      → fix_version K now_ms w s ≡ (s', ok tt)
      → ResolvedAt w s.requested_timestamp_ms s s'.version
  fix_version-ResolvedAt w s s' timed h =
      let (u, v, resolved, last) =
        and_then-ok (resolve_timestamp K now_ms w s.requested_timestamp_ms s)
          (λ (s' : State) v. (record s' { version = v }, ok tt)) s' tt
          (sym (fix_version-timed w s timed) ∙ h) in
      subst (ResolvedAt w s.requested_timestamp_ms s)
        (ap (λ (x : State × Result (Unit {0})). x.0.version) last)
        (resolve_timestamp-ResolvedAt w s.requested_timestamp_ms s u v resolved)

  -- A file list that asked for a timestamp and gets its snapshot reports the version that the log
  -- resolves the timestamp to.
  pub initialize_snapshot-ResolvedAt :
      (w : World) (s s' : State)
      → s.snapshot ≡ none
      → s.has_requested_timestamp ≡ true
      → initialize_snapshot K now_ms w s ≡ (s', ok tt)
      → (v : ℕ) × ResolvedAt w s.requested_timestamp_ms s v × (v ≢ invalid_index → s'.version ≡ v)
  unfolding initialize_snapshot fix_unless_loaded
  initialize_snapshot-ResolvedAt w s s' fresh timed h =
      let (s₁, engine, started, h₁) =
        and_then-ok (s, K.create_delta_engine w s.path)
          (λ s₁ engine. and_then (fix_unless_loaded K now_ms w s₁.snapshot s₁) (λ s₂ fixed.
            and_then (load_snapshot K now_ms w s₂.snapshot s₂)
              (λ (s₃ : State) loaded. (record s₃ { initialized_snapshot = true }, ok tt))))
          s' tt h in
      let same = ap (λ (x : State × Result (Unit {0})). x.0) started in
      let fresh₁ = ap (λ (k : State). k.snapshot) (sym same) ∙ fresh in
      let (s₂, fixed, e₂, h₂) =
        and_then-ok (fix_unless_loaded K now_ms w s₁.snapshot s₁)
          (λ s₂ fixed.
            and_then (load_snapshot K now_ms w s₂.snapshot s₂)
              (λ (s₃ : State) loaded. (record s₃ { initialized_snapshot = true }, ok tt)))
          s' tt h₁ in
      let (s₃, loaded, e₃, h₃) =
        and_then-ok (load_snapshot K now_ms w s₂.snapshot s₂)
          (λ (s₃ : State) loaded. (record s₃ { initialized_snapshot = true }, ok tt)) s' tt h₂ in
      let fixing =
        sym (ap (λ (x : Option K.Snapshot). fix_unless_loaded K now_ms w x s₁) fresh₁) ∙ e₂ in
      let (ready, untimed) = fix_version-Ready w s₁ s₂ fresh₁ fixing in
      let (holds, named) = load_snapshot-Loaded w s₂.snapshot s₂ s₃ refl ready e₃ in
      (
        s₂.version,
        subst (λ (k : State). ResolvedAt w k.requested_timestamp_ms k s₂.version) (sym same)
            (fix_version-ResolvedAt w s₁ s₂
              (ap (λ (k : State). k.has_requested_timestamp) (sym same) ∙ timed) fixing),
        λ ne. sym (ap (λ (x : State × Result (Unit {0})). x.0.version) h₃) ∙ named ne,
      )
