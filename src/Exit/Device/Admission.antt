-- ===== src/Exit/Device/Admission.antt =====
-- Devices name rule sets: what `validate_admission` of crates/rf/src/exit.rs asks for these references.
use randall_flare.Prelude.{
  ℕ, ◌≡◌, refl, ap, ◌∙◌, subst, inl, inr, Option, some, Bool, true, false, not, ◌&&◌, ◌||◌, List,
  All, [], ◌∷◌, any, arith, Bool-cases, Option-cases, ◌↔◌, if◌then◌else◌,
}
use randall_flare.Prelude.Order.{Bytes, cmp_bytes, bytes_ord, is_eq}
use randall_flare.Prelude.Members.{In, All-In}
use randall_flare.Prelude.Result.{ok, bind_ok, guard_ok, Result-cases}
use randall_flare.Prelude.SortBy.{sort_by-In, In-sort_by}
use randall_flare.Identity.{Crypto}
use randall_flare.Resource.{Json, ResourceRecord, ResourceView}
use randall_flare.Access.{Convert}
use randall_flare.Exit.Errors.{ExitError}
use randall_flare.Exit.Spec.{ExitRuleSpec}
use randall_flare.Exit.Classify.{refuse_if}
use randall_flare.Exit.DeviceSpec.{DeviceSpec, DeviceView, Heads, exit_rule_kind, device_kind}
use randall_flare.Exit.Device.{
  exit_rule_spec, device_spec, is_kept, validate_device_rules, view_of, collect_devices,
  device_views, validate_admission,
}

other_kind : is_eq device_kind exit_rule_kind ≡ false
unfolding cmp_bytes
other_kind = refl

any-In :
    {A : Type 0} (p : A → Bool) (x : A) (xs : List A) → any p xs ≡ false → In x xs → p x ≡ false
unfolding any
any-In p x [] h i = absurd i
any-In p x (y ∷ ys) h (inl e) = ap p e ∙ ground (arith, h)
any-In p x (y ∷ ys) h (inr i) = any-In p x ys (ground (arith, h)) i

any_some :
    {A : Type 0} (p : A → Bool) (xs : List A) → any p xs ≡ true → (x : A) × In x xs × (p x ≡ true)
unfolding any
any_some p [] h = absurd (ground (arith, h))
any_some p (x ∷ xs) h = elim (Bool-cases (p x)) [
  | inl e ↦ (x, inl refl, e)
  | inr e ↦ let (y, i, f) = any_some p xs (ground (arith, h, e)) in (y, inr i, f)
]

none_any :
    {A : Type 0} (p : A → Bool) (xs : List A)
    → ((x : A) → In x xs → p x ≡ true → ⊥)
    → any p xs ≡ false
none_any p xs h = elim (Bool-cases (any p xs)) [
  | inr e ↦ e
  | inl e ↦ let (x, i, f) = any_some p xs e in absurd (h x i f)
]

device_kinds :
    (kind : Bytes)
    → kind ≡ device_kind
    → (is_eq kind exit_rule_kind ≡ false) × (is_eq kind device_kind ≡ true)
device_kinds kind k = (
  ap (λ k. is_eq k exit_rule_kind) k ∙ other_kind,
  ground (arith, k, bytes_ord.cmp_self device_kind),
)

pub if_same : {A : Type 0} (b : Bool) (P : A → Type 0) (x : A) → P (if b then x else x) → P x
if_same true P x h = h
if_same false P x h = h

else_in :
    {A : Type 0} (b : Bool) (P : A → Type 0) (x y : A) → b ≡ false → P (if b then x else y) → P y
else_in true P x y e h = absurd (cc)
else_in false P x y e h = h

then_case :
    {A : Type 0} (b : Bool) (P : A → Type 0) (x y : A) → b ≡ true → P (if b then x else y) → P x
then_case true P x y e h = h
then_case false P x y e h = absurd (cc)

if_both : {A : Type 0} (b : Bool) (x y : A) → b ≡ true → (if b then x else y) ≡ x
if_both true x y e = refl
if_both false x y e = absurd (cc)

else_case : {A : Type 0} (b : Bool) (x y z : A) → b ≡ false → (if b then x else y) ≡ z → y ≡ z
else_case true x y z h e = absurd (cc)
else_case false x y z h e = e

module _ {V : Type 0} (json : Json V) (c : Crypto) (fuel : ℕ) (rules : Convert V ExitRuleSpec)
    (devices : Convert V DeviceSpec) where
  device_spec_kind :
      (r : ResourceRecord) (s : DeviceSpec)
      → device_spec json c fuel rules devices r ≡ ok s
      → (is_eq r.kind device_kind ≡ true) × (r.deleted ≡ false)
  unfolding device_spec
  device_spec_kind r s h =
      let (_, g, _) =
        bind_ok (refuse_if (not (is_eq r.kind device_kind) || r.deleted) ExitError.not_a_device) _ s
          h in
      let (e, _) =
        guard_ok (not (is_eq r.kind device_kind) || r.deleted) ExitError.not_a_device (ok tt) tt
          g in
      (ground (arith, e), ground (arith, e))

  pub validate_device_rules-All :
      (h : Heads) (names : List Bytes)
      → validate_device_rules json c fuel rules devices h names ≡ ok tt
      → All (λ n. is_kept json c fuel rules devices h n ≡ true) names
  unfolding validate_device_rules
  validate_device_rules-All h [] e = tt
  validate_device_rules-All h (n ∷ ns) e =
      elim (Bool-cases (is_kept json c fuel rules devices h n)) [
        | inl k ↦ (k, validate_device_rules-All h ns (rw (k, validate_device_rules) at e))
        | inr k ↦ absurd (let z = rw (k, validate_device_rules) at e in cc)
      ]

  collect_devices-In :
      (h : Heads) (now_ms : ℕ) (last_used : Bytes → Option ℕ) (w : ResourceView) (s : DeviceSpec)
      (vs : List ResourceView)
      → In w vs
      → device_spec json c fuel rules devices w.resource ≡ ok s
      → In
          (view_of json c fuel rules devices h now_ms last_used w s)
          (collect_devices json c fuel rules devices h now_ms last_used vs)
  unfolding collect_devices
  collect_devices-In h now_ms last_used w s [] i e = absurd i
  collect_devices-In h now_ms last_used w s (v ∷ vs) (inl i) e =
      let here =
        subst (λ (x : ResourceView). device_spec json c fuel rules devices x.resource ≡ ok s) i e in
      let kept = (device_spec_kind v.resource s here).1 in
      rw (collect_devices, here, kept)
        (inl (ap (λ x. view_of json c fuel rules devices h now_ms last_used x s) i))
  collect_devices-In h now_ms last_used w s (v ∷ vs) (inr i) e =
      let rest = collect_devices-In h now_ms last_used w s vs i e in ground (arith, rest)

  admitted_rule :
      (h : Heads) (now_ms : ℕ) (last_used : Bytes → Option ℕ) (r : ResourceRecord)
      → r.kind ≡ exit_rule_kind
      → r.deleted ≡ false
      → validate_admission json c fuel rules devices h now_ms last_used r ≡ ok tt
      → (s : ExitRuleSpec) × (exit_rule_spec json c fuel rules devices r ≡ ok s)
  unfolding validate_admission
  admitted_rule h now_ms last_used r k d e =
      let same : is_eq r.kind exit_rule_kind ≡ true =
        ground (arith, k, bytes_ord.cmp_self exit_rule_kind) in
      let (s, found, _) =
        bind_ok (exit_rule_spec json c fuel rules devices r) (λ _. ok tt) tt
          (else_case r.deleted _ _ _ d (rw (same, validate_admission) at e)) in
      (s, found)

  admitted_removal :
      (h : Heads) (now_ms : ℕ) (last_used : Bytes → Option ℕ) (r : ResourceRecord)
      → r.kind ≡ exit_rule_kind
      → r.deleted ≡ true
      → validate_admission json c fuel rules devices h now_ms last_used r ≡ ok tt
      → any
          (λ (d : DeviceView). any (λ name. is_eq name r.name) d.allowed_rules)
          (device_views json c fuel rules devices h now_ms last_used)
        ≡ false
  unfolding validate_admission
  admitted_removal h now_ms last_used r k d e =
      let same : is_eq r.kind exit_rule_kind ≡ true =
        ground (arith, k, bytes_ord.cmp_self exit_rule_kind) in
      (guard_ok _ ExitError.rule_in_use (ok tt) tt (rw (same, validate_admission, d) at e)).0

  -- A rule set that a device may name: there, and valid.
  abbrev pub IsThere : Heads → Bytes → Type 0
  IsThere h n =
      (v : ResourceView) × (h.head_of exit_rule_kind n ≡ some v)
      × (s : ExitRuleSpec) × (exit_rule_spec json c fuel rules devices v.resource ≡ ok s)

  -- What a node has to hold for a record: a rule set is valid; the removal of one leaves no listed device
  -- that names it; a device is valid and names rule sets that are there.
  abbrev pub IsAdmissible : Heads → ResourceRecord → Type 0
  IsAdmissible h r =
      (r.kind ≡ exit_rule_kind
        → r.deleted ≡ false
        → (s : ExitRuleSpec) × (exit_rule_spec json c fuel rules devices r ≡ ok s))
      × (r.kind ≡ exit_rule_kind
          → r.deleted ≡ true
          → (w : ResourceView) (s : DeviceSpec) → In w (h.heads_of device_kind)
          → device_spec json c fuel rules devices w.resource ≡ ok s
          → In r.name s.allowed_rules
          → ⊥)
      × (r.kind ≡ device_kind
          → r.deleted ≡ false
          → (s : DeviceSpec) × (device_spec json c fuel rules devices r ≡ ok s)
            × ((n : Bytes) → In n s.allowed_rules → IsThere h n))

  pub exit_rule_spec_kept :
      (r : ResourceRecord) (s : ExitRuleSpec)
      → exit_rule_spec json c fuel rules devices r ≡ ok s
      → r.deleted ≡ false
  unfolding exit_rule_spec
  exit_rule_spec_kept r s h =
      let (_, g, _) =
        bind_ok (refuse_if (not (is_eq r.kind exit_rule_kind) || r.deleted) ExitError.not_a_rule) _
          s h in
      let (e, _) =
        guard_ok (not (is_eq r.kind exit_rule_kind) || r.deleted) ExitError.not_a_rule (ok tt) tt
          g in
      ground (arith, e)

  is_kept-IsThere :
      (h : Heads) (n : Bytes) → is_kept json c fuel rules devices h n ≡ true → IsThere h n
  unfolding is_kept
  is_kept-IsThere h n k = elim (Option-cases (h.head_of exit_rule_kind n)) [
    | inl e ↦ absurd (let z = rw (is_kept, e) at k in cc)
    | inr (v, e) ↦ elim (Result-cases (exit_rule_spec json c fuel rules devices v.resource)) [
      | inl (s, f) ↦ (v, e, s, f)
      | inr (_, f) ↦ absurd (let z = rw (is_kept, e, f) at k in ground (arith, z))
    ]
  ]

  IsThere-is_kept :
      (h : Heads) (n : Bytes) → IsThere h n → is_kept json c fuel rules devices h n ≡ true
  unfolding is_kept
  IsThere-is_kept h n (v, e, s, f) =
      let kept = exit_rule_spec_kept v.resource s f in rw (is_kept, e, f, kept) refl

  All-validate_device_rules :
      (h : Heads) (names : List Bytes)
      → ((n : Bytes) → In n names → IsThere h n)
      → validate_device_rules json c fuel rules devices h names ≡ ok tt
  unfolding validate_device_rules
  All-validate_device_rules h [] there = refl
  All-validate_device_rules h (n ∷ ns) there =
      let kept = IsThere-is_kept h n (there n (inl refl)) in
      rw (validate_device_rules, kept) (All-validate_device_rules h ns (λ m i. there m (inr i)))

  -- What is shown of devices is of listed devices.
  In-collect_devices :
      (h : Heads) (now_ms : ℕ) (last_used : Bytes → Option ℕ) (d : DeviceView)
      (vs : List ResourceView)
      → In d (collect_devices json c fuel rules devices h now_ms last_used vs)
      → (w : ResourceView) × (s : DeviceSpec) × In w vs
        × (device_spec json c fuel rules devices w.resource ≡ ok s)
        × (d.allowed_rules ≡ s.allowed_rules)
  unfolding collect_devices
  In-collect_devices h now_ms last_used d [] i = absurd i
  In-collect_devices h now_ms last_used d (v ∷ vs) i =
      let later : In d (collect_devices json c fuel rules devices h now_ms last_used vs)
          → (w : ResourceView) × (s : DeviceSpec) × In w (v ∷ vs)
            × (device_spec json c fuel rules devices w.resource ≡ ok s)
            × (d.allowed_rules ≡ s.allowed_rules) =
        λ j.
          let (w, s, k, e, f) = In-collect_devices h now_ms last_used d vs j in
          (w, s, inr k, e, f) in
      elim (Result-cases (device_spec json c fuel rules devices v.resource)) [
        | inr (_, e) ↦ later (
            if_same v.resource.deleted (In d)
              (collect_devices json c fuel rules devices h now_ms last_used vs)
              (rw (collect_devices, e) at i))
        | inl (s, e) ↦
            let kept = (device_spec_kind v.resource s e).1 in
            elim (else_in v.resource.deleted (In d) _ _ kept (rw (collect_devices, e) at i)) [
              | inl same ↦ (v, s, inl refl, e, ap (λ (x : DeviceView). x.allowed_rules) same)
              | inr j ↦ later j
            ]
      ]

  admitted_device :
      (h : Heads) (now_ms : ℕ) (last_used : Bytes → Option ℕ) (r : ResourceRecord)
      → r.kind ≡ device_kind
      → r.deleted ≡ false
      → validate_admission json c fuel rules devices h now_ms last_used r ≡ ok tt
      → (s : DeviceSpec) × (device_spec json c fuel rules devices r ≡ ok s)
        × (validate_device_rules json c fuel rules devices h s.allowed_rules ≡ ok tt)
  unfolding validate_admission
  admitted_device h now_ms last_used r k d e =
      let (other, same) = device_kinds r.kind k in
      bind_ok (device_spec json c fuel rules devices r)
        (λ s. validate_device_rules json c fuel rules devices h s.allowed_rules) tt
        (then_case (is_eq r.kind device_kind && not r.deleted) (λ x. x ≡ ok tt) _ _
          (ground (arith, same, d)) (rw (validate_admission, other) at e))

  removal_unused :
      (h : Heads) (now_ms : ℕ) (last_used : Bytes → Option ℕ) (r : ResourceRecord)
      → r.kind ≡ exit_rule_kind
      → r.deleted ≡ true
      → validate_admission json c fuel rules devices h now_ms last_used r ≡ ok tt
      → (w : ResourceView) (s : DeviceSpec) → In w (h.heads_of device_kind)
      → device_spec json c fuel rules devices w.resource ≡ ok s
      → In r.name s.allowed_rules
      → ⊥
  unfolding device_views
  removal_unused h now_ms last_used r k d e w s i read j =
      let shown = view_of json c fuel rules devices h now_ms last_used w s in
      let listed =
        sort_by-In (λ (x : DeviceView). x.name) shown _
          (collect_devices-In h now_ms last_used w s (h.heads_of device_kind) i read) in
      let apart =
        any-In (λ name. is_eq name r.name) r.name s.allowed_rules
          (any-In (λ (x : DeviceView). any (λ name. is_eq name r.name) x.allowed_rules) shown _
            (admitted_removal h now_ms last_used r k d e) listed)
          j in
      ground (arith, apart, bytes_ord.cmp_self r.name)

  unused_removal :
      (h : Heads) (now_ms : ℕ) (last_used : Bytes → Option ℕ) (r : ResourceRecord)
      → ((w : ResourceView) (s : DeviceSpec)
          → In w (h.heads_of device_kind)
          → device_spec json c fuel rules devices w.resource ≡ ok s
          → In r.name s.allowed_rules
          → ⊥)
      → any
          (λ (d : DeviceView). any (λ name. is_eq name r.name) d.allowed_rules)
          (device_views json c fuel rules devices h now_ms last_used)
        ≡ false
  unfolding device_views
  unused_removal h now_ms last_used r free = none_any _ _ (λ d i named.
      let (w, s, at, read, same) =
        In-collect_devices h now_ms last_used d (h.heads_of device_kind)
          (In-sort_by (λ (x : DeviceView). x.name) d _ i) in
      let (n, j, e) = any_some (λ name. is_eq name r.name) d.allowed_rules named in
      let name : n ≡ r.name = bytes_ord.cmp_eq n r.name (ground (arith, e)) in
      free w s at read (subst (λ x. In x s.allowed_rules) name (subst (In n) same j)))

  admissible_passes :
      (h : Heads) (now_ms : ℕ) (last_used : Bytes → Option ℕ) (r : ResourceRecord)
      → IsAdmissible h r
      → validate_admission json c fuel rules devices h now_ms last_used r ≡ ok tt
  unfolding validate_admission
  admissible_passes h now_ms last_used r (valid, free, served) =
      elim (Bool-cases (is_eq r.kind exit_rule_kind)) [
        | inl k ↦
            let kind = bytes_ord.cmp_eq r.kind exit_rule_kind (ground (arith, k)) in
            elim (Bool-cases r.deleted) [
              | inl d ↦
                  let unused = unused_removal h now_ms last_used r (free kind d) in
                  rw (validate_admission, k, unused) (if_both r.deleted _ _ d)
              | inr d ↦ let (s, read) = valid kind d in rw (validate_admission, k, read, d) refl
            ]
        | inr k ↦ elim (Bool-cases (is_eq r.kind device_kind && not r.deleted)) [
          | inr other ↦ rw (validate_admission, k, other) refl
          | inl same ↦
              let (s, read, there) =
                served (bytes_ord.cmp_eq r.kind device_kind (ground (arith, same)))
                  (ground (arith, same)) in
              let all_there = All-validate_device_rules h s.allowed_rules there in
              rw (validate_admission, k, same, read, all_there) refl
        ]
      ]

  -- `validate_admission` lets a record pass exactly if it is admissible on what the node holds: of rule
  -- sets the valid ones; of their removals those that no listed device names; of devices the valid ones
  -- whose rule sets are all there and valid; and every other record.
  pub validate_admission_iff :
      (h : Heads) (now_ms : ℕ) (last_used : Bytes → Option ℕ) (r : ResourceRecord)
      → (validate_admission json c fuel rules devices h now_ms last_used r ≡ ok tt)
        ↔ IsAdmissible h r
  validate_admission_iff h now_ms last_used r = (
    λ e. (
      λ k d. admitted_rule h now_ms last_used r k d e,
      λ k d w s i read j.
          let unused = removal_unused h now_ms last_used r k d e w s i read j in unused,
      λ k d.
          let (s, read, checked) = admitted_device h now_ms last_used r k d e in
          (
            s,
            read,
            λ n i. is_kept-IsThere h n (
                All-In (λ n. is_kept json c fuel rules devices h n ≡ true) n s.allowed_rules
                  (validate_device_rules-All h s.allowed_rules checked) i),
          ),
    ),
    admissible_passes h now_ms last_used r,
  )
