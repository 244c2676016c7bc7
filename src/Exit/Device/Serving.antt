-- ===== src/Exit/Device/Serving.antt =====
-- The rule sets that a device is served: `rules_for_device` of crates/rf/src/exit.rs.
use randall_flare.Prelude.{
  ℕ, ◌≡◌, ◌↔◌, refl, sym, ap, ◌∙◌, subst, inl, inr, Bool, true, false, ◌&&◌, List, [], ◌∷◌, arith,
  Bool-cases, filter, if◌then◌else◌,
}
use randall_flare.Prelude.Order.{Ord, Bytes, bytes_ord, pair_ord}
use randall_flare.Prelude.Int.{int_ord}
use randall_flare.Prelude.Members.{In}
use randall_flare.Prelude.Result.{ok, Result-cases}
use randall_flare.Prelude.SortBy.{Ascends, AtLeast, sort_by-In, In-sort_by, sort_by-Ascends}
use randall_flare.Prelude.Table
use randall_flare.Prelude.Table.Laws.{get-insert}
use randall_flare.Identity.{Crypto}
use randall_flare.Resource.{Json, ResourceView}
use randall_flare.Access.{Convert, set_of, has}
use randall_flare.Exit.Spec.{ExitRuleSpec}
use randall_flare.Exit.DeviceSpec.{DeviceSpec, Heads, exit_rule_kind}
use randall_flare.Exit.Device.{
  exit_rule_spec, collect_rules, order_of, rule_records, rules_for_device,
}
use randall_flare.Exit.Device.Admission.{exit_rule_spec_kept, if_same}

has-set_of : (x : Bytes) (xs : List Bytes) → has (set_of xs) x ≡ true → In x xs
unfolding set_of Table.get
has-set_of x [] h = absurd (ground (arith, h))
has-set_of x (y ∷ ys) h =
    let e = get-insert y x tt (set_of ys) in
    ground (arith, e, h, has-set_of x ys, bytes_ord.cmp_eq y x)

set_of-has : (x : Bytes) (xs : List Bytes) → In x xs → has (set_of xs) x ≡ true
unfolding set_of
set_of-has x [] i = absurd i
set_of-has x (y ∷ ys) i =
    let e = get-insert y x tt (set_of ys) in
    ground (arith, e, i, set_of-has x ys, bytes_ord.cmp_self y)

module _ {A : Type 0} (p : A → Bool) where
  In-filter : (x : A) (xs : List A) → In x (filter p xs) → In x xs × (p x ≡ true)
  unfolding filter
  In-filter x [] i = absurd i
  In-filter x (y ∷ ys) i = elim (Bool-cases (p y)) [
    | inl e ↦ elim (rw (filter, e) at i) as (λ _. In x (y ∷ ys) × (p x ≡ true)) [
      | inl s ↦ (inl s, ap p s ∙ e)
      | inr j ↦ let (k, f) = In-filter x ys j in (inr k, f)
    ]
    | inr e ↦ let (k, f) = In-filter x ys (rw (filter, e) at i) in (inr k, f)
  ]

  filter-In : (x : A) (xs : List A) → In x xs → p x ≡ true → In x (filter p xs)
  unfolding filter
  filter-In x [] i h = absurd i
  filter-In x (y ∷ ys) (inl s) h = rw (filter, ap p (sym s) ∙ h) (inl s)
  filter-In x (y ∷ ys) (inr j) h = elim (Bool-cases (p y)) [
    | inl e ↦ rw (filter, e) (inr (filter-In x ys j h))
    | inr e ↦ rw (filter, e) (filter-In x ys j h)
  ]

  module _ {K : Type 0} ⦃o : Ord K⦄ (key : A → K) where
    filter-AtLeast : (x : A) (xs : List A) → AtLeast key x xs → AtLeast key x (filter p xs)
    unfolding filter
    filter-AtLeast x [] a = tt
    filter-AtLeast x (y ∷ ys) a = ground (arith, a, filter-AtLeast x ys)

    filter-Ascends : (xs : List A) → Ascends key xs → Ascends key (filter p xs)
    unfolding filter
    filter-Ascends [] a = tt
    filter-Ascends (y ∷ ys) a = ground (arith, a, filter-AtLeast y ys, filter-Ascends ys)

else_is : {A : Type 0} (b : Bool) (x y : A) → b ≡ false → (if b then x else y) ≡ y
else_is true x y h = absurd (cc)
else_is false x y h = refl

module _ {V : Type 0} (json : Json V) (c : Crypto) (fuel : ℕ) (rules : Convert V ExitRuleSpec)
    (devices : Convert V DeviceSpec) where
  collect_rules_kept :
      (w : ResourceView) (t : ExitRuleSpec) (ws : List ResourceView)
      → exit_rule_spec json c fuel rules devices w.resource ≡ ok t
      → collect_rules json c fuel rules devices (w ∷ ws)
        ≡ (w, t) ∷ collect_rules json c fuel rules devices ws
  unfolding collect_rules
  collect_rules_kept w t ws e =
      rw (collect_rules, e)
        (else_is w.resource.deleted _ _
          (exit_rule_spec_kept json c fuel rules devices w.resource t e))

  In-collect_rules :
      (v : ResourceView) (s : ExitRuleSpec) (vs : List ResourceView)
      → In {A = ResourceView × ExitRuleSpec} (v, s) (collect_rules json c fuel rules devices vs)
      → In v vs × (exit_rule_spec json c fuel rules devices v.resource ≡ ok s)
  unfolding collect_rules
  In-collect_rules v s [] i = absurd i
  In-collect_rules v s (w ∷ ws) i =
      let later : In (v, s) (collect_rules json c fuel rules devices ws)
          → In v (w ∷ ws) × (exit_rule_spec json c fuel rules devices v.resource ≡ ok s) =
        λ j. let (k, e) = In-collect_rules v s ws j in (inr k, e) in
      elim (Result-cases (exit_rule_spec json c fuel rules devices w.resource)) [
        | inr (_, e) ↦ later (
            if_same w.resource.deleted (In (v, s)) (collect_rules json c fuel rules devices ws)
              (rw (collect_rules, e) at i))
        | inl (t, e) ↦
            elim (subst (In (v, s)) (collect_rules_kept w t ws e) i)
              as (λ _.
                In v (w ∷ ws) × (exit_rule_spec json c fuel rules devices v.resource ≡ ok s)) [
                  | inl same ↦ (
                    inl (ap (λ (x : ResourceView × ExitRuleSpec). x.0) same),
                    subst
                        (λ (x : ResourceView × ExitRuleSpec).
                          exit_rule_spec json c fuel rules devices x.0.resource ≡ ok x.1)
                        (sym same) e,
                  )
                  | inr j ↦ later j
                ]
      ]

  collect_rules-In :
      (v : ResourceView) (s : ExitRuleSpec) (vs : List ResourceView)
      → In v vs
      → exit_rule_spec json c fuel rules devices v.resource ≡ ok s
      → In {A = ResourceView × ExitRuleSpec} (v, s) (collect_rules json c fuel rules devices vs)
  unfolding collect_rules
  collect_rules-In v s [] i e = absurd i
  collect_rules-In v s (w ∷ ws) (inl i) e =
      let here =
        subst (λ (x : ResourceView). exit_rule_spec json c fuel rules devices x.resource ≡ ok s) i
          e in
      subst (In (v, s)) (sym (collect_rules_kept w s ws here)) (inl (ap (λ x. (x, s)) i))
  collect_rules-In v s (w ∷ ws) (inr i) e =
      let rest = collect_rules-In v s ws i e in ground (arith, rest)

  abbrev picks : DeviceSpec → ResourceView × ExitRuleSpec → Bool
  picks device p = p.1.enabled && has (set_of device.allowed_rules) p.0.resource.name

  -- A device is served just the rule sets that are listed, valid, not deleted, enabled and named in its
  -- record, in the order of priority and name.
  pub rules_for_device_iff :
      (h : Heads) (device : DeviceSpec)
      → ((v : ResourceView) (s : ExitRuleSpec)
          → In {A = ResourceView × ExitRuleSpec}
              (v, s)
              (rules_for_device json c fuel rules devices h device)
            ↔ (In v (h.heads_of exit_rule_kind)
                × (exit_rule_spec json c fuel rules devices v.resource ≡ ok s)
                × (v.resource.deleted ≡ false)
                × (s.enabled ≡ true)
                × In v.resource.name device.allowed_rules))
        × Ascends
            (order_of json c fuel rules devices)
            (rules_for_device json c fuel rules devices h device)
  unfolding rules_for_device rule_records
  rules_for_device_iff h device = (
    λ v s. (
      λ i.
          let (j, e) =
            In-filter (picks device) (v, s) (rule_records json c fuel rules devices h) i in
          let (k, read) =
            In-collect_rules v s (h.heads_of exit_rule_kind)
              (In-sort_by (order_of json c fuel rules devices) (v, s) _ j) in
          (
            k,
            read,
            exit_rule_spec_kept json c fuel rules devices v.resource s read,
            ground (arith, e),
            has-set_of v.resource.name device.allowed_rules (ground (arith, e)),
          ),
      λ (k, read, _, on, named).
          let known = set_of-has v.resource.name device.allowed_rules named in
          filter-In (picks device) (v, s) (rule_records json c fuel rules devices h)
            (sort_by-In (order_of json c fuel rules devices) (v, s) _
              (collect_rules-In v s (h.heads_of exit_rule_kind) k read))
            (ground (arith, on, known)),
    ),
    filter-Ascends (picks device) (order_of json c fuel rules devices) _ (
        sort_by-Ascends (order_of json c fuel rules devices)
          (collect_rules json c fuel rules devices (h.heads_of exit_rule_kind))),
  )
