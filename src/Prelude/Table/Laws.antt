-- ===== src/Prelude/Table/Laws.antt =====
-- `get` after `insert` and `retain`, the order of the keys, and equality of sorted tables.
use Prim.Native.Nat.Ordering.{lt, eq}
use mathlib.Core.Path.{◌≡◌, refl}
use mathlib.Core.Bool.{Bool}
use mathlib.Core.List.{[], ◌∷◌}
use mathlib.Core.Option.{Option, none, some}
use native.Mathlib.Omega.{arith}
use randall_flare.Prelude.Order.{Ord}
use randall_flare.Prelude.Tests.{if◌then◌else◌}
use randall_flare.Prelude.Table.{Table, get, insert, retain, Above, IsSorted, Each}

abbrev pub keep_if {κ} : {V : Type κ} → Bool → V → Option V
keep_if b v = if b then some v else none

module _ {ℓ κ} {K : Type ℓ} {V : Type κ} ⦃o : Ord K⦄ where
  pub get-insert :
      (k j : K) (v : V) (t : Table K V)
      → get (insert k v t) j ≡ elim (o.cmp k j) [ eq ↦ some v | _ ↦ get t j ]
  unfolding get insert
  get-insert k j v [] = refl
  get-insert k j v ((i, w) ∷ t) = ground (
    arith,
    get-insert k j v t,
    o.cmp_eq k i,
    o.cmp_eq k j,
    o.cmp_eq i j,
    o.cmp_gt k i,
    o.cmp_lt k i,
    o.cmp_self j,
  )

  Above-insert :
      (i k : K) (v : V) (t : Table K V) → o.cmp i k ≡ lt → Above i t → Above i (insert k v t)
  unfolding insert
  Above-insert i k v [] h a = (h, tt)
  Above-insert i k v ((j, w) ∷ t) h a = ground (arith, Above-insert i k v t)

  Above-trans : (i j : K) (t : Table K V) → o.cmp i j ≡ lt → Above j t → Above i t
  Above-trans i j [] h a = tt
  Above-trans i j ((k, w) ∷ t) h a = (o.cmp_trans i j k h a.0, Above-trans i j t h a.1)

  pub insert-IsSorted : (k : K) (v : V) (t : Table K V) → IsSorted t → IsSorted (insert k v t)
  unfolding insert
  insert-IsSorted k v [] s = (tt, tt)
  insert-IsSorted k v ((j, w) ∷ t) s = ground (
    arith,
    insert-IsSorted k v t,
    Above-insert j k v t,
    Above-trans k j t,
    o.cmp_gt k j,
    o.cmp_eq k j,
  )

  pub get-Above : (k : K) (t : Table K V) → Above k t → get t k ≡ none
  unfolding get
  get-Above k [] a = refl
  get-Above k ((j, w) ∷ t) a = ground (arith, o.cmp_lt k j, get-Above k t)

  retain-Above : (p : K → V → Bool) (k : K) (t : Table K V) → Above k t → Above k (retain p t)
  unfolding retain
  retain-Above p k [] a = tt
  retain-Above p k ((j, w) ∷ t) a = ground (arith, retain-Above p k t)

  pub retain-IsSorted : (p : K → V → Bool) (t : Table K V) → IsSorted t → IsSorted (retain p t)
  unfolding retain
  retain-IsSorted p [] s = tt
  retain-IsSorted p ((j, w) ∷ t) s = ground (arith, retain-IsSorted p t, retain-Above p j t)

  pub get-retain :
      (p : K → V → Bool) (k : K) (t : Table K V)
      → IsSorted t
      → get (retain p t) k ≡ elim (get t k) [ none ↦ none | some v ↦ keep_if (p k v) v ]
  unfolding get retain
  get-retain p k [] s = refl
  get-retain p k ((j, w) ∷ t) s = ground (arith, get-retain p k t, o.cmp_eq j k, get-Above k t)

  pub insert-Each {μ} :
      (P : K → V → Type μ) (k : K) (v : V) (t : Table K V)
      → P k v
      → Each P t
      → Each P (insert k v t)
  unfolding insert
  insert-Each P k v [] h a = (h, tt)
  insert-Each P k v ((j, w) ∷ t) h a = ground (arith, insert-Each P k v t)

  pub retain-Each {μ} :
      (P : K → V → Type μ) (p : K → V → Bool) (t : Table K V) → Each P t → Each P (retain p t)
  unfolding retain
  retain-Each P p [] a = tt
  retain-Each P p ((j, w) ∷ t) a = ground (arith, retain-Each P p t)

  pub get-Each {μ} :
      (P : K → V → Type μ) (k : K) (t : Table K V) (v : V) → Each P t → get t k ≡ some v → P k v
  unfolding get
  get-Each P k [] v a h = ground arith
  get-Each P k ((j, w) ∷ t) v a h = ground (arith, get-Each P k t v, o.cmp_eq j k)

  head_of_ext :
      (j k : K) (w v : V) (t u : Table K V)
      → Above j t
      → Above k u
      → get ((j, w) ∷ t) j ≡ get ((k, v) ∷ u) j
      → get ((j, w) ∷ t) k ≡ get ((k, v) ∷ u) k
      → (j ≡ k) × (w ≡ v)
  unfolding get
  head_of_ext j k w v t u a b e f = ground (
    arith,
    o.cmp_self j,
    o.cmp_self k,
    o.cmp_eq j k,
    o.cmp_eq k j,
    o.cmp_gt j k,
    o.cmp_lt k j,
    get-Above j u,
    get-Above k t,
    Above-trans j k u,
    Above-trans k j t,
  )

  tail_of_ext :
      (j k : K) (w v : V) (t u : Table K V) (i : K)
      → Above j t
      → Above k u
      → j ≡ k
      → get ((j, w) ∷ t) i ≡ get ((k, v) ∷ u) i
      → get t i ≡ get u i
  unfolding get
  tail_of_ext j k w v t u i a b p e =
      ground (arith, o.cmp_eq j i, o.cmp_eq k i, get-Above i t, get-Above i u)

  -- Sorted tables that answer alike are one table.
  pub get_ext : (t u : Table K V) → IsSorted t → IsSorted u → ((k : K) → get t k ≡ get u k) → t ≡ u
  get_ext [] [] s r e = refl
  get_ext [] ((k, v) ∷ u) s r e = let d = e k in unfold get in ground (arith, o.cmp_self k)
  get_ext ((j, w) ∷ t) [] s r e = let d = e j in unfold get in ground (arith, o.cmp_self j)
  get_ext ((j, w) ∷ t) ((k, v) ∷ u) s r e =
      let (p, q) = head_of_ext j k w v t u s.0 r.0 (e j) (e k) in
      let rest = get_ext t u s.1 r.1 (λ i. tail_of_ext j k w v t u i s.0 r.0 p (e i)) in cc
