-- ===== src/Prelude/Table.antt =====
-- Maps as association lists in key order: Rust's `BTreeMap`, and a `HashMap` with one order of
-- iteration chosen.
pub mod Laws
use Prim.Native.Nat.Ordering.{lt, eq, gt}
use randall_flare.Prelude.Order.{Ord}
use randall_flare.Prelude.Lists.{All}
use randall_flare.Prelude.Tests.{if◌then◌else◌}
use mathlib.Core.Path.{◌≡◌}
use mathlib.Core.Bool.{Bool}
use mathlib.Core.List.{List, [], ◌∷◌}
use mathlib.Core.Option.{Option, none, some}

abbrev pub Table {ℓ κ} : Type ℓ → Type κ → Type (ℓ ⊔ κ)
Table K V = List (K × V)

module _ {ℓ κ} {K : Type ℓ} {V : Type κ} ⦃o : Ord K⦄ where
  unfoldable pub get : Table K V → K → Option V
  get [] k = none
  get ((j, v) ∷ t) k = elim (o.cmp j k) [ eq ↦ some v | _ ↦ get t k ]

  unfoldable pub insert : K → V → Table K V → Table K V
  insert k v [] = (k, v) ∷ []
  insert k v ((j, w) ∷ t) = elim (o.cmp k j) [
    | lt ↦ (k, v) ∷ (j, w) ∷ t
    | eq ↦ (k, v) ∷ t
    | gt ↦ (j, w) ∷ insert k v t
  ]

  -- `retain` keeps the entries that pass the test.
  unfoldable pub retain : (K → V → Bool) → Table K V → Table K V
  retain p [] = []
  retain p ((j, w) ∷ t) = let rest = retain p t in if p j w then (j, w) ∷ rest else rest

  abbrev pub Above : K → Table K V → Type 0
  Above k t = All (λ e. o.cmp k e.0 ≡ lt) t

  -- The keys ascend strictly.
  abbrev pub IsSorted : Table K V → Type 0
  IsSorted [] = Unit
  IsSorted ((j, w) ∷ t) = Above j t × IsSorted t

  -- `P` holds of every entry.
  abbrev pub Each {μ} : (K → V → Type μ) → Table K V → Type μ
  Each P t = All (λ e. P e.0 e.1) t
