-- ===== src/Hlc.antt =====
-- crates/rf-core/src/hlc.rs: the hybrid logical clock. `wall_ms` is a u64 and `logical` a u32, whose
-- increments are unchecked in the release profile: they wrap, and the model writes the wrap out.
pub mod Monotone
mod Tests
use randall_flare.Prelude.{ℕ, ◌+◌, ◌%◌, ◌≡◌, Ordering, compare, u32_mod, ltb, if◌then◌else◌, arith}
use randall_flare.Prelude.Order.{Ord, IsTotal, then_with}
use Prim.Native.Nat.Ordering.{lt, eq, gt}

pub record Hlc : Type 0 where
  pub wall_ms : ℕ
  pub logical : ℕ

-- The derived `Ord`: the fields in order.
abbrev pub cmp_hlc : Hlc → Hlc → Ordering
cmp_hlc a b = then_with (compare a.wall_ms b.wall_ms) (compare a.logical b.logical)

pub cmp_hlc-IsTotal : IsTotal cmp_hlc
cmp_hlc-IsTotal = record {
  cmp_self = λ a. ground arith;
  cmp_eq = λ a b h. ground arith;
  cmp_lt = λ a b h. ground arith;
  cmp_gt = λ a b h. ground arith;
  cmp_trans = λ a b c h k. ground arith;
}

instance abbrev pub hlc_ord : Ord Hlc
hlc_ord = record { cmp = cmp_hlc; total = cmp_hlc-IsTotal }

-- `Ord::max`, which returns its second argument on a tie.
abbrev pub max_hlc : Hlc → Hlc → Hlc
max_hlc a b = elim (cmp_hlc a b) [ gt ↦ a | _ ↦ b ]

pub record Clock : Type 0 where
  pub last : Hlc

unfoldable pub new : Clock
new = record { last = record { wall_ms = 0; logical = 0 } }

-- `self.last.logical += 1`.
abbrev pub bump : Hlc → Hlc
bump h = record h { logical = (h.logical + 1) % u32_mod }

unfoldable pub now : Clock → ℕ → Clock × Hlc
now c wall_ms =
    let last =
      if ltb c.last.wall_ms wall_ms
      then record { wall_ms = wall_ms; logical = 0 }
      else bump c.last in
    (record { last = last }, last)

unfoldable pub observe : Clock → Hlc → ℕ → Clock
observe c remote wall_ms =
    let base = max_hlc c.last remote in
    record { last = if ltb base.wall_ms wall_ms then base else bump base }
