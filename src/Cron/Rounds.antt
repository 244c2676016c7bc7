-- ===== src/Cron/Rounds.antt =====
-- The bit loop of `parse_field` in crates/rf-core/src/cron.rs ends, even where its sum wraps.
use Prim.Native.Nat.{bit_or}
use randall_flare.Prelude.{
  ℕ, zero, suc, ◌+◌, ◌%◌, ◌^◌, ◌≤◌, ◌<◌, ◌≡◌, refl, sym, subst, arith, u32_mod, dec_lt,
}
use randall_flare.Cron.{set_bits}

-- A run of `while v <= hi { mask |= 1 << v; v += step }`, with the mask and `v` it starts from, the
-- number of rounds and the mask it leaves. It stops where its condition is false, and nowhere else.
pub data Ran (hi step : ℕ) : ℕ → ℕ → ℕ → ℕ → Type 0 where
  stop : (mask v : ℕ) → hi < v → Ran hi step mask v 0 mask
  turn :
      (mask v rounds result : ℕ)
      → v ≤ hi
      → Ran hi step (bit_or mask (2 ^ v)) ((v + step) % u32_mod) rounds result
      → Ran hi step mask v (suc rounds) result

-- With a step of zero, no run stops.
zero_step-loops :
    (hi mask v rounds result : ℕ) → v ≤ hi → hi < 64 → Ran hi 0 mask v rounds result → ⊥
zero_step-loops hi mask v rounds result le small (stop _ _ out) = omega arith
zero_step-loops hi mask v rounds result le small (turn _ _ n _ _ rest) =
    zero_step-loops hi (bit_or mask (2 ^ v)) ((v + 0) % u32_mod) n result (omega arith) small rest

module _ (hi step : ℕ) where
  -- Rounds that are at least those of a run leave the mask of the run.
  set_bits_of :
      (n mask v rounds result : ℕ)
      → Ran hi step mask v rounds result
      → rounds ≤ n
      → set_bits n mask v hi step ≡ result
  unfolding set_bits
  set_bits_of zero mask v rounds result (stop _ _ out) le = refl
  set_bits_of (suc n) mask v rounds result (stop _ _ out) le = ground arith
  set_bits_of zero mask v rounds result (turn _ _ k _ within rest) le = absurd (omega arith)
  set_bits_of (suc n) mask v rounds result (turn _ _ k _ within rest) le = ground (
    arith,
    set_bits_of n (bit_or mask (2 ^ v)) ((v + step) % u32_mod) k result rest (omega arith),
  )

  -- A run of at most `n` rounds.
  abbrev Ends : ℕ → ℕ → ℕ → Type 0
  Ends n mask v = (k : ℕ) × (k ≤ n) × (r : ℕ) × Ran hi step mask v k r

  Ends-turn :
      (n mask v : ℕ)
      → v ≤ hi
      → Ends n (bit_or mask (2 ^ v)) ((v + step) % u32_mod)
      → Ends (suc n) mask v
  Ends-turn n mask v within (k, le, r, run) = (suc k, omega arith, r, turn mask v k r within run)

  Ends-stop : (n mask v : ℕ) → hi < v → Ends n mask v
  Ends-stop n mask v out = (0, omega arith, mask, stop mask v out)

  -- While the sum does not wrap, each round comes nearer to `hi`.
  ascending : (n mask v : ℕ) → 0 < step → hi + step < u32_mod → hi < v + n → Ends n mask v
  ascending zero mask v p small h = Ends-stop zero mask v (omega arith)
  ascending (suc n) mask v p small h = elim (dec_lt hi v) [
    | yes out ↦ Ends-stop (suc n) mask v out
    | no within ↦
        Ends-turn n mask v (omega arith)
          (ascending n (bit_or mask (2 ^ v)) ((v + step) % u32_mod) p small (omega arith))
  ]

  -- Where it wraps, each round goes down, and below zero it is past `hi`.
  descending :
      (n mask v : ℕ) → step < u32_mod → u32_mod ≤ hi + step → hi < 64 → v ≤ n → Ends (suc n) mask v
  descending zero mask v p big small h =
      let within : v ≤ hi = omega arith in
      Ends-turn zero mask v within
        (Ends-stop zero (bit_or mask (2 ^ v)) ((v + step) % u32_mod) (omega arith))
  descending (suc n) mask v p big small h = elim (dec_lt hi v) [
    | yes out ↦ Ends-stop (suc (suc n)) mask v out
    | no within ↦ Ends-turn (suc n) mask v (omega arith) (elim (dec_lt (v + step) u32_mod) [
      | yes low ↦ Ends-stop (suc n) (bit_or mask (2 ^ v)) ((v + step) % u32_mod) (omega arith)
      | no wraps ↦
          descending n (bit_or mask (2 ^ v)) ((v + step) % u32_mod) p big small (omega arith)
    ])
  ]

  -- The loop over the bits of a range comes to `v > hi` within `hi + 1` rounds, even where the sum of a
  -- large step wraps, and leaves the mask of `set_bits`, for every step that is not zero and every range
  -- within the bits of the mask. The run is one of the loop itself, which has no bound on its rounds.
  pub set_bits-Ran :
      (mask lo : ℕ)
      → 0 < step
      → step < u32_mod
      → lo ≤ hi
      → hi < 64
      → (rounds : ℕ) × (rounds ≤ hi + 1)
        × Ran hi step mask lo rounds (set_bits (hi + 1) mask lo hi step)
  set_bits-Ran mask lo p q le small =
      let ends : Ends (hi + 1) mask lo = elim (dec_lt (hi + step) u32_mod) [
        | yes low ↦ ascending (hi + 1) mask lo p low (omega arith)
        | no wraps ↦
            let size : hi + 1 ≡ suc hi = omega arith in
            rw size (descending hi mask lo q (omega arith) small le)
      ] in
      let (k, bound, r, run) = ends in
      let same = set_bits_of (hi + 1) mask lo k r run bound in
      (k, bound, subst (Ran hi step mask lo k) (sym same) run)
