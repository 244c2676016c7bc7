-- ===== src/Hlc/Monotone.antt =====
-- Timestamps ascend: `now` and `observe` of crates/rf-core/src/hlc.rs over any run of events.
use randall_flare.Prelude.{ℕ, ◌+◌, ◌-◌, ◌≤◌, ◌<◌, ◌≡◌, List, [], ◌∷◌, u32_mod, length, subst, arith}
use randall_flare.Hlc.{Hlc, Clock, cmp_hlc, now, observe}
use Prim.Native.Nat.Ordering.{lt}

-- `a` sorts strictly before `b`.
abbrev pub Before : Hlc → Hlc → Type 0
Before a b = cmp_hlc a b ≡ lt

-- While the u32 counter has room, `now` returns a timestamp after every one it issued before,
-- whatever the wall clock says, and remembers it.
pub now_ascends :
    (c : Clock) (wall_ms : ℕ)
    → c.last.logical + 1 < u32_mod
    → Before c.last (now c wall_ms).1 × ((now c wall_ms).0.last ≡ (now c wall_ms).1)
unfolding now
now_ascends c wall_ms h = ground arith

-- After a remote timestamp is folded in, the next local timestamp sorts after it and after the
-- clock's own last one, at any two readings of the wall clock, while the counter has room.
pub now-observe :
    (c : Clock) (remote : Hlc) (w v : ℕ)
    → c.last.logical + 2 < u32_mod
    → remote.logical + 2 < u32_mod
    → Before remote (now (observe c remote w) v).1 × Before c.last (now (observe c remote w) v).1
unfolding now observe
now-observe c remote w v h k = ground arith

-- What happens to a clock: a local event, or a timestamp received, each at a wall clock reading.
pub data Event : Type 0 where
  tick : ℕ → Event
  receive : Hlc → ℕ → Event

-- The timestamps that a run of events issues.
pub stamps : Clock → List Event → List Hlc
stamps c [] = []
stamps c (tick w ∷ es) = (now c w).1 ∷ stamps (now c w).0 es
stamps c (receive remote w ∷ es) = stamps (observe c remote w) es

-- Each timestamp sorts after the one before it, and the first after `a`.
abbrev pub Ascends : Hlc → List Hlc → Type 0
Ascends a [] = Unit
Ascends a (b ∷ bs) = Before a b × Ascends b bs

-- No remote counter is past `bound`.
abbrev pub Within : ℕ → List Event → Type 0
Within bound [] = Unit
Within bound (tick w ∷ es) = Within bound es
Within bound (receive remote w ∷ es) = (remote.logical ≤ bound) × Within bound es

now_room :
    (c : Clock) (w bound : ℕ)
    → c.last.logical ≤ bound
    → bound + 1 < u32_mod
    → (now c w).0.last.logical ≤ bound + 1
unfolding now
now_room c w bound h k = ground arith

observe_room :
    (c : Clock) (remote : Hlc) (w bound : ℕ)
    → c.last.logical ≤ bound
    → remote.logical ≤ bound
    → bound + 1 < u32_mod
    → (observe c remote w).last.logical ≤ bound + 1
unfolding observe
observe_room c remote w bound h r k = ground arith

Ascends-observe :
    (c : Clock) (remote : Hlc) (w : ℕ) (bs : List Hlc)
    → c.last.logical + 1 < u32_mod
    → remote.logical + 1 < u32_mod
    → Ascends (observe c remote w).last bs
    → Ascends c.last bs
unfolding observe
Ascends-observe c remote w [] h k s = tt
Ascends-observe c remote w (b ∷ bs) h k s = ground arith

Within-weaken : (m n : ℕ) (es : List Event) → m ≤ n → Within m es → Within n es
Within-weaken m n [] h s = tt
Within-weaken m n (tick w ∷ es) h s = Within-weaken m n es h s
Within-weaken m n (receive remote w ∷ es) h s = (omega arith, Within-weaken m n es h s.1)

-- Over any run of local events and received timestamps, with any wall clock readings, the issued
-- timestamps ascend strictly, and all sort after the clock's last one; the counters involved must
-- leave room for the number of events.
pub stamps-Ascends :
    (c : Clock) (es : List Event) (bound : ℕ)
    → c.last.logical ≤ bound
    → Within bound es
    → bound + length es < u32_mod
    → Ascends c.last (stamps c es)
unfolding stamps
stamps-Ascends c [] bound h r k = tt
stamps-Ascends c (tick w ∷ es) bound h r k =
    let (less, same) = now_ascends c w (omega arith) in
    let rest =
      stamps-Ascends (now c w).0 es (bound + 1) (now_room c w bound h (omega arith))
        (Within-weaken bound (bound + 1) es (omega arith) r) (omega arith) in
    (less, subst (λ (b : Hlc). Ascends b (stamps (now c w).0 es)) same rest)
stamps-Ascends c (receive remote w ∷ es) bound h r k =
    Ascends-observe c remote w (stamps (observe c remote w) es) (omega arith) (omega arith) (
      stamps-Ascends (observe c remote w) es (bound + 1)
        (observe_room c remote w bound h r.0 (omega arith))
        (Within-weaken bound (bound + 1) es (omega arith) r.1) (omega arith))

-- A received timestamp that is after the clock's own and whose counter is u32::MAX, at a wall clock
-- that is not past it, wraps the counter: the clock falls back behind the timestamp that it has just observed.
pub observe_wraps :
    (c : Clock) (remote : Hlc) (w : ℕ)
    → Before c.last remote
    → remote.logical ≡ u32_mod - 1
    → w ≤ remote.wall_ms
    → Before (observe c remote w).last remote
unfolding observe
observe_wraps c remote w h k l = ground arith
