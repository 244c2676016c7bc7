-- ===== src/Claim/Winner.antt =====
-- Who holds a task, by `winner` and `gc` of crates/rf-core/src/claim.rs.
use randall_flare.Prelude.{
  ℕ, ◌+◌, ◌<◌, u64_max, ◌≡◌, ◌↔◌, ◌⊎◌, inl, inr, refl, ap, sym, ◌∙◌, subst, none, some, Bool, true,
  false, List, [], ◌∷◌, All, filter, arith, Bool-cases, Option-cases,
}
use randall_flare.Prelude.Order.{
  Bytes, bytes_ord, pair_ord, is_gt, gt_asym, not_gt_antisym, not_gt_trans, not_gt_self,
}
use randall_flare.Prelude.Members.{In}
use randall_flare.Hlc.{hlc_ord}
use randall_flare.Claim.{
  Claim, ClaimRecord, ClaimSet, expires_at_ms, live, records, rank, earlier, least, earliest,
  winner,
}

-- No record of the list comes before `r`.
abbrev pub IsFirst : ClaimRecord → List ClaimRecord → Type 0
IsFirst r rs = All (λ x. is_gt (rank r) (rank x) ≡ false) rs

-- A claim that is not released, at a time before the sum of its last renewal, its time to live and the
-- slack, and before the last instant there is.
abbrev pub IsLive : Claim → ℕ → Type 0
IsLive claim now =
    (claim.released ≡ false)
    × (now < claim.renewed.wall_ms + claim.ttl_ms + 15_000)
    × (now < u64_max)

live-IsLive : (claim : Claim) (now : ℕ) → (live claim now ≡ true) ↔ IsLive claim now
unfolding live expires_at_ms
live-IsLive claim now = (λ h. ground (arith, h), λ h. ground (arith, h))

IsFirst-trans :
    (a b : ClaimRecord) (rs : List ClaimRecord)
    → is_gt (rank a) (rank b) ≡ false
    → IsFirst b rs
    → IsFirst a rs
IsFirst-trans a b [] h f = tt
IsFirst-trans a b (r ∷ rs) h f =
    (not_gt_trans (rank a) (rank b) (rank r) h f.0, IsFirst-trans a b rs h f.1)

earlier_of :
    (a b : ClaimRecord)
    → ((earlier a b ≡ a) ⊎ (earlier a b ≡ b))
      × (is_gt (rank (earlier a b)) (rank a) ≡ false)
      × (is_gt (rank (earlier a b)) (rank b) ≡ false)
earlier_of a b = elim (Bool-cases (is_gt (rank a) (rank b))) [
  | inl later ↦ rw later (inr refl, gt_asym (rank a) (rank b) later, not_gt_self (rank b))
  | inr sooner ↦ rw sooner (inl refl, not_gt_self (rank a), sooner)
]

least-IsFirst :
    (best : ClaimRecord) (rs : List ClaimRecord)
    → In (least best rs) (best ∷ rs) × IsFirst (least best rs) (best ∷ rs)
unfolding least
least-IsFirst best [] = (inl refl, (not_gt_self (rank best), tt))
least-IsFirst best (r ∷ rs) =
    let s = earlier best r in
    let (at, first) = least-IsFirst s rs in
    let (one, to_best, to_r) = earlier_of best r in
    (
      elim at [
        | inl e ↦ elim one [ inl p ↦ inl (e ∙ p) | inr p ↦ inr (inl (e ∙ p)) ]
        | inr i ↦ inr (inr i)
      ],
      (
        not_gt_trans (rank (least s rs)) (rank s) (rank best) first.0 to_best,
        (not_gt_trans (rank (least s rs)) (rank s) (rank r) first.0 to_r, first.1),
      ),
    )

In-filter :
    (p : ClaimRecord → Bool) (r : ClaimRecord) (rs : List ClaimRecord)
    → In r (filter p rs) ↔ (In r rs × (p r ≡ true))
unfolding filter
In-filter p r [] = (λ h. elim h [ ], λ h. h.0)
In-filter p r (x ∷ rs) = elim (Bool-cases (p x)) [
  | inl yes_x ↦ rw yes_x (
    λ h. elim h [
      | inl e ↦ (inl e, ap p e ∙ yes_x)
      | inr i ↦ let (a, b) = (In-filter p r rs).0 i in (inr a, b)
    ],
    λ h. elim h.0 [ inl e ↦ inl e | inr i ↦ inr ((In-filter p r rs).1 (i, h.1)) ],
  )
  | inr no_x ↦ rw no_x (
    λ h. let (a, b) = (In-filter p r rs).0 h in (inr a, b),
    λ h. elim h.0 [ inl e ↦ absurd (let q = ap p e in cc) | inr i ↦ (In-filter p r rs).1 (i, h.1) ],
  )
]

first_of :
    (r x : ClaimRecord) (rs : List ClaimRecord)
    → IsFirst r rs
    → In x rs
    → is_gt (rank r) (rank x) ≡ false
first_of r x [] f i = elim i [ ]
first_of r x (y ∷ rs) f (inl e) = subst (λ z. is_gt (rank r) (rank z) ≡ false) (sym e) f.0
first_of r x (y ∷ rs) f (inr i) = first_of r x rs f.1 i

earliest-IsFirst :
    (rs : List ClaimRecord) (r : ClaimRecord) → earliest rs ≡ some r → In r rs × IsFirst r rs
unfolding earliest
earliest-IsFirst [] r h = cc
earliest-IsFirst (x ∷ rs) r h =
    let e : least x rs ≡ r = ground arith in
    subst (λ z. In z (x ∷ rs) × IsFirst z (x ∷ rs)) e (least-IsFirst x rs)

-- The winner of a task is a live record of it, and no live record of it was acquired earlier, the
-- digest deciding between equal times.
pub winner-IsFirst :
    (set : ClaimSet) (task : Bytes) (now : ℕ) (r : ClaimRecord)
    → winner set task now ≡ some r
    → In r (records set task)
      × (live r.claim now ≡ true)
      × ((x : ClaimRecord)
          → In x (records set task)
          → live x.claim now ≡ true
          → is_gt (rank r) (rank x) ≡ false)
unfolding winner
winner-IsFirst set task now r h =
    let rs = filter (λ x. live x.claim now) (records set task) in
    let (at, first) = earliest-IsFirst rs r h in
    let (a, b) = (In-filter (λ x. live x.claim now) r (records set task)).0 at in
    (
      a,
      b,
      λ x i l.
          first_of r x rs first ((In-filter (λ y. live y.claim now) x (records set task)).1 (i, l)),
    )

earliest-none : (rs : List ClaimRecord) (x : ClaimRecord) → earliest rs ≡ none → In x rs → ⊥
unfolding earliest
earliest-none [] x h i = i
earliest-none (r ∷ rs) x h i = absurd (cc)

live_found :
    (set : ClaimSet) (task : Bytes) (now : ℕ) (x : ClaimRecord)
    → In x (records set task)
    → live x.claim now ≡ true
    → (r : ClaimRecord) × (winner set task now ≡ some r)
unfolding winner
live_found set task now x i l =
    let rs = filter (λ y. live y.claim now) (records set task) in
    elim (Option-cases (earliest rs)) [
      | inr found ↦ found
      | inl missing ↦ absurd (
          earliest-none rs x missing
            ((In-filter (λ y. live y.claim now) x (records set task)).1 (i, l)))
    ]

-- `r` was acquired before `x`, or at the same time with a digest that is not greater.
abbrev pub IsAhead : ClaimRecord → ClaimRecord → Type 0
IsAhead r x =
    (is_gt x.claim.acquired r.claim.acquired ≡ true)
    ⊎ ((r.claim.acquired ≡ x.claim.acquired) × (is_gt r.digest x.digest ≡ false))

not_gt-IsAhead : (r x : ClaimRecord) → is_gt (rank r) (rank x) ≡ false → IsAhead r x
not_gt-IsAhead r x h = ground (
  arith,
  hlc_ord.cmp_eq r.claim.acquired x.claim.acquired,
  hlc_ord.cmp_lt r.claim.acquired x.claim.acquired,
  h,
)

-- The adjudication of a task: the record that holds it is one of its live records, not released and
-- within its time and the slack for clocks, and is ahead of every live record of it, by the time of
-- acquisition and then by the digest; and there is one exactly if the task has a live record.
pub winner-IsAhead :
    (set : ClaimSet) (task : Bytes) (now : ℕ)
    → ((r : ClaimRecord)
        → winner set task now ≡ some r
        → In r (records set task)
          × IsLive r.claim now
          × ((x : ClaimRecord) → In x (records set task) → IsLive x.claim now → IsAhead r x))
      × ((winner set task now ≡ none)
          ↔ ((x : ClaimRecord) → In x (records set task) → IsLive x.claim now → ⊥))
winner-IsAhead set task now = (
  λ r h.
      let (at, alive, first) = winner-IsFirst set task now r h in
      (
        at,
        (live-IsLive r.claim now).0 alive,
        λ x i l. not_gt-IsAhead r x (first x i ((live-IsLive x.claim now).1 l)),
      ),
  (
    λ h x i l.
        let (r, found) = live_found set task now x i ((live-IsLive x.claim now).1 l) in
        let e = sym h ∙ found in cc,
    λ nobody. elim (Option-cases (winner set task now)) [
      | inl h ↦ h
      | inr (r, h) ↦
          let (at, alive, _) = winner-IsFirst set task now r h in
          absurd (nobody r at ((live-IsLive r.claim now).0 alive))
    ],
  ),
)

-- Two nodes that hold the same records of a task, in whatever order, have the same winner, where
-- records of it with one acquisition time and one digest are the same.
pub winner_agrees :
    (s t : ClaimSet) (task : Bytes) (now : ℕ) (a b : ClaimRecord)
    → ((x : ClaimRecord) → In x (records s task) ↔ In x (records t task))
    → ((x y : ClaimRecord)
        → In x (records s task)
        → In y (records s task)
        → rank x ≡ rank y
        → x ≡ y)
    → winner s task now ≡ some a
    → winner t task now ≡ some b
    → a ≡ b
winner_agrees s t task now a b same unique h k =
    let (i, l, first) = winner-IsFirst s task now a h in
    let (j, m, first') = winner-IsFirst t task now b k in
    unique a b i ((same b).1 j)
      (not_gt_antisym (rank a) (rank b) (first b ((same b).1 j) m) (first' a ((same a).0 i) l))
