-- ===== src/Exit/Index/Late.antt =====
-- A rule that comes after all others, added to an `IndexedMatcher` of crates/rf/src/exit.rs: it answers
-- where nothing answered.
use randall_flare.Prelude.{
  ℕ, ◌≡◌, refl, ◌∙◌, sym, ap, inl, inr, ◌<◌, ◌≤◌, Option, none, some, Bool, true, false, List, [],
  ◌∷◌, ◌++◌, if◌then◌else◌, any, All, arith, Bool-cases, Option-cases, ◌||◌,
}
use randall_flare.Prelude.Order.{Bytes, bytes_ord, is_eq}
use randall_flare.Prelude.Table
use randall_flare.Prelude.Table.{Table, Each}
use randall_flare.Prelude.Table.Laws.{get-insert}
use randall_flare.Exit.Index.{RuleRef, or_insert, consider, consider_suffixes, consider_each}

abbrev pub Below : ℕ → Option RuleRef → Type 0
Below n none = Unit
Below n (some r) = r.index < n

-- The best so far, or else the new reference.
abbrev pub or_else : Option RuleRef → Option RuleRef → Option RuleRef
or_else none new = new
or_else (some r) new = some r

abbrev pub only_if : Bool → RuleRef → Option RuleRef
only_if b r = if b then some r else none

abbrev pub AtMost : ℕ → Option RuleRef → Type 0
AtMost n none = Unit
AtMost n (some r) = r.index ≤ n

-- A reference that comes after all others only fills a gap, wherever it is considered.
pub consider-late_left :
    (b : Bool) (new : RuleRef) (x y : Option RuleRef)
    → Below new.index y
    → consider (or_else x (only_if b new)) y ≡ or_else (consider x y) (only_if b new)
unfolding consider
consider-late_left b new none none k = ground arith
consider-late_left true new none (some s) k = ground arith
consider-late_left false new none (some s) k = refl
consider-late_left b new (some r) none k = refl
consider-late_left b new (some r) (some s) k = ground arith

pub consider-late_right :
    (b : Bool) (new : RuleRef) (x y : Option RuleRef)
    → AtMost new.index x
    → consider x (or_else y (only_if b new)) ≡ or_else (consider x y) (only_if b new)
unfolding consider
consider-late_right true new none none h = refl
consider-late_right false new none none h = refl
consider-late_right b new none (some s) h = refl
consider-late_right true new (some r) none h = ground arith
consider-late_right false new (some r) none h = refl
consider-late_right b new (some r) (some s) h = ground arith

pub consider-AtMost :
    (n : ℕ) (a b : Option RuleRef) → AtMost n a → Below n b → AtMost n (consider a b)
unfolding consider
consider-AtMost n a none h k = h
consider-AtMost n none (some s) h k = ground arith
consider-AtMost n (some r) (some s) h k = ground arith

pub or_else-AtMost :
    (b : Bool) (new : RuleRef) (x : Option RuleRef)
    → AtMost new.index x
    → AtMost new.index (or_else x (only_if b new))
or_else-AtMost true new none h = omega arith
or_else-AtMost false new none h = tt
or_else-AtMost b new (some r) h = h

or_else-twice :
    (b c : Bool) (new : RuleRef) (x : Option RuleRef)
    → or_else (or_else x (only_if b new)) (only_if c new) ≡ or_else x (only_if (b || c) new)
or_else-twice true c new none = refl
or_else-twice false c new none = refl
or_else-twice b c new (some r) = refl

consider-none : (x : Option RuleRef) → consider x none ≡ x
unfolding consider
consider-none none = refl
consider-none (some r) = refl

pub or_else-neither : (x : Option RuleRef) → or_else x none ≡ x
or_else-neither none = refl
or_else-neither (some r) = refl

pub get-Below :
    (n : ℕ) (t : Table Bytes RuleRef) (k : Bytes)
    → Each (λ _ (r : RuleRef). r.index < n) t
    → Below n (Table.get t k)
unfolding Table.get
get-Below n [] k h = tt
get-Below n ((j, r) ∷ t) k h = ground (arith, get-Below n t k)

pub get-or_insert :
    (key k : Bytes) (new : RuleRef) (t : Table Bytes RuleRef)
    → Table.get (or_insert key new t) k ≡ or_else (Table.get t k) (only_if (is_eq key k) new)
unfolding or_insert
get-or_insert key k new t = elim (Option-cases (Table.get t key)) [
  | inl e ↦ ground (arith, get-insert key k new t, bytes_ord.cmp_eq key k, e)
  | inr (r, e) ↦ ground (arith, bytes_ord.cmp_eq key k, e)
]

pub consider_suffixes-late :
    (b : Bool) (new : RuleRef) (t : Table Bytes RuleRef) (x : Option RuleRef) (ss : List Bytes)
    → Each (λ _ (r : RuleRef). r.index < new.index) t
    → consider_suffixes t (or_else x (only_if b new)) ss
      ≡ or_else (consider_suffixes t x ss) (only_if b new)
unfolding consider_suffixes
consider_suffixes-late b new t x [] h = refl
consider_suffixes-late b new t x (s ∷ ss) h = cc (
  consider-late_left b new x (Table.get t s) (get-Below new.index t s h),
  consider_suffixes-late b new t (consider x (Table.get t s)) ss h,
)

-- A suffix that is inserted answers for the domains that end in it and had no answer.
pub consider_suffixes-or_insert :
    (key : Bytes) (new : RuleRef) (t : Table Bytes RuleRef) (x : Option RuleRef) (ss : List Bytes)
    → Each (λ _ (r : RuleRef). r.index < new.index) t
    → AtMost new.index x
    → consider_suffixes (or_insert key new t) x ss
      ≡ or_else (consider_suffixes t x ss) (only_if (any (λ s. is_eq key s) ss) new)
unfolding consider_suffixes any
consider_suffixes-or_insert key new t x [] h a = sym (or_else-neither x)
consider_suffixes-or_insert key new t x (s ∷ ss) h a =
    let y = consider x (Table.get t s) in
    let below = get-Below new.index t s h in
    let y_most = consider-AtMost new.index x (Table.get t s) a below in
    let b = is_eq key s in
    ap (λ z. consider_suffixes (or_insert key new t) z ss)
      (ap (λ z. consider x z) (get-or_insert key s new t)
        ∙ consider-late_right b new x (Table.get t s) a)
    ∙ consider_suffixes-or_insert key new t (or_else y (only_if b new)) ss h
        (or_else-AtMost b new y y_most)
    ∙ ap (λ z. or_else z (only_if (any (λ s. is_eq key s) ss) new))
        (consider_suffixes-late b new t y ss h)
    ∙ or_else-twice b (any (λ s. is_eq key s) ss) new (consider_suffixes t y ss)

pub consider_suffixes-AtMost :
    (n : ℕ) (t : Table Bytes RuleRef) (x : Option RuleRef) (ss : List Bytes)
    → Each (λ _ (r : RuleRef). r.index < n) t
    → AtMost n x
    → AtMost n (consider_suffixes t x ss)
unfolding consider_suffixes
consider_suffixes-AtMost n t x [] h a = a
consider_suffixes-AtMost n t x (s ∷ ss) h a =
    consider_suffixes-AtMost n t (consider x (Table.get t s)) ss h
      (consider-AtMost n x (Table.get t s) a (get-Below n t s h))

only_if-Below : (n : ℕ) (b : Bool) (r : RuleRef) → r.index < n → Below n (only_if b r)
only_if-Below n true r h = h
only_if-Below n false r h = tt

module _ {A : Type 0} where
  pub consider_each-late :
      (b : Bool) (new : RuleRef) (test : A → Bool) (x : Option RuleRef) (xs : List (A × RuleRef))
      → All (λ (e : A × RuleRef). e.1.index < new.index) xs
      → consider_each test (or_else x (only_if b new)) xs
        ≡ or_else (consider_each test x xs) (only_if b new)
  unfolding consider_each
  consider_each-late b new test x [] h = refl
  consider_each-late b new test x ((y, r) ∷ xs) h = elim (Bool-cases (test y)) [
    | inl e ↦ rw e cc (
      consider-late_left b new x (some r) h.0,
      consider_each-late b new test (consider x (some r)) xs h.1,
    )
    | inr e ↦ rw e (consider_each-late b new test x xs h.1)
  ]

  pub consider_each-AtMost :
      (n : ℕ) (test : A → Bool) (x : Option RuleRef) (xs : List (A × RuleRef))
      → All (λ (e : A × RuleRef). e.1.index < n) xs
      → AtMost n x
      → AtMost n (consider_each test x xs)
  unfolding consider_each
  consider_each-AtMost n test x [] h a = a
  consider_each-AtMost n test x ((y, r) ∷ xs) h a = elim (Bool-cases (test y)) [
    | inl e ↦ rw e (
        consider_each-AtMost n test (consider x (some r)) xs h.1
          (consider-AtMost n x (some r) a h.0))
    | inr e ↦ rw e (consider_each-AtMost n test x xs h.1 a)
  ]

  -- The round for the first entry.
  consider_each-cons :
      (test : A → Bool) (x : Option RuleRef) (y : A) (r : RuleRef) (xs : List (A × RuleRef))
      → consider_each test x ((y, r) ∷ xs) ≡ consider_each test (consider x (only_if (test y) r)) xs
  unfolding consider_each consider
  consider_each-cons test none y r xs = ground arith
  consider_each-cons test (some s) y r xs = elim (Bool-cases (test y)) [
    | inl e ↦ rw e refl
    | inr e ↦ rw e refl
  ]

  pub consider_each-push :
      (new : RuleRef) (y : A) (test : A → Bool) (x : Option RuleRef) (xs : List (A × RuleRef))
      → All (λ (e : A × RuleRef). e.1.index < new.index) xs
      → AtMost new.index x
      → consider_each test x (xs ++ (y, new) ∷ [])
        ≡ or_else (consider_each test x xs) (only_if (test y) new)
  unfolding consider_each
  consider_each-push new y test x [] h a =
      consider_each-cons test x y new []
      ∙ (consider-late_right (test y) new x none a
          ∙ ap (λ z. or_else z (only_if (test y) new)) (consider-none x))
  consider_each-push new y test x ((z, r) ∷ xs) h a =
      consider_each-cons test x z r (xs ++ (y, new) ∷ [])
      ∙ consider_each-push new y test (consider x (only_if (test z) r)) xs h.1 (
          consider-AtMost new.index x (only_if (test z) r) a
            (only_if-Below new.index (test z) r h.0))
      ∙ ap (λ w. or_else w (only_if (test y) new)) (sym (consider_each-cons test x z r xs))
