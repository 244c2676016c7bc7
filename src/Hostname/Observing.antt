-- ===== src/Hostname/Observing.antt =====
-- What the TXT records of a host name show (crates/rf/src/hostname.rs): `query_verification`.
use randall_flare.Prelude.{ℕ, ◌≡◌, ◌↔◌, subst, ◌⊎◌, inl, inr, true, List, [], ◌∷◌, any, arith}
use randall_flare.Prelude.Order.{Bytes, bytes_ord, is_eq}
use randall_flare.Prelude.Members.{In}
use randall_flare.Prelude.Result.{Result, ok, bind_ok}
use randall_flare.Prelude.Sorting.{sort, insert}
use randall_flare.Hostname.{
  HostnameClaimSpec, HostnameVerification, ClaimRefusal, validate, txt_value, dedup_after, dedup,
  query_verification,
}

In-insert : (x p : Bytes) (qs : List Bytes) → In x (insert p qs) → (x ≡ p) ⊎ In x qs
unfolding insert
In-insert x p [] i = i
In-insert x p (q ∷ qs) i = ground (arith, In-insert x p qs, i)

insert-In : (x p : Bytes) (qs : List Bytes) → (x ≡ p) ⊎ In x qs → In x (insert p qs)
unfolding insert
insert-In x p [] i = i
insert-In x p (q ∷ qs) i = ground (arith, insert-In x p qs, i)

In-sort : (x : Bytes) (ps : List Bytes) → In x (sort ps) → In x ps
unfolding sort
In-sort x [] i = i
In-sort x (p ∷ ps) i = elim (In-insert x p (sort ps) i) [
  | inl e ↦ inl e
  | inr j ↦ inr (In-sort x ps j)
]

sort-In : (x : Bytes) (ps : List Bytes) → In x ps → In x (sort ps)
unfolding sort
sort-In x [] i = i
sort-In x (p ∷ ps) (inl e) = insert-In x p (sort ps) (inl e)
sort-In x (p ∷ ps) (inr i) = insert-In x p (sort ps) (inr (sort-In x ps i))

In-dedup_after : (x last : Bytes) (xs : List Bytes) → In x (dedup_after last xs) → In x xs
unfolding dedup_after
In-dedup_after x last [] i = i
In-dedup_after x last (y ∷ ys) i =
    ground (arith, In-dedup_after x last ys, In-dedup_after x y ys, i)

dedup_after-In :
    (x last : Bytes) (xs : List Bytes) → In x xs → (x ≡ last) ⊎ In x (dedup_after last xs)
unfolding dedup_after
dedup_after-In x last [] i = absurd i
dedup_after-In x last (y ∷ ys) i =
    ground (arith, dedup_after-In x last ys, dedup_after-In x y ys, bytes_ord.cmp_eq y last, i)

In-dedup : (x : Bytes) (xs : List Bytes) → In x (dedup xs) → In x xs
unfolding dedup
In-dedup x [] i = i
In-dedup x (y ∷ ys) (inl e) = inl e
In-dedup x (y ∷ ys) (inr i) = inr (In-dedup_after x y ys i)

dedup-In : (x : Bytes) (xs : List Bytes) → In x xs → In x (dedup xs)
unfolding dedup
dedup-In x [] i = i
dedup-In x (y ∷ ys) (inl e) = inl e
dedup-In x (y ∷ ys) (inr i) = dedup_after-In x y ys i

any_eq-In : (v : Bytes) (xs : List Bytes) → any (λ x. is_eq x v) xs ≡ true → In v xs
unfolding any
any_eq-In v [] h = absurd (ground (arith, h))
any_eq-In v (x ∷ xs) h = ground (arith, any_eq-In v xs, bytes_ord.cmp_eq x v, h)

In-any_eq : (v : Bytes) (xs : List Bytes) → In v xs → any (λ x. is_eq x v) xs ≡ true
unfolding any
In-any_eq v [] i = absurd i
In-any_eq v (x ∷ xs) i = ground (arith, In-any_eq v xs, bytes_ord.cmp_self v, i)

-- A query that gives a result says that the claim is verified just where one of the TXT records found is
-- the value that the claim asks for; the records that it reports are those found.
pub query_verification_iff :
    (answers : List Bytes) (now_ms : ℕ) (s : HostnameClaimSpec) (r : HostnameVerification)
    → query_verification answers now_ms s ≡ ok r
    → ((r.verified ≡ true) ↔ In (txt_value s) answers)
      × ((x : Bytes) → In x r.observed ↔ In x answers)
unfolding query_verification
query_verification_iff answers now_ms s r h =
    let (_, _, same) = bind_ok (validate s) _ r h in
    subst
      (λ (r : HostnameVerification).
        ((r.verified ≡ true) ↔ In (txt_value s) answers)
        × ((x : Bytes) → In x r.observed ↔ In x answers))
      (same_result _ r same)
      (
        (
          λ e. back (txt_value s) (any_eq-In (txt_value s) (dedup (sort answers)) e),
          λ i. In-any_eq (txt_value s) (dedup (sort answers)) (forth (txt_value s) i),
        ),
        λ x. (back x, forth x),
      )
  where
    back : (x : Bytes) → In x (dedup (sort answers)) → In x answers
    back x i = In-sort x answers (In-dedup x (sort answers) i)

    forth : (x : Bytes) → In x answers → In x (dedup (sort answers))
    forth x i = dedup-In x (sort answers) (sort-In x answers i)

    same_result :
        (a b : HostnameVerification)
        → Path (Result ClaimRefusal HostnameVerification) (ok a) (ok b)
        → a ≡ b
    same_result a b e = cc
