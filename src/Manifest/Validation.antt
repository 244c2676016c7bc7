-- ===== src/Manifest/Validation.antt =====
-- What `validate` of crates/rf-core/src/manifest.rs lets through.
use randall_flare.Prelude.{
  ◌≡◌, inl, inr, refl, sym, subst, Bool, true, false, List, [], ◌∷◌, All, ◌==◌, is_none, any, arith,
  Bool-cases,
}
use randall_flare.Prelude.Order.{Bytes, bytes_ord, is_eq}
use randall_flare.Prelude.Result.{ok, ◌>>◌, bind_ok}
use randall_flare.Prelude.Members.{In, Distinct}
use randall_flare.Manifest.Names.{valid_name, valid_hostname, valid_bundle_path}
use randall_flare.Manifest.{
  WorkerManifest, check_paths, check_crons, check_hostnames, all_paths, has_main, is_cron,
  same_bool, validate,
}

seen_path : (p : Bytes) (seen : List Bytes) → any (λ q. is_eq q p) seen ≡ false → In p seen → ⊥
unfolding any
seen_path p [] h i = i
seen_path p (q ∷ seen) h (inl e) =
    let self : is_eq q p ≡ true = rw e (ground (arith, bytes_ord.cmp_self q)) in ground arith
seen_path p (q ∷ seen) h (inr i) = seen_path p seen (ground arith) i

-- Paths that are safe, and neither seen before nor twice in the list.
record Fresh (seen paths : List Bytes) : Type 0 where
  safe : All (λ p. valid_bundle_path p ≡ true) paths
  distinct : Distinct paths
  unseen : (p : Bytes) → In p paths → In p seen → ⊥

check_paths-Fresh : (seen paths : List Bytes) → check_paths seen paths ≡ ok tt → Fresh seen paths
unfolding check_paths
check_paths-Fresh seen [] h = record { safe = tt; distinct = tt; unseen = λ p i j. i }
check_paths-Fresh seen (p ∷ ps) h = elim (Bool-cases (valid_bundle_path p)) [
  | inr bad ↦ absurd (let z = rw bad at h in cc)
  | inl good ↦ elim (Bool-cases (any (λ q. is_eq q p) seen)) [
    | inl twice ↦ absurd (let z = rw (good, twice) at h in cc)
    | inr once ↦
        let rest = check_paths-Fresh (p ∷ seen) ps (rw (good, once) at h) in
        record {
          safe = (good, rest.safe);
          distinct = (λ i. rest.unseen p i (inl refl), rest.distinct);
          unseen = λ q i j. elim i [
            | inl e ↦ seen_path p seen once (subst (λ x. In x seen) e j)
            | inr k ↦ rest.unseen q k (inr j)
          ];
        }
  ]
]

check_crons-All : (cs : List Bytes) → check_crons cs ≡ ok tt → All (λ c. is_cron c ≡ true) cs
unfolding check_crons
check_crons-All [] h = tt
check_crons-All (c ∷ cs) h = elim (Bool-cases (is_cron c)) [
  | inr bad ↦ absurd (let z = rw bad at h in cc)
  | inl good ↦ (good, check_crons-All cs (rw good at h))
]

check_hostnames-All :
    (hs : List Bytes) → check_hostnames hs ≡ ok tt → All (λ h. valid_hostname h ≡ true) hs
unfolding check_hostnames
check_hostnames-All [] h = tt
check_hostnames-All (x ∷ hs) h = elim (Bool-cases (valid_hostname x)) [
  | inr bad ↦ absurd (let z = rw bad at h in cc)
  | inl good ↦ (good, check_hostnames-All hs (rw good at h))
]

same_bool_sound : (a b : Bool) → same_bool a b ≡ true → a ≡ b
same_bool_sound true b h = sym h
same_bool_sound false true h = cc
same_bool_sound false false h = refl

-- What a node may rely on in a manifest that is not a tombstone.
pub record Servable (m : WorkerManifest) : Type 0 where
  pub name_ok : valid_name m.name ≡ true
  pub first_has_no_prev : (m.version == 1) ≡ is_none m.prev
  pub main_there : has_main m ≡ true
  pub paths_safe : All (λ p. valid_bundle_path p ≡ true) (all_paths m)
  pub paths_distinct : Distinct (all_paths m)
  pub crons_parse : All (λ c. is_cron c ≡ true) m.crons
  pub hostnames_ok : All (λ h. valid_hostname h ≡ true) m.hostnames

-- A manifest that validates and is not a tombstone has a valid name, a predecessor exactly if it is
-- not version 1, its main module if it names one, paths that are safe and all different, cron
-- expressions that parse, and valid host names.
pub validate-Servable : (m : WorkerManifest) → validate m ≡ ok tt → m.deleted ≡ false → Servable m
unfolding validate
validate-Servable m h alive = elim (Bool-cases (valid_name m.name)) [
  | inr bad ↦ absurd (let z = rw bad at h in cc)
  | inl named ↦ elim (Bool-cases (same_bool (m.version == 1) (is_none m.prev))) [
    | inr bad ↦ absurd (let z = rw (named, bad) at h in cc)
    | inl linked ↦ elim (Bool-cases (has_main m)) [
      | inr bad ↦ absurd (let z = rw (named, linked, alive, bad) at h in cc)
      | inl main ↦
          let all_ok = rw (named, linked, alive, main) at h in
          let (_, front, hosts) =
            bind_ok (check_paths [] (all_paths m) >> check_crons m.crons)
              (λ _. check_hostnames m.hostnames) tt all_ok in
          let (_, paths, crons) =
            bind_ok (check_paths [] (all_paths m)) (λ _. check_crons m.crons) tt front in
          let fresh = check_paths-Fresh [] (all_paths m) paths in
          record {
            name_ok = named;
            first_has_no_prev = same_bool_sound (m.version == 1) (is_none m.prev) linked;
            main_there = main;
            paths_safe = fresh.safe;
            paths_distinct = fresh.distinct;
            crons_parse = check_crons-All m.crons crons;
            hostnames_ok = check_hostnames-All m.hostnames hosts;
          }
    ]
  ]
]
