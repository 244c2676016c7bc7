-- ===== src/Manifest/Chain.antt =====
-- What `verify_chain` of crates/rf-core/src/manifest.rs vouches for.
use randall_flare.Prelude.{
  ◌≡◌, inl, inr, refl, ap, subst, Option, none, some, true, false, List, [], ◌∷◌, is_some, arith,
  Bool-cases, add_u64,
}
use randall_flare.Prelude.Order.{Bytes, bytes_ord}
use randall_flare.Prelude.Result.{Result, ok, map_err, bind_ok, map_err_ok}
use randall_flare.Identity.{Crypto, SignerId}
use randall_flare.Envelope.{Codec, Envelope, open_envelope, digest}
use randall_flare.Manifest.{
  WorkerManifest, ManifestError, links, open_error, follows, verify_from, verify_chain,
}

links_sound : (o : Option Bytes) (d : Bytes) → links o d ≡ true → o ≡ some d
links_sound none d h = cc
links_sound (some p) d h = ap some (bytes_ord.cmp_eq p d (ground arith))

-- A manifest of version 1 at the start of a log has no predecessor.
abbrev pub IsRoot : List WorkerManifest → Type 0
IsRoot [] = Unit
IsRoot (m ∷ ms) = m.version ≡ 1 → m.prev ≡ none

module _ (c : Crypto) (codec : Codec WorkerManifest) where
  -- The next manifest is of the next version of the same worker and links the envelope.
  abbrev pub IsLinked : Envelope → WorkerManifest → List WorkerManifest → Type 0
  IsLinked env m [] = Unit
  IsLinked env m (n ∷ ms) =
      (n.version ≡ add_u64 m.version 1) × (n.name ≡ m.name) × (n.prev ≡ some (digest c env))

  -- The operator signed every envelope, which holds its manifest, and each links the one before.
  abbrev pub IsLog : SignerId → List Envelope → List WorkerManifest → Type 0
  IsLog operator [] [] = Unit
  IsLog operator [] (m ∷ ms) = ⊥
  IsLog operator (env ∷ envs) [] = ⊥
  IsLog operator (env ∷ envs) (m ∷ ms) =
      (open_envelope c codec env (some operator) ≡ ok m)
      × IsLinked env m ms
      × IsLog operator envs ms

  ok_list :
      (a b : List WorkerManifest)
      → Path (Result ManifestError (List WorkerManifest)) (ok a) (ok b)
      → a ≡ b
  ok_list a b h = cc

  -- What the first test of a manifest gives.
  abbrev Begins : Option WorkerManifest → Option Bytes → List WorkerManifest → Type 0
  Begins last d [] = Unit
  Begins last d (m ∷ ms) = follows last d m ≡ true

  verify_from-IsLog :
      (operator : SignerId) (last : Option WorkerManifest) (d : Option Bytes) (envs : List Envelope)
      (ms : List WorkerManifest)
      → verify_from c codec operator last d envs ≡ ok ms
      → Begins last d ms × IsLog operator envs ms
  unfolding verify_from
  verify_from-IsLog operator last d [] [] h = (tt, tt)
  verify_from-IsLog operator last d [] (m ∷ ms) h = absurd (cc)
  verify_from-IsLog operator last d (env ∷ envs) ms h =
      let (m, o, rest) =
        bind_ok (map_err open_error (open_envelope c codec env (some operator))) _ ms h in
      elim (Bool-cases (follows last d m)) [
        | inr bad ↦ absurd (let z = rw bad at rest in cc)
        | inl good ↦
            let (tail, t, e) =
              bind_ok (verify_from c codec operator (some m) (some (digest c env)) envs) _ ms
                (rw good at rest) in
            let (begins, log) =
              verify_from-IsLog operator (some m) (some (digest c env)) envs tail t in
            subst (λ l. Begins last d l × IsLog operator (env ∷ envs) l) (ok_list (m ∷ tail) ms e)
              (
                good,
                (
                  map_err_ok open_error (open_envelope c codec env (some operator)) m o,
                  linked env m tail begins,
                  log,
                ),
              )
      ]
    where
      linked :
          (env : Envelope) (m : WorkerManifest) (ms : List WorkerManifest)
          → Begins (some m) (some (digest c env)) ms
          → IsLinked env m ms
      linked env m [] b = tt
      linked env m (n ∷ ms) b = (
        ground arith,
        bytes_ord.cmp_eq n.name m.name (ground arith),
        links_sound n.prev (digest c env) (ground arith),
      )

  IsRoot-of : (ms : List WorkerManifest) → Begins none none ms → IsRoot ms
  IsRoot-of [] b = tt
  IsRoot-of (m ∷ ms) b = λ e. no_prev m.prev (ground arith)
    where
      no_prev : (o : Option Bytes) → is_some o ≡ false → o ≡ none
      no_prev none h = refl
      no_prev (some p) h = cc

  -- A log that verifies holds one manifest for each envelope, every envelope signed by the operator,
  -- the versions following each other by one under one name, each linking the envelope before it; and
  -- a log that begins with version 1 begins with no predecessor.
  pub verify_chain-IsLog :
      (envs : List Envelope) (operator : SignerId) (ms : List WorkerManifest)
      → verify_chain c codec envs operator ≡ ok ms
      → IsLog operator envs ms × IsRoot ms
  unfolding verify_chain
  verify_chain-IsLog envs operator ms h =
      let (begins, log) = verify_from-IsLog operator none none envs ms h in
      (log, IsRoot-of ms begins)
