-- ===== src/Manifest/Merging.antt =====
-- `ingest` of crates/rf-core/src/manifest.rs on what a node holds, and orders of arrival.
use randall_flare.Prelude.{
  ◌≡◌, ◌⊎◌, inl, inr, refl, ap, ◌∙◌, subst, Option, some, true, false, List, [], ◌∷◌, arith,
  Bool-cases, Option-cases,
}
use randall_flare.Prelude.Order.{Bytes, bytes_ord, is_eq, is_lt}
use randall_flare.Prelude.Result.{Result, ok, err, map_err, bind_ok}
use randall_flare.Prelude.Table
use randall_flare.Prelude.Table.{Table}
use randall_flare.Prelude.Table.Laws.{get-insert}
use randall_flare.Identity.{Crypto, SignerId}
use randall_flare.Envelope.{Codec, Envelope, open_envelope}
use randall_flare.Manifest.{
  WorkerManifest, ManifestError, ManifestRecord, ManifestSet, ManifestIngest, newer, breaks_chain,
  fold_record, get, new, ingest, validate, open_error,
}

-- Every worker stays, at the version that it has or a later one, or at the same version with a lower
-- digest; a successor by one links the envelope that was held.
abbrev pub Succeeds : ManifestRecord → ManifestRecord → Type 0
Succeeds old r = (r ≡ old) ⊎ ((newer r old ≡ true) × (breaks_chain r old ≡ false))

abbrev pub Advanced : ManifestSet → ManifestSet → Type 0
Advanced s t =
    (name : Bytes) (old : ManifestRecord)
    → get s name ≡ some old
    → (r : ManifestRecord) × (get t name ≡ some r) × Succeeds old r

ok_inj :
    (a b : ManifestSet × ManifestIngest)
    → Path (Result ManifestError (ManifestSet × ManifestIngest)) (ok a) (ok b)
    → a ≡ b
ok_inj a b h = cc

some_same : (a b : ManifestRecord) (o : Option ManifestRecord) → o ≡ some a → o ≡ some b → a ≡ b
some_same a b o h k = cc

put-Advanced :
    (set : ManifestSet) (r : ManifestRecord)
    → ((old : ManifestRecord)
        → get set r.manifest.name ≡ some old
        → (newer r old ≡ true) × (breaks_chain r old ≡ false))
    → Advanced set (record set { workers = Table.insert r.manifest.name r set.workers })
unfolding get
put-Advanced set r h name old e = elim (Bool-cases (is_eq r.manifest.name name)) [
  | inr other ↦ (old, ground (arith, get-insert r.manifest.name name r set.workers), inl refl)
  | inl this ↦
      let p : r.manifest.name ≡ name = ground (arith, bytes_ord.cmp_eq r.manifest.name name) in
      (
        r,
        ground (arith, get-insert r.manifest.name name r set.workers),
        inr (h old (ap (λ x. Table.get set.workers x) p ∙ e)),
      )
]

fold_record-Advanced :
    (set : ManifestSet) (r : ManifestRecord) (q : ManifestSet × ManifestIngest)
    → fold_record set r ≡ ok q
    → Advanced set q.0
unfolding get fold_record
fold_record-Advanced set r q e =
    let put = record set { workers = Table.insert r.manifest.name r set.workers } in
    let unchanged : Advanced set set = λ name old h. (old, h, inl refl) in
    elim (Option-cases (Table.get set.workers r.manifest.name)) [
      | inl missing ↦
          subst (λ (p : ManifestSet × ManifestIngest). Advanced set p.0)
            (ok_inj (put, ManifestIngest.changed) q (rw (missing, fold_record) at e))
            (put-Advanced set r (λ old h. absurd (cc)))
      | inr (x, h) ↦ elim (Bool-cases (newer r x)) [
        | inr late ↦
            subst (λ (p : ManifestSet × ManifestIngest). Advanced set p.0)
              (ok_inj (set, ManifestIngest.stale) q (rw (h, late, fold_record) at e)) unchanged
        | inl fresh ↦ elim (Bool-cases (breaks_chain r x)) [
          | inl broken ↦ absurd (let z = rw (h, fresh, broken, fold_record) at e in cc)
          | inr whole ↦
              subst (λ (p : ManifestSet × ManifestIngest). Advanced set p.0)
                (ok_inj (put, ManifestIngest.changed) q (rw (h, fresh, whole, fold_record) at e))
                (put-Advanced set r (λ old k.
                  subst (λ x. (newer r x ≡ true) × (breaks_chain r x ≡ false))
                    (some_same x old (Table.get set.workers r.manifest.name) h k) (fresh, whole)))
        ]
      ]
    ]

module _ (c : Crypto) (codec : Codec WorkerManifest) where
  -- Whatever envelope a node takes in, every worker that it holds stays as it is or is replaced by a
  -- later version, or the same version with a lower digest, and a next version by one that links the
  -- envelope held.
  pub ingest-Advanced :
      (set : ManifestSet) (env : Envelope) (q : ManifestSet × ManifestIngest)
      → ingest c codec set env ≡ ok q
      → Advanced set q.0
  unfolding ingest
  ingest-Advanced set env q h =
      let (m, o, rest) =
        bind_ok (map_err open_error (open_envelope c codec env (some set.operator))) _ q h in
      let (u, v, last) = bind_ok (validate m) _ q rest in
      fold_record-Advanced set
        (record { manifest = m; digest = randall_flare.Envelope.digest c env; envelope = env }) q
        last

-- Records that arrive in turn; one that is refused changes nothing.
abbrev pub or_kept : ManifestSet → Result ManifestError (ManifestSet × ManifestIngest) → ManifestSet
or_kept set (ok q) = q.0
or_kept set (err e) = set

abbrev pub arrive : ManifestSet → List ManifestRecord → ManifestSet
arrive set [] = set
arrive set (r ∷ rs) = arrive (or_kept set (fold_record set r)) rs

-- Of two first versions of a worker and a second version that links the one with the higher digest, a
-- new node that gets the lower one, the second version and the higher one ends with the lower first
-- version, and one that gets the higher one, the second version and the lower one ends with the second
-- version.
pub fork_diverges :
    (operator : SignerId) (a b n : ManifestRecord)
    → b.manifest.name ≡ a.manifest.name
    → n.manifest.name ≡ a.manifest.name
    → a.manifest.version ≡ 1
    → b.manifest.version ≡ 1
    → n.manifest.version ≡ 2
    → n.manifest.prev ≡ some b.digest
    → is_lt a.digest b.digest ≡ true
    → (get (arrive (new operator) (a ∷ n ∷ b ∷ [])) a.manifest.name ≡ some a)
      × (get (arrive (new operator) (b ∷ n ∷ a ∷ [])) a.manifest.name ≡ some n)
unfolding get fold_record new Table.get Table.insert
fork_diverges operator a b n e f i j k l h =
    let self = bytes_ord.cmp_self a.manifest.name in
    let up = bytes_ord.cmp_lt a.digest b.digest in
    let same_b = bytes_ord.cmp_self b.digest in
    let apart = bytes_ord.cmp_eq b.digest a.digest in
    (ground (arith, self, up, same_b, apart), ground (arith, self, up, same_b, apart))
