-- ===== src/Claim/Ingesting.antt =====
-- What `ingest` of crates/rf-core/src/claim.rs lets in, and what it does to the records that are held.
use randall_flare.Prelude.{
  ◌≡◌, ◌≢◌, inl, inr, ap, sym, ◌∙◌, subst, Option, none, some, false, ◌==◌, if◌then◌else◌, arith,
  Bool-cases, Option-cases,
}
use randall_flare.Prelude.Order.{Bytes, bytes_ord, is_eq, is_le, is_lt, is_gt, not_gt_self, gt_asym}
use randall_flare.Prelude.Result.{Result, ok, map_err, bind_ok, map_err_ok}
use randall_flare.Prelude.Table
use randall_flare.Prelude.Table.{Table}
use randall_flare.Prelude.Table.Laws.{get-insert}
use randall_flare.Hlc.{hlc_ord}
use randall_flare.Identity.{Crypto, PublicId, SignerId, same_signer}
use randall_flare.Envelope.{Codec, Envelope, open_envelope, digest}
use randall_flare.Envelope.Laws.{same_signer_sound}
use randall_flare.Claim.{
  Claim, ClaimRecord, ClaimSet, Ingest, ClaimError, or_empty, put_record, replace_record,
  fold_record, mine, admit, ingest,
}

-- The table of a task after a record is put.
put_record-get :
    (set : ClaimSet) (r : ClaimRecord) (task : Bytes)
    → or_empty (Table.get (put_record set r).tasks task) ≡ (
        if is_eq r.claim.task task
        then Table.insert r.claim.holder.bytes r (or_empty (Table.get set.tasks r.claim.task))
        else or_empty (Table.get set.tasks task))
unfolding put_record
put_record-get set r task = ground (
  arith,
  get-insert r.claim.task task
      (Table.insert r.claim.holder.bytes r (or_empty (Table.get set.tasks r.claim.task))) set.tasks,
)

-- What a node has of a holder and a task after a record is put.
mine-put_record :
    (set : ClaimSet) (r : ClaimRecord) (task : Bytes) (me : PublicId)
    → mine (put_record set r) task me ≡ (
        if is_eq r.claim.task task
        then (if is_eq r.claim.holder.bytes me.bytes then some r else mine set task me)
        else mine set task me)
unfolding mine
mine-put_record set r task me = ground (
  arith,
  put_record-get set r task,
  bytes_ord.cmp_eq r.claim.task task,
  get-insert r.claim.holder.bytes me.bytes r (or_empty (Table.get set.tasks r.claim.task)),
)

-- No record is lost, and the acquisition time of none moves back.
abbrev pub Later : ClaimSet → ClaimSet → Type 0
Later s t =
    (task : Bytes) (me : PublicId) (old : ClaimRecord)
    → mine s task me ≡ some old
    → (r : ClaimRecord) × (mine t task me ≡ some r)
      × (is_gt old.claim.acquired r.claim.acquired ≡ false)

Later-refl : (s : ClaimSet) → Later s s
Later-refl s task me old h = (old, h, not_gt_self old.claim.acquired)

put_record-Later :
    (set : ClaimSet) (r : ClaimRecord)
    → ((old : ClaimRecord)
        → mine set r.claim.task r.claim.holder ≡ some old
        → is_gt old.claim.acquired r.claim.acquired ≡ false)
    → Later set (put_record set r)
put_record-Later set r after task me old h =
    let same_holder : r.claim.holder ≡ me
        → mine set r.claim.task me ≡ some old
        → is_gt old.claim.acquired r.claim.acquired ≡ false =
      λ e q. after old (ap (λ x. mine set r.claim.task x) e ∙ q) in
    elim (Bool-cases (is_eq r.claim.task task)) [
      | inr other ↦
          (old, ground (arith, mine-put_record set r task me), not_gt_self old.claim.acquired)
      | inl here ↦
          let e : r.claim.task ≡ task = ground (arith, bytes_ord.cmp_eq r.claim.task task) in
          elim (Bool-cases (is_eq r.claim.holder.bytes me.bytes)) [
            | inr other ↦
                (old, ground (arith, mine-put_record set r task me), not_gt_self old.claim.acquired)
            | inl this ↦
                let p : r.claim.holder ≡ me =
                  ground (arith, bytes_ord.cmp_eq r.claim.holder.bytes me.bytes) in
                (
                  r,
                  ground (arith, mine-put_record set r task me),
                  same_holder p (ap (λ x. mine set x me) e ∙ h),
                )
          ]
    ]

ok_inj :
    (a b : ClaimSet × Ingest) → Path (Result ClaimError (ClaimSet × Ingest)) (ok a) (ok b) → a ≡ b
ok_inj a b h = cc

ok_claim : (a b : Claim) → Path (Result ClaimError Claim) (ok a) (ok b) → a ≡ b
ok_claim a b h = cc

some_same : (a b : ClaimRecord) (o : Option ClaimRecord) → o ≡ some a → o ≡ some b → a ≡ b
some_same a b o h k = cc

replaced-Later :
    (set : ClaimSet) (existing r : ClaimRecord)
    → mine set r.claim.task r.claim.holder ≡ some existing
    → is_gt existing.claim.acquired r.claim.acquired ≡ false
    → Later set (put_record set r)
replaced-Later set existing r h le = put_record-Later set r (λ old q.
    subst (λ (x : ClaimRecord). is_gt x.claim.acquired r.claim.acquired ≡ false)
      (some_same existing old (mine set r.claim.task r.claim.holder) h q) le)

replace_record-Later :
    (set : ClaimSet) (existing r : ClaimRecord) (q : ClaimSet × Ingest)
    → mine set r.claim.task r.claim.holder ≡ some existing
    → replace_record set existing r ≡ ok q
    → Later set q.0
unfolding replace_record
replace_record-Later set existing r q h e =
    let kept : Later set set = Later-refl set in
    let put = replaced-Later set existing r h in
    elim (Bool-cases (is_eq existing.digest r.digest)) [
      | inl known ↦
          subst (λ (p : ClaimSet × Ingest). Later set p.0)
            (ok_inj (set, Ingest.stale) q (rw known at e)) kept
      | inr fresh ↦ elim (Bool-cases (is_eq r.claim.acquired existing.claim.acquired)) [
        | inl level ↦ elim (Bool-cases (is_le r.claim.renewed existing.claim.renewed)) [
          | inl late ↦
              subst (λ (p : ClaimSet × Ingest). Later set p.0)
                (ok_inj (set, Ingest.stale) q (rw (fresh, level, late) at e)) kept
          | inr newer ↦
              subst (λ (p : ClaimSet × Ingest). Later set p.0)
                (ok_inj (put_record set r, Ingest.changed) q (rw (fresh, level, newer) at e))
                (put (
                  ground (
                    arith,
                    hlc_ord.cmp_eq r.claim.acquired existing.claim.acquired,
                    hlc_ord.cmp_self existing.claim.acquired,
                  )))
        ]
        | inr apart ↦ elim (Bool-cases (is_gt r.claim.acquired existing.claim.acquired)) [
          | inl after ↦
              subst (λ (p : ClaimSet × Ingest). Later set p.0)
                (ok_inj (put_record set r, Ingest.changed) q (rw (fresh, apart, after) at e))
                (put (gt_asym r.claim.acquired existing.claim.acquired after))
          | inr before ↦ absurd (let z = rw (fresh, apart, before) at e in cc)
        ]
      ]
    ]

fold_record-Later :
    (set : ClaimSet) (r : ClaimRecord) (q : ClaimSet × Ingest)
    → fold_record set r ≡ ok q
    → Later set q.0
unfolding fold_record mine
fold_record-Later set r q e =
    elim (Option-cases
      (Table.get (or_empty (Table.get set.tasks r.claim.task)) r.claim.holder.bytes)) [
        | inl missing ↦
            subst (λ (p : ClaimSet × Ingest). Later set p.0)
              (ok_inj (put_record set r, Ingest.changed) q (rw (missing, fold_record) at e))
              (put_record-Later set r (λ old h. absurd (cc)))
        | inr (x, h) ↦ replace_record-Later set x r q h (rw (h, fold_record) at e)
      ]

module _ (c : Crypto) (codec : Codec Claim) where
  -- Whatever envelope a node takes in, no record that it holds is lost, and the acquisition time of no
  -- holder's record moves back.
  pub ingest-Later :
      (set set' : ClaimSet) (env : Envelope) (what : Ingest)
      → ingest c codec set env ≡ ok (set', what)
      → Later set set'
  unfolding ingest
  ingest-Later set set' env what h =
      let (opened, o, rest) =
        bind_ok (map_err ClaimError.envelope (open_envelope c codec env none)) _ (set', what) h in
      let (claim, a, last) = bind_ok (admit c codec env opened) _ (set', what) rest in
      fold_record-Later set (record { claim = claim; digest = digest c env; envelope = env })
        (set', what) last

  admit-checks :
      (env : Envelope) (x claim : Claim)
      → admit c codec env x ≡ ok claim
      → (x ≡ claim)
        × (env.signer ≡ SignerId.ed claim.holder)
        × (is_lt claim.renewed claim.acquired ≡ false)
        × (claim.ttl_ms ≢ 0)
  unfolding admit
  admit-checks env x claim h = elim (Bool-cases (same_signer (SignerId.ed x.holder) env.signer)) [
    | inr other ↦ absurd (let z = rw other at h in cc)
    | inl own ↦ elim (Bool-cases (is_lt x.renewed x.acquired)) [
      | inl back ↦ absurd (let z = rw (own, back) at h in cc)
      | inr forth ↦ elim (Bool-cases (x.ttl_ms == 0)) [
        | inl none_left ↦ absurd (let z = rw (own, forth, none_left) at h in cc)
        | inr some_left ↦
            let z = rw (own, forth, some_left) at h in
            let e : x ≡ claim = ok_claim x claim z in
            let signed = same_signer_sound (SignerId.ed x.holder) env.signer own in
            (
              e,
              sym signed ∙ ap (λ (y : Claim). SignerId.ed y.holder) e,
              subst (λ (y : Claim). is_lt y.renewed y.acquired ≡ false) e forth,
              subst (λ (y : Claim). y.ttl_ms ≢ 0) e (λ q. ground arith),
            )
      ]
    ]
  ]

  -- An envelope is taken in only if it verifies and decodes to a claim that its own signer holds, with
  -- a renewal that is not before the acquisition, and a lifetime that is not zero.
  pub ingest_admits :
      (set : ClaimSet) (env : Envelope) (q : ClaimSet × Ingest)
      → ingest c codec set env ≡ ok q
      → (claim : Claim) × (open_envelope c codec env none ≡ ok claim)
        × (env.signer ≡ SignerId.ed claim.holder)
        × (is_lt claim.renewed claim.acquired ≡ false)
        × (claim.ttl_ms ≢ 0)
  unfolding ingest
  ingest_admits set env q h =
      let (opened, o, rest) =
        bind_ok (map_err ClaimError.envelope (open_envelope c codec env none)) _ q h in
      let (claim, a, last) = bind_ok (admit c codec env opened) _ q rest in
      let checks = admit-checks env opened claim a in
      (
        claim,
        map_err_ok ClaimError.envelope (open_envelope c codec env none) opened o ∙ ap ok checks.0,
        checks.1,
        checks.2,
        checks.3,
      )
