-- ===== src/Quorum/Heartbeat.antt =====
-- What a leader of crates/rf-core/src/quorum.rs sends to a node that it takes to have its whole log.
use randall_flare.Prelude.{
  ℕ, zero, suc, subst, ◌+◌, ◌-◌, ◌<◌, ◌≡◌, ◌∙◌, sym, ap, refl, some, false, List, [], ◌∷◌, map,
  arith, ltb, leb, ◌==◌, length, filter, inl, inr, u64_mod, sub_u64, Option-cases, get_elem?,
  get_last?, if◌then◌else◌,
}
use randall_flare.Prelude.Members.{In}
use randall_flare.Identity.{PublicId}
use randall_flare.Quorum.State.{
  Entry, append, Action, Role, leading, is_leading, Raft, last, entry, epoch_at,
}
use randall_flare.Quorum.Leading.{replicate_to, replicate_all, heartbeat}
use randall_flare.Quorum.LogShape.{IsWellFormed, Contiguous, last-length}

last_some : (r : Raft) (x : Entry) → get_last? r.log ≡ some x → last r ≡ (x.epoch, x.seq)
unfolding last
last_some r x e = rw (e, last) refl

last_get :
    (es : List Entry) (x : Entry) (n : ℕ)
    → length es ≡ suc n
    → get_last? es ≡ some x
    → get_elem? es n ≡ some x
last_get [] x n e h = absurd (omega arith)
last_get (y ∷ []) x zero e h = h
last_get (y ∷ []) x (suc n) e h = absurd (omega arith)
last_get (y ∷ z ∷ es) x zero e h = absurd (omega arith)
last_get (y ∷ z ∷ es) x (suc n) e h = last_get (z ∷ es) x n (omega arith) h

last_full : (es : List Entry) (x : Entry) → get_last? es ≡ some x → length es ≡ suc (length es - 1)
last_full [] x h = absurd (cc)
last_full (e ∷ es) x h = omega arith

epoch_at-last : (r : Raft) → Contiguous r.base_seq r.log → epoch_at r (last r).1 ≡ some (last r).0
unfolding epoch_at last entry
epoch_at-last r c = elim (Option-cases (get_last? r.log)) [
  | inl e ↦ rw (e, last) (ground arith)
  | inr (x, e) ↦
      let top : x.seq ≡ r.base_seq + length r.log =
        ap (λ (p : ℕ × ℕ). p.1) (sym (last_some r x e)) ∙ last-length r c in
      let full : length r.log ≡ suc (length r.log - 1) = last_full r.log x e in
      let at : x.seq - r.base_seq - 1 ≡ length r.log - 1 = omega (arith, top) in
      let held : get_elem? r.log (x.seq - r.base_seq - 1) ≡ some x =
        subst (λ n. get_elem? r.log n ≡ some x) (sym at)
          (last_get r.log x (length r.log - 1) full e) in
      let past : (x.seq == r.base_seq) ≡ false = ground (arith, top, full) in
      let above : leb x.seq r.base_seq ≡ false = ground (arith, top, full) in
      rw (last_some r x e, epoch_at, past, entry, above, held) refl
]

filter_past :
    (s n : ℕ) (es : List Entry)
    → Contiguous s es
    → s + length es < n
    → filter (λ (e : Entry). leb n e.seq) es ≡ []
unfolding filter
filter_past s n [] c h = refl
filter_past s n (e ∷ es) c h =
    let rest = filter_past (suc s) n es c.1 (omega (arith, h)) in ground (arith, rest, c.0, h)

map-In : {A B : Type 0} (f : A → B) (x : A) (xs : List A) → In x xs → In (f x) (map f xs)
map-In f x [] i = absurd i
map-In f x (y ∷ ys) (inl e) = inl (ap f e)
map-In f x (y ∷ ys) (inr i) = inr (map-In f x ys i)

replicate_to-append :
    (l : Raft) (to : PublicId)
    → IsWellFormed l
    → (last l).1 + 1 < u64_mod
    → replicate_to l (to, (last l).1 + 1)
      ≡ Action.send to (append l.epoch (last l).1 (last l).0 [] l.commit)
unfolding replicate_to
replicate_to-append l to w small =
    let top = last-length l w.contiguous in
    let prev : sub_u64 ((last l).1 + 1) 1 ≡ (last l).1 = omega (arith, small) in
    let above : ltb (last l).1 l.base_seq ≡ false = ground (arith, top) in
    let none_left =
      filter_past l.base_seq ((last l).1 + 1) l.log w.contiguous (omega (arith, top)) in
    rw (replicate_to, prev, above, epoch_at-last l w.contiguous, none_left) refl

leading_heartbeat :
    (l : Raft) (next matched : List (PublicId × ℕ))
    → l.role ≡ leading next matched
    → heartbeat l ≡ map (replicate_to l) next
unfolding heartbeat replicate_all
leading_heartbeat l next matched ro =
    ap
      (λ (role : Role).
        if is_leading role
        then (elim role as (λ _. List Action) [
          | leading next matched ↦ map (replicate_to l) next
          | _ ↦ []
        ])
        else [])
      ro

-- A leader's heartbeat has an append without entries, up to the end of its log, for a node that it takes
-- to have its whole log.
pub heartbeat-In :
    (l : Raft) (to : PublicId) (next matched : List (PublicId × ℕ))
    → IsWellFormed l
    → l.role ≡ leading next matched
    → (last l).1 + 1 < u64_mod
    → In {A = PublicId × ℕ} (to, (last l).1 + 1) next
    → In (Action.send to (append l.epoch (last l).1 (last l).0 [] l.commit)) (heartbeat l)
heartbeat-In l to next matched w ro small i =
    let sent = map-In (replicate_to l) (to, (last l).1 + 1) next i in
    let here =
      subst (λ a. In a (map (replicate_to l) next)) (replicate_to-append l to w small) sent in
    subst (In (Action.send to (append l.epoch (last l).1 (last l).0 [] l.commit)))
      (sym (leading_heartbeat l next matched ro)) here
