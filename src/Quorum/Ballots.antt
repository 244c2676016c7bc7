-- ===== src/Quorum/Ballots.antt =====
-- The votes of a node of crates/rf-core/src/quorum.rs, and steps that count or give votes fairly.
use randall_flare.Prelude.{
  ℕ, ◌≤◌, ◌≡◌, inl, inr, refl, ap, ◌∙◌, sym, subst, is_none, some, Bool, true, false, List, [], ◌∷◌,
  ◌++◌, All, arith, length, any, ltb, Bool-cases, Option-cases, ◌||◌,
}
use randall_flare.Prelude.Order.{bytes_ord}
use randall_flare.Prelude.Members.{In, Distinct}
use randall_flare.Identity.{PublicId, same_id}
use randall_flare.Quorum.State.{
  vote_req, vote_resp, append, append_resp, install_snapshot, Action, Role, follower, candidate,
  leading, Raft, is_leader, is_leading, majority, contains,
}
use randall_flare.Quorum.Leading.{replicate_all, count_votes, take_office}
use randall_flare.Quorum.Handling.{answer_vote, cast_vote, is_vote}
use randall_flare.Quorum.Cluster.{elected}
use randall_flare.Quorum.Quiet.{quiet, quiet-elected, replicate_all-quiet}
use randall_flare.Quorum.Steady.{Steady, down, same, leads}

-- A vote for the candidate in its present epoch, as `P` has it.
module _ (P : PublicId → Type 0) where
  pub record VoteSet (r : Raft) (votes : List PublicId) : Type 0 where
    pub own : r.voted_for ≡ some r.me
    pub distinct : Distinct votes
    pub cast : All P votes

  abbrev pub Running : Raft → Role → Type 0
  Running r (candidate votes) = VoteSet r votes
  Running r _ = Unit

-- What an action says of the votes of a node that has become `s`.
abbrev pub Granted : Raft → Action → Type 0
Granted s (Action.send to (vote_resp epoch true)) = (epoch ≡ s.epoch) × (s.voted_for ≡ some to)
Granted s _ = Unit

-- One step of a node from `r` to `s`, if `P` holds of the votes of `s` in its epoch.
pub record Fair (P : PublicId → Type 0) (r s : Raft) (actions : List Action) : Type 0 where
  pub grants : All (Granted s) actions
  pub running : Running P s s.role
  pub wins_fairly :
      elected actions ≡ true
      → (votes : List PublicId) × VoteSet P s votes × (majority s ≤ length votes)
  pub leads_fairly :
      is_leader s ≡ true → elected actions ≡ false → (is_leader r ≡ true) × (s.epoch ≡ r.epoch)

pub Granted-quiet :
    (s : Raft) (actions : List Action) → quiet actions ≡ true → All (Granted s) actions
Granted-quiet s [] h = tt
Granted-quiet s (Action.send to (vote_resp e g) ∷ rest) h = absurd (cc)
Granted-quiet s (Action.became_leader ∷ rest) h = absurd (cc)
Granted-quiet s (Action.send to (vote_req a b c) ∷ rest) h = (tt, Granted-quiet s rest h)
Granted-quiet s (Action.send to (append a b c d e) ∷ rest) h = (tt, Granted-quiet s rest h)
Granted-quiet s (Action.send to (append_resp a b c) ∷ rest) h = (tt, Granted-quiet s rest h)
Granted-quiet s (Action.send to (install_snapshot a b c d) ∷ rest) h = (tt, Granted-quiet s rest h)
Granted-quiet s (Action.persist_meta ∷ rest) h = (tt, Granted-quiet s rest h)
Granted-quiet s (Action.persist_log n ∷ rest) h = (tt, Granted-quiet s rest h)
Granted-quiet s (Action.apply n ∷ rest) h = (tt, Granted-quiet s rest h)
Granted-quiet s (Action.apply_snapshot n b ∷ rest) h = (tt, Granted-quiet s rest h)
Granted-quiet s (Action.need_snapshot to ∷ rest) h = (tt, Granted-quiet s rest h)
Granted-quiet s (Action.lost_leadership ∷ rest) h = (tt, Granted-quiet s rest h)

pub same_id_self : (a : PublicId) → same_id a a ≡ true
unfolding same_id
same_id_self a = ground (arith, bytes_ord.cmp_self a.bytes)

pub same_id_sound : (a b : PublicId) → same_id a b ≡ true → a ≡ b
unfolding same_id
same_id_sound a b h = ground (arith, bytes_ord.cmp_eq a.bytes b.bytes)

pub contains_all :
    (votes : List PublicId) (v : PublicId) → contains votes v ≡ false → In v votes → ⊥
unfolding contains any
contains_all [] v h i = i
contains_all (w ∷ votes) v h (inl e) =
    let self : same_id w v ≡ true = rw e (same_id_self w) in ground arith
contains_all (w ∷ votes) v h (inr i) = contains_all votes v (ground arith) i

pub elected-append : (xs ys : List Action) → elected (xs ++ ys) ≡ (elected xs || elected ys)
elected-append [] ys = refl
elected-append (Action.became_leader ∷ xs) ys = refl
elected-append (Action.send to msg ∷ xs) ys = elected-append xs ys
elected-append (Action.persist_meta ∷ xs) ys = elected-append xs ys
elected-append (Action.persist_log n ∷ xs) ys = elected-append xs ys
elected-append (Action.apply n ∷ xs) ys = elected-append xs ys
elected-append (Action.apply_snapshot n b ∷ xs) ys = elected-append xs ys
elected-append (Action.need_snapshot to ∷ xs) ys = elected-append xs ys
elected-append (Action.lost_leadership ∷ xs) ys = elected-append xs ys

pub elected_append : (xs ys : List Action) → quiet xs ≡ true → elected (xs ++ ys) ≡ elected ys
elected_append xs ys q = rw (elected-append, quiet-elected xs q)

module _ (P : PublicId → Type 0) where
  pub Running-same :
      (r s : Raft) (role : Role)
      → s.voted_for ≡ r.voted_for
      → s.me ≡ r.me
      → Running P r role
      → Running P s role
  Running-same r s (candidate votes) e f h = record {
    own = e ∙ h.own ∙ ap some (sym f);
    distinct = h.distinct;
    cast = h.cast;
  }
  Running-same r s follower e f h = tt
  Running-same r s (leading next matched) e f h = tt

  pub Running-leading : (s : Raft) (role : Role) → is_leading role ≡ true → Running P s role
  Running-leading s follower h = tt
  Running-leading s (candidate votes) h = absurd (cc)
  Running-leading s (leading next matched) h = tt

  pub Running-Steady :
      (r s : Raft)
      → Steady r s
      → s.me ≡ r.me
      → (s.epoch ≡ r.epoch → Running P r r.role)
      → Running P s s.role
  Running-Steady r s (down e) f h = subst (Running P s) (sym e) tt
  Running-Steady r s (same e p q) f h =
      subst (Running P s) (sym e) (Running-same r s r.role q f (h p))
  Running-Steady r s (leads a b p) f h = Running-leading s s.role b

  pub leads-Steady :
      (r s : Raft) → Steady r s → is_leader s ≡ true → (is_leader r ≡ true) × (s.epoch ≡ r.epoch)
  leads-Steady r s (down e) h = absurd (let p : is_leader s ≡ false = ap is_leading e in cc)
  leads-Steady r s (same e p q) h = (ap is_leading (sym e) ∙ h, p)
  leads-Steady r s (leads a b p) h = (a, p)

  -- A step that counts no vote and grants none is fair.
  pub Fair-quiet :
      (r s : Raft) (actions : List Action)
      → Steady r s
      → s.me ≡ r.me
      → quiet actions ≡ true
      → (s.epoch ≡ r.epoch → Running P r r.role)
      → Fair P r s actions
  Fair-quiet r s actions st f q h = record {
    grants = Granted-quiet s actions q;
    running = Running-Steady r s st f h;
    wins_fairly = λ e. absurd (let n = quiet-elected actions q in cc);
    leads_fairly = λ l e. leads-Steady r s st l;
  }

  pub count_votes-Fair :
      (r r' : Raft) (votes : List PublicId)
      → r.role ≡ candidate votes
      → VoteSet P r votes
      → Fair P r' (count_votes r votes).0 (count_votes r votes).1
  unfolding count_votes take_office
  count_votes-Fair r r' votes e v = elim (Bool-cases (ltb (length votes) (majority r))) [
    | inl few ↦ rw few (record {
      grants = tt;
      running = subst (Running P r) (sym e) v;
      wins_fairly = λ q. absurd (cc);
      leads_fairly = λ l q. absurd (let p : is_leader r ≡ false = ap is_leading e in cc);
    })
    | inr many ↦ rw many (record {
      grants = (
        tt,
        Granted-quiet (take_office r) (replicate_all (take_office r))
            (replicate_all-quiet (take_office r)),
      );
      running = tt;
      wins_fairly = λ q. (
        votes,
        record { own = v.own; distinct = v.distinct; cast = v.cast },
        unfold majority in ground arith,
      );
      leads_fairly = λ l q. absurd (cc);
    })
  ]

  pub voting_stays :
      (r : Raft) (from : PublicId) (role : Role)
      → Running P r role
      → is_none r.voted_for ≡ true
      → Running P (record r { voted_for = some from }) role
  voting_stays r from (candidate votes) h n = absurd (let o = h.own in ground arith)
  voting_stays r from follower h n = tt
  voting_stays r from (leading next matched) h n = tt

  pub cast_vote-Fair :
      (r : Raft) (from : PublicId) (granted : Bool)
      → Running P r r.role
      → (granted ≡ true → (is_none r.voted_for || is_vote r.voted_for from) ≡ true)
      → Fair P r (cast_vote r from granted).0 (cast_vote r from granted).1
  unfolding cast_vote
  cast_vote-Fair r from false h f = record {
    grants = (tt, tt);
    running = h;
    wins_fairly = λ e. absurd (cc);
    leads_fairly = λ l e. (l, refl);
  }
  cast_vote-Fair r from true h f = elim (Option-cases r.voted_for) [
    | inl free ↦
        let n : is_none r.voted_for ≡ true = ap is_none free in
        rw n (record {
          grants = (tt, ((refl, refl), tt));
          running = voting_stays r from r.role h n;
          wins_fairly = λ e. absurd (cc);
          leads_fairly = λ l e. (l, refl);
        })
    | inr (v, given) ↦
        let n : is_none r.voted_for ≡ false = ap is_none given in
        let e : v ≡ from = same_id_sound v from (ground (arith, f refl)) in
        rw n (record {
          grants = ((refl, given ∙ ap some e), tt);
          running = h;
          wins_fairly = λ q. absurd (cc);
          leads_fairly = λ l q. (l, refl);
        })
  ]

  pub answer_vote-Fair :
      (r : Raft) (from : PublicId) (epoch last_epoch last_seq : ℕ)
      → Running P r r.role
      → let (s, actions) = answer_vote r from epoch last_epoch last_seq in Fair P r s actions
  unfolding answer_vote
  answer_vote-Fair r from epoch last_epoch last_seq h =
      cast_vote-Fair r from _ h (λ q. ground arith)
