-- ===== src/Quorum/ElectionSteps.antt =====
-- Every step of a group of nodes of crates/rf-core/src/quorum.rs keeps the invariant of its votes.
use randall_flare.Prelude.{
  ℕ, ◌≡◌, ◌⊎◌, inl, inr, refl, ap, sym, ◌∙◌, subst, some, Bool, true, false, List, [], ◌∷◌, ◌++◌,
  arith, length, Bool-cases, if◌then◌else◌,
}
use randall_flare.Prelude.Members.{In, In-append, In-append_right}
use randall_flare.Identity.{PublicId, same_id}
use randall_flare.Quorum.State.{Action, Raft, is_leader, majority}
use randall_flare.Quorum.Ballots.{Running, Fair, same_id_self, same_id_sound}
use randall_flare.Quorum.Cluster.{Cluster, packets, elected, wins, after}
use randall_flare.Quorum.Election.{
  grant, Held, Keeps, Held-Keeps, Held-now, some_inj, packets-grant, All-map, Running-map, Cast,
  Winner, Inv,
}

split_win :
    (b : Bool) (p q : PublicId × ℕ) (rest : List (PublicId × ℕ))
    → In p ((if b then q ∷ [] else []) ++ rest)
    → ((b ≡ true) × (p ≡ q)) ⊎ In p rest
split_win true p q rest (inl e) = inl (refl, e)
split_win true p q rest (inr h) = inr h
split_win false p q rest h = inr h

win_now :
    (b : Bool) (q : PublicId × ℕ) (rest : List (PublicId × ℕ))
    → b ≡ true
    → In q ((if b then q ∷ [] else []) ++ rest)
win_now true q rest e = inl refl
win_now false q rest e = absurd (cc)

module _ (members : List PublicId) (c : Cluster) (inv : Inv members c) (i : PublicId)
    (mem : In i members) (s : Raft) (actions : List Action) (k : Keeps (c.node i) s)
    (f : Fair (Cast members (packets i actions ++ c.sent) i s.epoch) (c.node i) s actions) where
  abbrev d : Cluster
  d = after c i s actions

  -- What holds of the moved node, and of every other as it was, holds of each after the step.
  pick : (Q : PublicId → Raft → Type 0) (j : PublicId) → Q i s → Q j (c.node j) → Q j (d.node j)
  pick Q j h q = elim (Bool-cases (same_id i j)) [
    | inl this ↦ rw this (subst (λ x. Q x s) (same_id_sound i j this) h)
    | inr other ↦ rw other q
  ]

  node_at : d.node i ≡ s
  node_at = rw (same_id_self i)

  at : (Q : Raft → Type 0) → Q s → Q (d.node i)
  at Q h = subst Q (sym node_at) h

  held : (v to : PublicId) (e : ℕ) → Held (c.node v) e to → Held (d.node v) e to
  held v to e h = elim (Bool-cases (same_id i v)) [
    | inr other ↦ rw other h
    | inl this ↦
        let p = same_id_sound i v this in
        rw this (Held-Keeps (c.node i) s e to k (subst (λ x. Held (c.node x) e to) (sym p) h))
  ]

  -- A vote in a message is an old one, or one that the moved node has just given.
  fresh :
      (v to : PublicId) (e : ℕ)
      → In (grant v to e) d.sent
      → ((v ≡ i) × (e ≡ s.epoch) × (s.voted_for ≡ some to)) ⊎ In (grant v to e) c.sent
  fresh v to e h = elim (In-append (grant v to e) (packets i actions) c.sent h) [
    | inl new ↦ inl (packets-grant i s actions v to e f.grants new)
    | inr old ↦ inr old
  ]

  granted' :
      (v to : PublicId) (e : ℕ) → In (grant v to e) d.sent → In v members × Held (d.node v) e to
  granted' v to e h = elim (fresh v to e h) [
    | inl new ↦ (
      subst (λ x. In x members) (sym new.0) mem,
      subst (λ x. Held (d.node x) e to) (sym new.0) (at (λ r. Held r e to) (inr (new.1, new.2))),
    )
    | inr old ↦ let (m, h') = inv.granted v to e old in (m, held v to e h')
  ]

  -- A vote of the moved node for its present epoch is the one that it holds.
  now :
      (v to : PublicId) (e : ℕ)
      → v ≡ i
      → e ≡ s.epoch
      → In (grant v to e) d.sent
      → s.voted_for ≡ some to
  now v to e p q h = Held-now s e to q (
      subst (λ (r : Raft). Held r e to) node_at
        (subst (λ x. Held (d.node x) e to) p (granted' v to e h).1))

  one_vote' : (v a b : PublicId) (e : ℕ) → In (grant v a e) d.sent → In (grant v b e) d.sent → a ≡ b
  one_vote' v a b e g h = elim (fresh v a e g) [
    | inl new ↦ some_inj a b s.voted_for new.2 (now v b e new.0 new.1 h)
    | inr old ↦ elim (fresh v b e h) [
      | inl new ↦ some_inj a b s.voted_for (now v a e new.0 new.1 g) new.2
      | inr old' ↦ inv.one_vote v a b e old old'
    ]
  ]

  wider :
      (j : PublicId) (e : ℕ) (v : PublicId) → Cast members c.sent j e v → Cast members d.sent j e v
  wider j e v (m, inl own) = (m, inl own)
  wider j e v (m, inr sent) =
      (m, inr (In-append_right (grant v j e) (packets i actions) c.sent sent))

  running' :
      (j : PublicId)
      → In j members
      → Running (Cast members d.sent j (d.node j).epoch) (d.node j) (d.node j).role
  running' j m =
      pick (λ x r. Running (Cast members d.sent x r.epoch) r r.role) j f.running
        (Running-map (Cast members c.sent j (c.node j).epoch)
          (Cast members d.sent j (c.node j).epoch) (c.node j) (c.node j).role
          (wider j (c.node j).epoch) (inv.running j m))

  me_now : s.me ≡ i
  me_now = k.keeps_me ∙ inv.fixed_me i mem

  new-Winner : elected actions ≡ true → Winner members d i s.epoch
  unfolding majority
  new-Winner e =
      let (votes, v, n) = f.wins_fairly e in
      record {
        member = mem;
        own_vote = at (λ r. Held r s.epoch i) (inr (refl, v.own ∙ ap some me_now));
        votes = votes;
        different = v.distinct;
        all_cast = v.cast;
        enough = omega (arith, n, k.keeps_group, inv.fixed_group i mem);
      }

  old-Winner : (j : PublicId) (e : ℕ) → Winner members c j e → Winner members d j e
  old-Winner j e w = record {
    member = w.member;
    own_vote = held j j e w.own_vote;
    votes = w.votes;
    different = w.different;
    all_cast =
        All-map (Cast members c.sent j e) (Cast members d.sent j e) w.votes (wider j e) w.all_cast;
    enough = w.enough;
  }

  -- A win is an old one, or the one of this step.
  fresh_win :
      (j : PublicId) (e : ℕ)
      → In (j, e) d.won
      → ((elected actions ≡ true) × (j ≡ i) × (e ≡ s.epoch)) ⊎ In (j, e) c.won
  fresh_win j e h = elim (split_win (elected actions) (j, e) (i, s.epoch) c.won h) [
    | inl new ↦
        inl (new.0, ap (λ (p : PublicId × ℕ). p.0) new.1, ap (λ (p : PublicId × ℕ). p.1) new.1)
    | inr old ↦ inr old
  ]

  winners' : (j : PublicId) (e : ℕ) → In (j, e) d.won → Winner members d j e
  winners' j e h = elim (fresh_win j e h) [
    | inl new ↦
        subst (λ x. Winner members d x e) (sym new.1)
          (subst (λ n. Winner members d i n) (sym new.2) (new-Winner new.0))
    | inr old ↦ old-Winner j e (inv.winners j e old)
  ]

  -- Who wins in the present epoch of the moved node is the one that it voted for.
  own_now : (j : PublicId) (e : ℕ) → j ≡ i → e ≡ s.epoch → In (j, e) d.won → s.voted_for ≡ some j
  own_now j e p q h = Held-now s e j q (
      subst (λ (r : Raft). Held r e j) node_at
        (subst (λ x. Held (d.node x) e j) p (winners' j e h).own_vote))

  self_vote' : (j to : PublicId) (e : ℕ) → In (j, e) d.won → In (grant j to e) d.sent → to ≡ j
  self_vote' j to e w g = elim (fresh j to e g) [
    | inl new ↦ some_inj to j s.voted_for new.2 (own_now j e new.0 new.1 w)
    | inr old ↦ elim (fresh_win j e w) [
      | inl new ↦ some_inj to j s.voted_for (now j to e new.1 new.2 g) (own_now j e new.1 new.2 w)
      | inr old' ↦ inv.self_vote j to e old' old
    ]
  ]

  leaders_here : is_leader s ≡ true → In (i, s.epoch) d.won
  leaders_here l = elim (Bool-cases (elected actions)) [
    | inl won ↦ win_now (elected actions) (i, s.epoch) c.won won
    | inr none_won ↦
        let (led, same) = f.leads_fairly l none_won in
        In-append_right (i, s.epoch) (wins i s actions) c.won
          (subst (λ e. In (i, e) c.won) (sym same) (inv.leaders i mem led))
  ]

  leaders' :
      (j : PublicId) → In j members → is_leader (d.node j) ≡ true → In (j, (d.node j).epoch) d.won
  leaders' j m =
      pick (λ x r. is_leader r ≡ true → In (x, r.epoch) d.won) j leaders_here
        (λ l. In-append_right (j, (c.node j).epoch) (wins i s actions) c.won (inv.leaders j m l))

  -- A fair step of one node that keeps its vote keeps the invariant of the group.
  pub after-Inv : Inv members (after c i s actions)
  after-Inv = record {
    fixed_me = λ j m. pick (λ x r. r.me ≡ x) j me_now (inv.fixed_me j m);
    fixed_group = λ j m.
        pick (λ x r. length r.group ≡ length members) j (k.keeps_group ∙ inv.fixed_group i mem)
          (inv.fixed_group j m);
    granted = granted';
    one_vote = one_vote';
    running = running';
    winners = winners';
    self_vote = self_vote';
    leaders = leaders';
  }
