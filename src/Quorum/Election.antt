-- ===== src/Quorum/Election.antt =====
-- Election safety of crates/rf-core/src/quorum.rs over a whole group: the invariant of the votes that
-- were sent, and its preservation by every step.
use randall_flare.Prelude.{
  ℕ, ◌+◌, ◌/◌, ◌≤◌, ◌<◌, ◌≡◌, ◌⊎◌, inl, inr, sym, ◌∙◌, Option, some, true, false, List, [], ◌∷◌,
  All, arith, length, dec_lt,
}
use randall_flare.Prelude.Members.{In, Distinct}
use randall_flare.Identity.{PublicId}
use randall_flare.Quorum.State.{
  vote_req, vote_resp, append, append_resp, install_snapshot, Action, Role, follower, candidate,
  leading, Raft, is_leader,
}
use randall_flare.Quorum.Ballots.{Running, Granted}
use randall_flare.Quorum.Cluster.{Packet, Cluster, packets}

abbrev pub grant : PublicId → PublicId → ℕ → Packet
grant v to e = record { from = v; to = to; msg = vote_resp e true }

-- The vote of epoch `e` went to `to`, as far as the node still knows.
abbrev pub Held : Raft → ℕ → PublicId → Type 0
Held r e to = (e < r.epoch) ⊎ ((e ≡ r.epoch) × (r.voted_for ≡ some to))

-- What a step may do to epoch and vote.
pub record Keeps (r s : Raft) : Type 0 where
  pub keeps_me : s.me ≡ r.me
  pub keeps_group : length s.group ≡ length r.group
  pub keeps_epoch : r.epoch ≤ s.epoch
  pub keeps_vote : (v : PublicId) → s.epoch ≡ r.epoch → r.voted_for ≡ some v → s.voted_for ≡ some v

pub Held-Keeps : (r s : Raft) (e : ℕ) (to : PublicId) → Keeps r s → Held r e to → Held s e to
Held-Keeps r s e to k (inl lt) = inl (omega (arith, k.keeps_epoch))
Held-Keeps r s e to k (inr h) = elim (dec_lt r.epoch s.epoch) [
  | yes up ↦ inl (omega (arith, h.0))
  | no level ↦
      let same : s.epoch ≡ r.epoch = omega (arith, k.keeps_epoch) in
      inr (h.0 ∙ sym same, k.keeps_vote to same h.1)
]

pub Held-now :
    (s : Raft) (e : ℕ) (to : PublicId) → e ≡ s.epoch → Held s e to → s.voted_for ≡ some to
Held-now s e to h (inl lt) = absurd (omega arith)
Held-now s e to h (inr p) = p.1

pub some_inj : (a b : PublicId) (o : Option PublicId) → o ≡ some a → o ≡ some b → a ≡ b
some_inj a b o p q = cc

pub packets-grant :
    (i : PublicId) (s : Raft) (actions : List Action) (v to : PublicId) (e : ℕ)
    → All (Granted s) actions
    → In (grant v to e) (packets i actions)
    → (v ≡ i) × (e ≡ s.epoch) × (s.voted_for ≡ some to)
packets-grant i s [] v to e g h = elim h [ ]
packets-grant i s (Action.send t (vote_resp x true) ∷ rest) v to e g (inl p) = ground arith
packets-grant i s (Action.send t (vote_resp x false) ∷ rest) v to e g (inl p) = absurd (cc)
packets-grant i s (Action.send t (vote_req a b c) ∷ rest) v to e g (inl p) = absurd (cc)
packets-grant i s (Action.send t (append a b c d f) ∷ rest) v to e g (inl p) = absurd (cc)
packets-grant i s (Action.send t (append_resp a b c) ∷ rest) v to e g (inl p) = absurd (cc)
packets-grant i s (Action.send t (install_snapshot a b c d) ∷ rest) v to e g (inl p) = absurd (cc)
packets-grant i s (Action.send t m ∷ rest) v to e g (inr h) = packets-grant i s rest v to e g.1 h
packets-grant i s (Action.persist_meta ∷ rest) v to e g h = packets-grant i s rest v to e g.1 h
packets-grant i s (Action.persist_log n ∷ rest) v to e g h = packets-grant i s rest v to e g.1 h
packets-grant i s (Action.apply n ∷ rest) v to e g h = packets-grant i s rest v to e g.1 h
packets-grant i s (Action.apply_snapshot n b ∷ rest) v to e g h =
    packets-grant i s rest v to e g.1 h
packets-grant i s (Action.need_snapshot t ∷ rest) v to e g h = packets-grant i s rest v to e g.1 h
packets-grant i s (Action.became_leader ∷ rest) v to e g h = packets-grant i s rest v to e g.1 h
packets-grant i s (Action.lost_leadership ∷ rest) v to e g h = packets-grant i s rest v to e g.1 h

pub All-map :
    (P Q : PublicId → Type 0) (vs : List PublicId)
    → ((v : PublicId) → P v → Q v)
    → All P vs
    → All Q vs
All-map P Q [] f h = tt
All-map P Q (v ∷ vs) f h = (f v h.0, All-map P Q vs f h.1)

pub Running-map :
    (P Q : PublicId → Type 0) (r : Raft) (role : Role)
    → ((v : PublicId) → P v → Q v)
    → Running P r role
    → Running Q r role
Running-map P Q r follower f h = tt
Running-map P Q r (leading next matched) f h = tt
Running-map P Q r (candidate votes) f h = record {
  own = h.own;
  distinct = h.distinct;
  cast = All-map P Q votes f h.cast;
}

module _ (members : List PublicId) where
  -- `v` is a member that voted for `i` in epoch `e`: itself, or by a message.
  abbrev pub Cast : List Packet → PublicId → ℕ → PublicId → Type 0
  Cast sent i e v = In v members × ((v ≡ i) ⊎ In (grant v i e) sent)

  pub record Winner (c : Cluster) (i : PublicId) (e : ℕ) : Type 0 where
    pub member : In i members
    pub own_vote : Held (c.node i) e i
    pub votes : List PublicId
    pub different : Distinct votes
    pub all_cast : All (Cast c.sent i e) votes
    pub enough : length members / 2 + 1 ≤ length votes

  pub record Inv (c : Cluster) : Type 0 where
    pub fixed_me : (i : PublicId) → In i members → (c.node i).me ≡ i
    pub fixed_group : (i : PublicId) → In i members → length (c.node i).group ≡ length members
    pub granted :
        (v to : PublicId) (e : ℕ) → In (grant v to e) c.sent → In v members × Held (c.node v) e to
    pub one_vote :
        (v a b : PublicId) (e : ℕ) → In (grant v a e) c.sent → In (grant v b e) c.sent → a ≡ b
    pub running :
        (i : PublicId)
        → In i members
        → Running (Cast c.sent i (c.node i).epoch) (c.node i) (c.node i).role
    pub winners : (i : PublicId) (e : ℕ) → In (i, e) c.won → Winner c i e
    pub self_vote : (i to : PublicId) (e : ℕ) → In (i, e) c.won → In (grant i to e) c.sent → to ≡ i
    pub leaders :
        (i : PublicId) → In i members → is_leader (c.node i) ≡ true → In (i, (c.node i).epoch) c.won
