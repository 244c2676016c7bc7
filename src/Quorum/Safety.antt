-- ===== src/Quorum/Safety.antt =====
-- Election safety of crates/rf-core/src/quorum.rs: at most one leader in each epoch, whatever the
-- network and the drivers do.
use randall_flare.Prelude.{
  ℕ, ◌≡◌, inl, inr, refl, ap, sym, ◌∙◌, subst, true, List, [], ◌∷◌, ◌++◌, arith, length, Bool-cases,
  add_u64,
}
use randall_flare.Prelude.Order.{Bytes}
use randall_flare.Prelude.Result.{ok}
use randall_flare.Prelude.Members.{In, All-In, majorities_meet}
use randall_flare.Identity.{PublicId, same_id}
use randall_flare.Quorum.State.{install_snapshot, Action, send, Raft, is_leader, compact, last}
use randall_flare.Quorum.Leading.{heartbeat, propose, append_command}
use randall_flare.Quorum.Frames.{
  advance_commit-SameTerm, advance_commit-role, SameTerm, SameTerm-refl,
}
use randall_flare.Quorum.Quiet.{quiet, heartbeat-quiet, append_command-quiet}
use randall_flare.Quorum.Ballots.{same_id_self, same_id_sound}
use randall_flare.Quorum.Cluster.{
  Cluster, after, Step, deliver, elect, beat, submit, trim, ship, restart, Reach, start, next,
}
use randall_flare.Quorum.Election.{grant, Cast, Inv}
use randall_flare.Quorum.Moves.{Keeps-same, init-Inv, handle-Inv, elect-Inv, idle-Inv, restart-Inv}

append_command-SameTerm : (r : Raft) (cmd : Bytes) → SameTerm r (append_command r cmd).0
unfolding append_command
append_command-SameTerm r cmd =
    let seq = add_u64 (last r).1 1 in
    let r' = record r { log = r.log ++ record { epoch = r.epoch; seq = seq; cmd = cmd } ∷ [] } in
    ground (arith, advance_commit-SameTerm r')

append_command-role : (r : Raft) (cmd : Bytes) → (append_command r cmd).0.role ≡ r.role
unfolding append_command
append_command-role r cmd = advance_commit-role _

propose-accepts :
    (r : Raft) (cmd : Bytes) (q : Raft × ℕ × List Action)
    → propose r cmd ≡ ok q
    → append_command r cmd ≡ q
unfolding propose
propose-accepts r cmd q h = ground arith

compact-fields : (r : Raft) (k : ℕ) → SameTerm r (compact r k).0 × ((compact r k).0.role ≡ r.role)
unfolding compact
compact-fields r k = ground arith

module _ (members : List PublicId) where
  step_alone :
      (c : Cluster) (inv : Inv members c) (i : PublicId) (mem : In i members) (s : Raft)
      (actions : List Action)
      → SameTerm (c.node i) s
      → s.role ≡ (c.node i).role
      → quiet actions ≡ true
      → Inv members (after c i s actions)
  step_alone c inv i mem s actions h ro q =
      idle-Inv members c inv i mem s actions
        (Keeps-same (c.node i) s h.same_me (ap length h.same_group) h.same_epoch h.same_vote)
        h.same_me ro h.same_epoch h.same_vote q

  Step-Inv : (c d : Cluster) → Inv members c → Step members c d → Inv members d
  Step-Inv c _ inv (deliver p s actions sent mem h) =
      subst (λ (q : Raft × List Action). Inv members (after c p.to q.0 q.1)) h
        (handle-Inv members c inv p.to mem p.from p.msg sent)
  Step-Inv c _ inv (elect i s actions mem room h) =
      subst (λ (q : Raft × List Action). Inv members (after c i q.0 q.1)) h
        (elect-Inv members c inv i mem room)
  Step-Inv c _ inv (beat i mem) =
      step_alone c inv i mem (c.node i) (heartbeat (c.node i)) (SameTerm-refl (c.node i)) refl
        (heartbeat-quiet (c.node i))
  Step-Inv c _ inv (submit i cmd s seq actions mem h) =
      subst (λ (q : Raft × ℕ × List Action). Inv members (after c i q.0 q.2))
        (propose-accepts (c.node i) cmd (s, seq, actions) h)
        (step_alone c inv i mem (append_command (c.node i) cmd).0 (append_command (c.node i) cmd).2
          (append_command-SameTerm (c.node i) cmd) (append_command-role (c.node i) cmd)
          (append_command-quiet (c.node i) cmd))
  Step-Inv c _ inv (trim i keep_tail mem) =
      let (same, ro) = compact-fields (c.node i) keep_tail in
      step_alone c inv i mem _ [] same ro refl
  Step-Inv c _ inv (ship i to epoch last_seq last_epoch state mem) =
      step_alone c inv i mem (c.node i)
        (send to (install_snapshot epoch last_seq last_epoch state) ∷ []) (SameTerm-refl (c.node i))
        refl refl
  Step-Inv c _ inv (restart i base_seq base_epoch log applied mem) =
      restart-Inv members c inv i mem base_seq base_epoch log applied

  Reach-Inv : (c : Cluster) → Reach members c → Inv members c
  Reach-Inv _ start = init-Inv members
  Reach-Inv _ (next {c} {d} r st) = Step-Inv c d (Reach-Inv c r) st

  -- One voter of two winners of an epoch makes them the same.
  one_winner :
      (c : Cluster) (i j v : PublicId) (e : ℕ)
      → Inv members c
      → In (i, e) c.won
      → In (j, e) c.won
      → Cast members c.sent i e v
      → Cast members c.sent j e v
      → i ≡ j
  one_winner c i j v e inv w x (m, inl a) (n, inl b) = sym a ∙ b
  one_winner c i j v e inv w x (m, inl a) (n, inr b) =
      sym (inv.self_vote i j e w (subst (λ z. In (grant z j e) c.sent) a b))
  one_winner c i j v e inv w x (m, inr a) (n, inl b) =
      inv.self_vote j i e x (subst (λ z. In (grant z i e) c.sent) b a)
  one_winner c i j v e inv w x (m, inr a) (n, inr b) = inv.one_vote v i j e a b

  -- In every run of a group, whatever messages are delayed, repeated or lost and whichever nodes
  -- restart from their stored epoch and vote, with any log, at most one node ever becomes leader in
  -- an epoch. A node stands for election while its epoch counter has room.
  pub election_safety :
      (c : Cluster) (i j : PublicId) (e : ℕ)
      → Reach members c
      → In (i, e) c.won
      → In (j, e) c.won
      → i ≡ j
  election_safety c i j e run w x = elim (Bool-cases (same_id i j)) [
    | inl this ↦ same_id_sound i j this
    | inr other ↦
        let inv = Reach-Inv c run in
        let a = inv.winners i e w in
        let b = inv.winners j e x in
        absurd (
          majorities_meet members a.votes b.votes a.different b.different
            (λ v h. (All-In (Cast members c.sent i e) v a.votes a.all_cast h).0)
            (λ v h. (All-In (Cast members c.sent j e) v b.votes b.all_cast h).0) a.enough b.enough
            (λ v h k.
              let p =
                one_winner c i j v e inv w x
                  (All-In (Cast members c.sent i e) v a.votes a.all_cast h)
                  (All-In (Cast members c.sent j e) v b.votes b.all_cast k) in
              let q : same_id i j ≡ true = rw p (same_id_self j) in cc))
  ]

  -- In every cluster that such a run reaches, two members that lead in the same epoch are the same.
  pub one_leader :
      (c : Cluster) (i j : PublicId)
      → Reach members c
      → In i members
      → In j members
      → is_leader (c.node i) ≡ true
      → is_leader (c.node j) ≡ true
      → (c.node i).epoch ≡ (c.node j).epoch
      → i ≡ j
  one_leader c i j run m n l k e =
      let inv = Reach-Inv c run in
      election_safety c i j (c.node i).epoch run (inv.leaders i m l)
        (subst (λ x. In (j, x) c.won) (sym e) (inv.leaders j n k))
