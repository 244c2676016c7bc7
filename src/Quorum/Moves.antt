-- ===== src/Quorum/Moves.antt =====
-- What a node of crates/rf-core/src/quorum.rs does on its own keeps the invariant of the votes of its
-- group.
use randall_flare.Prelude.{
  ℕ, ◌+◌, ◌<◌, ◌≡◌, inl, inr, refl, ap, sym, ◌∙◌, subst, true, List, [], ◌∷◌, ◌++◌, arith, length,
  u64_mod, any,
}
use randall_flare.Prelude.Members.{In, In-append_right}
use randall_flare.Identity.{PublicId, same_id}
use randall_flare.Quorum.State.{
  Entry, Msg, Action, Raft, new, restore, contains, insert_id, sort_ids,
}
use randall_flare.Quorum.Leading.{tick_election}
use randall_flare.Quorum.Handling.{handle}
use randall_flare.Quorum.Votes.{Sound, handle-Sound, tick_election-Sound}
use randall_flare.Quorum.Quiet.{quiet}
use randall_flare.Quorum.Steady.{down, same}
use randall_flare.Quorum.Ballots.{Running, Fair-quiet, same_id_self}
use randall_flare.Quorum.Campaign.{handle-Fair, tick_election-Fair}
use randall_flare.Quorum.Cluster.{Packet, Cluster, packets, after, init}
use randall_flare.Quorum.Election.{grant, Keeps, Running-map, Cast, Inv}
use randall_flare.Quorum.ElectionSteps.{after-Inv}

length-insert_id : (p : PublicId) (qs : List PublicId) → length (insert_id p qs) ≡ length qs + 1
unfolding insert_id
length-insert_id p [] = refl
length-insert_id p (q ∷ qs) = ground (arith, length-insert_id p qs)

length-sort_ids : (ps : List PublicId) → length (sort_ids ps) ≡ length ps
unfolding sort_ids
length-sort_ids [] = refl
length-sort_ids (p ∷ ps) = omega (arith, length-insert_id p (sort_ids ps), length-sort_ids ps)

contains_in : (ps : List PublicId) (p : PublicId) → In p ps → contains ps p ≡ true
unfolding contains any
contains_in [] p h = elim h [ ]
contains_in (q ∷ ps) p (inl e) = let h : same_id q p ≡ true = rw e (same_id_self q) in rw h refl
contains_in (q ∷ ps) p (inr h) = ground (arith, contains_in ps p h)

new-group :
    (i : PublicId) (members : List PublicId)
    → In i members
    → length (new i members).group ≡ length members
unfolding new
new-group i members h = rw (contains_in members i h, length-sort_ids members)

Keeps-Sound : (r s : Raft) (actions : List Action) → Sound r s actions → Keeps r s
Keeps-Sound r s actions h = record {
  keeps_me = h.fixed_me;
  keeps_group = ap length h.fixed_group;
  keeps_epoch = h.epoch_grows;
  keeps_vote = h.vote_stays;
}

pub Keeps-same :
    (r s : Raft)
    → s.me ≡ r.me
    → length s.group ≡ length r.group
    → s.epoch ≡ r.epoch
    → s.voted_for ≡ r.voted_for
    → Keeps r s
Keeps-same r s m g e v = record {
  keeps_me = m;
  keeps_group = g;
  keeps_epoch = omega arith;
  keeps_vote = λ w p q. v ∙ q;
}

module _ (members : List PublicId) where
  carry :
      (sent fresh : List Packet) (i v : PublicId) (e f : ℕ)
      → f ≡ e
      → Cast members sent i e v
      → Cast members (fresh ++ sent) i f v
  carry sent fresh i v e f p (m, inl own) = (m, inl own)
  carry sent fresh i v e f p (m, inr h) = (
    m,
    inr (In-append_right (grant v i f) fresh sent (subst (λ x. In (grant v i x) sent) (sym p) h)),
  )

  pub init-Inv : Inv members (init members)
  init-Inv = record {
    fixed_me = λ i m. unfold new in refl;
    fixed_group = λ i m. new-group i members m;
    granted = λ v to e h. elim h [ ];
    one_vote = λ v a b e h g. elim h [ ];
    running = λ i m. unfold new in tt;
    winners = λ i e h. elim h [ ];
    self_vote = λ i to e h g. elim h [ ];
    leaders = λ i m h. absurd (unfold new in cc);
  }

  module _ (c : Cluster) (inv : Inv members c) (i : PublicId) (mem : In i members) where
    abbrev r : Raft
    r = c.node i

    -- The votes counted so far stand while the epoch does.
    counted :
        (s : Raft) (actions : List Action)
        → s.epoch ≡ r.epoch
        → Running (Cast members (packets i actions ++ c.sent) i s.epoch) r r.role
    counted s actions e =
        Running-map (Cast members c.sent i r.epoch)
          (Cast members (packets i actions ++ c.sent) i s.epoch) r r.role
          (λ v. carry c.sent (packets i actions) i v r.epoch s.epoch e) (inv.running i mem)

    pub handle-Inv :
        (from : PublicId) (msg : Msg)
        → In (record { from = from; to = i; msg = msg }) c.sent
        → Inv members (after c i (handle r from msg).0 (handle r from msg).1)
    handle-Inv from msg h =
        let (s, actions) = handle r from msg in
        after-Inv members c inv i mem s actions (Keeps-Sound r s actions (handle-Sound r from msg))
          (handle-Fair (Cast members (packets i actions ++ c.sent) i s.epoch) r from msg
            (counted s actions)
            (λ epoch p q level.
              let g : In (grant from i epoch) c.sent =
                subst (λ m. In (record { from = from; to = i; msg = m }) c.sent) p h in
              carry c.sent (packets i actions) i from epoch s.epoch (level ∙ sym q)
                ((inv.granted from i epoch g).0, inr g)))

    pub elect-Inv :
        r.epoch + 1 < u64_mod → Inv members (after c i (tick_election r).0 (tick_election r).1)
    elect-Inv room =
        let (s, actions) = tick_election r in
        after-Inv members c inv i mem s actions
          (Keeps-Sound r s actions (tick_election-Sound r room))
          (tick_election-Fair (Cast members (packets i actions ++ c.sent) i s.epoch) r
            (counted s actions)
            (subst (λ x. In x members) (sym (inv.fixed_me i mem)) mem, inl (inv.fixed_me i mem)))

    -- A step that keeps role, epoch and vote and tells nobody of a vote or a win.
    pub idle-Inv :
        (s : Raft) (actions : List Action)
        → Keeps r s
        → s.me ≡ r.me
        → s.role ≡ r.role
        → s.epoch ≡ r.epoch
        → s.voted_for ≡ r.voted_for
        → quiet actions ≡ true
        → Inv members (after c i s actions)
    idle-Inv s actions k m ro e v q = after-Inv members c inv i mem s actions k (
        Fair-quiet (Cast members (packets i actions ++ c.sent) i s.epoch) r s actions (same ro e v)
          m q (counted s actions))

    pub restart-Inv :
        (base_seq base_epoch : ℕ) (log : List Entry) (applied : ℕ)
        → Inv members
            (after c i (restore i members r.epoch r.voted_for base_seq base_epoch log applied) [])
    restart-Inv base_seq base_epoch log applied =
        let s = restore i members r.epoch r.voted_for base_seq base_epoch log applied in
        let m : s.me ≡ r.me = unfold restore new in sym (inv.fixed_me i mem) in
        let g : length s.group ≡ length r.group =
          unfold restore in (new-group i members mem ∙ sym (inv.fixed_group i mem)) in
        after-Inv members c inv i mem s []
          (Keeps-same r s m g (unfold restore in refl) (unfold restore in refl))
          (Fair-quiet (Cast members c.sent i s.epoch) r s [] (down (unfold restore new in refl)) m
            refl (counted s []))
