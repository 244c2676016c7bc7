-- ===== src/Quorum/Campaign.antt =====
-- Elections of crates/rf-core/src/quorum.rs at one node: every step counts and gives votes fairly.
use randall_flare.Prelude.{
  ℕ, ◌≡◌, inl, inr, refl, ap, ◌∙◌, sym, subst, Bool, true, false, not, List, [], ◌∷◌, ◌++◌, All,
  All-append, map, arith, ◌==◌, ltb, Bool-cases, ◌==◌, ◌||◌,
}
use randall_flare.Prelude.Order.{bytes_ord}
use randall_flare.Prelude.Members.{In, Distinct-append}
use randall_flare.Identity.{PublicId}
use randall_flare.Quorum.State.{
  Msg, vote_req, vote_resp, append, append_resp, install_snapshot, Action, Role, follower,
  candidate, leading, Raft, is_leader, is_leading, contains, last, others,
}
use randall_flare.Quorum.Leading.{try_win, stand, tick_election, become_follower}
use randall_flare.Quorum.Handling.{
  handle, answer_vote, cast_vote, handle_vote_req, handle_vote_resp, handle_append,
  handle_append_resp, add_vote, handle_install_snapshot,
}
use randall_flare.Quorum.Frames.{try_win-SameTerm}
use randall_flare.Quorum.Votes.{handle-Sound, become_follower-Sound}
use randall_flare.Quorum.Quiet.{
  quiet, handle_append-quiet, handle_install_snapshot-quiet, handle_append_resp-quiet,
  become_follower-quiet,
}
use randall_flare.Quorum.Steady.{
  down, same, Steady-refl, handle_append-Steady, handle_install_snapshot-Steady,
  handle_append_resp-Steady, become_follower-role,
}
use randall_flare.Quorum.Ballots.{
  VoteSet, Running, Granted, Fair, Granted-quiet, contains_all, elected_append, Fair-quiet,
  count_votes-Fair, answer_vote-Fair,
}

asks-quiet :
    (epoch last_epoch last_seq : ℕ) (peers : List PublicId)
    → quiet (map (λ peer. Action.send peer (vote_req epoch last_epoch last_seq)) peers) ≡ true
asks-quiet epoch last_epoch last_seq [] = refl
asks-quiet epoch last_epoch last_seq (p ∷ peers) = asks-quiet epoch last_epoch last_seq peers

module _ (P : PublicId → Type 0) where
  All-Granted_append :
      (s : Raft) (xs ys : List Action)
      → quiet xs ≡ true
      → All (Granted s) ys
      → All (Granted s) (xs ++ ys)
  All-Granted_append s xs ys q h = All-append (Granted s) xs ys (Granted-quiet s xs q) h

  answer_vote-epoch :
      (r : Raft) (from : PublicId) (epoch last_epoch last_seq : ℕ)
      → (answer_vote r from epoch last_epoch last_seq).0.epoch ≡ r.epoch
  unfolding answer_vote cast_vote
  answer_vote-epoch r from epoch last_epoch last_seq = ground arith

  handle_vote_req-Fair :
      (r : Raft) (from : PublicId) (epoch last_epoch last_seq : ℕ)
      → ((handle_vote_req r from epoch last_epoch last_seq).0.epoch ≡ r.epoch → Running P r r.role)
      → let (s, actions) = handle_vote_req r from epoch last_epoch last_seq in Fair P r s actions
  unfolding handle_vote_req
  handle_vote_req-Fair r from epoch last_epoch last_seq h = elim (Bool-cases (ltb r.epoch epoch)) [
    | inr level ↦
        let same = answer_vote-epoch r from epoch last_epoch last_seq in
        rw level (answer_vote-Fair P r from epoch last_epoch last_seq (h (rw level same)))
    | inl up ↦
        let (r', first) = become_follower r epoch in
        let quiet_first = become_follower-quiet r epoch in
        let stopped : r'.role ≡ follower = become_follower-role r epoch in
        let f =
          answer_vote-Fair P r' from epoch last_epoch last_seq
            (subst (Running P r') (sym stopped) tt) in
        let rest = (answer_vote r' from epoch last_epoch last_seq).1 in
        rw up (record {
          grants =
              All-Granted_append (answer_vote r' from epoch last_epoch last_seq).0 first rest
                quiet_first f.grants;
          running = f.running;
          wins_fairly = λ e. f.wins_fairly (sym (elected_append first rest quiet_first) ∙ e);
          leads_fairly = λ l e. absurd (
              let none_led : is_leader r' ≡ false = ap is_leading stopped in
              let led = (f.leads_fairly l (sym (elected_append first rest quiet_first) ∙ e)).0 in
              cc);
        })
  ]

  VoteSet-add :
      (r : Raft) (votes : List PublicId) (from : PublicId)
      → VoteSet P r votes
      → P from
      → contains votes from ≡ false
      → VoteSet P r (votes ++ from ∷ [])
  VoteSet-add r votes from v p n = record {
    own = v.own;
    distinct =
        Distinct-append votes (from ∷ []) v.distinct ((λ h. h), tt)
          (λ x i j. contains_all votes from n (only votes x i j));
    cast = All-append P votes (from ∷ []) v.cast (p, tt);
  }
    where
      only : (xs : List PublicId) (x : PublicId) → In x xs → In x (from ∷ []) → In from xs
      only xs x i (inl e) = subst (λ y. In y xs) e i
      only xs x i (inr h) = absurd h

  -- The votes of a candidate after one more, then the count.
  counted-Fair :
      (r : Raft) (from : PublicId) (role : Role)
      → Running P r role
      → P from
      → let voted = record r { role = add_vote role from } in
        (r.role ≡ role) → Fair P r (try_win voted).0 (try_win voted).1
  unfolding try_win
  counted-Fair r from follower h p e =
      Fair-quiet P r (record r { role = follower }) [] (down refl) refl refl
        (λ q. subst (Running P r) (sym e) h)
  counted-Fair r from (leading next matched) h p e =
      Fair-quiet P r (record r { role = leading next matched }) [] (same (sym e) refl refl) refl
        refl (λ q. subst (Running P r) (sym e) h)
  counted-Fair r from (candidate votes) h p e = elim (Bool-cases (contains votes from)) [
    | inl old ↦ rw old (
        count_votes-Fair P (record r { role = candidate votes }) r votes refl
          (record { own = h.own; distinct = h.distinct; cast = h.cast }))
    | inr fresh ↦
        let v = VoteSet-add r votes from h p fresh in
        let more = votes ++ from ∷ [] in
        rw fresh (
          count_votes-Fair P (record r { role = candidate more }) r more refl
            (record { own = v.own; distinct = v.distinct; cast = v.cast }))
  ]

  handle_vote_resp-Fair :
      (r : Raft) (from : PublicId) (epoch : ℕ) (granted : Bool)
      → ((handle_vote_resp r from epoch granted).0.epoch ≡ r.epoch → Running P r r.role)
      → (epoch ≡ r.epoch
          → granted ≡ true
          → (handle_vote_resp r from epoch granted).0.epoch ≡ r.epoch
          → P from)
      → Fair P r (handle_vote_resp r from epoch granted).0 (handle_vote_resp r from epoch granted).1
  unfolding handle_vote_resp
  handle_vote_resp-Fair r from epoch granted h p = elim (Bool-cases (ltb r.epoch epoch)) [
    | inl up ↦ rw up (
        Fair-quiet P r (become_follower r epoch).0 (become_follower r epoch).1
          (down (become_follower-role r epoch)) (become_follower-Sound r epoch).fixed_me
          (become_follower-quiet r epoch) (λ q. h (rw up q)))
    | inr level ↦ elim (Bool-cases (not (epoch == r.epoch) || not granted)) [
      | inl ignored ↦
          rw (level, ignored)
            (Fair-quiet P r r [] (Steady-refl r) refl refl (λ q. h (rw (level, ignored) q)))
      | inr counts ↦
          let voted = record r { role = add_vote r.role from } in
          let same = (try_win-SameTerm voted).same_epoch in
          rw (level, counts)
            (counted-Fair r from r.role (h (rw (level, counts) same))
              (p (ground arith) (ground arith) (rw (level, counts) same)) refl)
    ]
  ]

  -- Whatever message a node handles, its step is fair: it grants a vote only to the candidate that
  -- it has voted for in its epoch, and becomes a leader only on a majority of distinct votes.
  pub handle-Fair :
      (r : Raft) (from : PublicId) (msg : Msg)
      → ((handle r from msg).0.epoch ≡ r.epoch → Running P r r.role)
      → ((epoch : ℕ)
          → msg ≡ vote_resp epoch true
          → epoch ≡ r.epoch
          → (handle r from msg).0.epoch ≡ r.epoch
          → P from)
      → Fair P r (handle r from msg).0 (handle r from msg).1
  unfolding handle
  handle-Fair r from (vote_req epoch last_epoch last_seq) h p =
      handle_vote_req-Fair r from epoch last_epoch last_seq h
  handle-Fair r from (vote_resp epoch granted) h p =
      handle_vote_resp-Fair r from epoch granted h (λ e g. p epoch (λ i. vote_resp epoch (g i)) e)
  handle-Fair r from (append epoch prev_seq prev_epoch es commit) h p =
      Fair-quiet P r _ (handle_append r from epoch prev_seq prev_epoch es commit).1
        (handle_append-Steady r from epoch prev_seq prev_epoch es commit)
        (handle-Sound r from (append epoch prev_seq prev_epoch es commit)).fixed_me
        (handle_append-quiet r from epoch prev_seq prev_epoch es commit) h
  handle-Fair r from (append_resp epoch match_seq good) h p =
      Fair-quiet P r _ (handle_append_resp r from epoch match_seq good).1
        (handle_append_resp-Steady r from epoch match_seq good)
        (handle-Sound r from (append_resp epoch match_seq good)).fixed_me
        (handle_append_resp-quiet r from epoch match_seq good) h
  handle-Fair r from (install_snapshot epoch last_seq last_epoch state) h p =
      Fair-quiet P r _ (handle_install_snapshot r from epoch last_seq last_epoch state).1
        (handle_install_snapshot-Steady r from epoch last_seq last_epoch state)
        (handle-Sound r from (install_snapshot epoch last_seq last_epoch state)).fixed_me
        (handle_install_snapshot-quiet r from epoch last_seq last_epoch state) h

  stood-Fair : (r : Raft) → P r.me → Fair P r (try_win (stand r)).0 (try_win (stand r)).1
  unfolding try_win stand
  stood-Fair r p =
      count_votes-Fair P (stand r) r (r.me ∷ []) refl
        (record { own = refl; distinct = ((λ h. h), tt); cast = (p, tt) })

  -- A node that stands for election counts its own vote, and wins only on a majority.
  pub tick_election-Fair :
      (r : Raft)
      → ((tick_election r).0.epoch ≡ r.epoch → Running P r r.role)
      → P r.me
      → Fair P r (tick_election r).0 (tick_election r).1
  unfolding tick_election
  tick_election-Fair r h p = elim (Bool-cases (is_leader r)) [
    | inl leader ↦ rw leader (Fair-quiet P r r [] (Steady-refl r) refl refl (λ q. h (rw leader q)))
    | inr other ↦
        let r' = stand r in
        let ask = Msg.vote_req r'.epoch (last r').0 (last r').1 in
        let first = Action.persist_meta ∷ map (λ peer. Action.send peer ask) (others r') in
        let (s, won) = try_win r' in
        let quiet_first : quiet first ≡ true =
          asks-quiet r'.epoch (last r').0 (last r').1 (others r') in
        let f = stood-Fair r p in
        rw other (record {
          grants = All-Granted_append s first won quiet_first f.grants;
          running = f.running;
          wins_fairly = λ e. f.wins_fairly (sym (elected_append first won quiet_first) ∙ e);
          leads_fairly = λ l e. f.leads_fairly l (sym (elected_append first won quiet_first) ∙ e);
        })
  ]
