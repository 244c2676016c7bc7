-- ===== src/Quorum/Tests.antt =====
-- The quorum of crates/rf-core/src/quorum.rs run on a group of three.
use randall_flare.Prelude.{◌≡◌, refl, inl, inr, true, List, [], ◌∷◌, arith, any, filter}
use randall_flare.Prelude.Order.{cmp_bytes}
use randall_flare.Prelude.Members.{In}
use randall_flare.Identity.{PublicId, same_id}
use randall_flare.Quorum.State.{
  vote_req, vote_resp, Action, Raft, new, last, majority, contains, others, insert_id, sort_ids,
  is_leader,
}
use randall_flare.Quorum.Cluster.{Cluster, after, init, elect, deliver, Reach, start, next}
use mathlib.Core.List.{Permᴰ}
use randall_flare.Identity.Toy.{toy}
use randall_flare.Quorum.Rendezvous.{rendezvous_group, rendezvous_any_order}
use randall_flare.Quorum.Safety.{election_safety, one_leader}
use randall_flare.Quorum.Leading.{
  tick_election, stand, try_win, count_votes, take_office, become_follower,
}
use randall_flare.Quorum.Handling.{
  handle, handle_vote_req, answer_vote, cast_vote, handle_vote_resp,
}

abbrev id_a : PublicId
id_a = record { bytes = 1 ∷ [] }

abbrev id_b : PublicId
id_b = record { bytes = 2 ∷ [] }

abbrev id_c : PublicId
id_c = record { bytes = 3 ∷ [] }

abbrev three : List PublicId
three = id_a ∷ id_b ∷ id_c ∷ []

-- Node 1 stands for election, node 2 votes for it, and it wins.
abbrev c0 : Cluster
c0 = init three

abbrev asks : Raft × List Action
asks = tick_election (c0.node id_a)

abbrev c1 : Cluster
c1 = after c0 id_a asks.0 asks.1

abbrev gives : Raft × List Action
gives = handle (c1.node id_b) id_a (vote_req 1 0 0)

abbrev c2 : Cluster
c2 = after c1 id_b gives.0 gives.1

abbrev wins : Raft × List Action
wins = handle (c2.node id_a) id_b (vote_resp 1 true)

abbrev c3 : Cluster
c3 = after c2 id_a wins.0 wins.1

asked : In (record { from = id_a; to = id_b; msg = vote_req 1 0 0 }) c1.sent
unfolding tick_election stand try_win count_votes new sort_ids insert_id contains any same_id others
    filter last majority cmp_bytes
asked = inl refl

gave : In (record { from = id_b; to = id_a; msg = vote_resp 1 true }) c2.sent
unfolding tick_election stand try_win count_votes new sort_ids insert_id contains any same_id others
    filter last majority cmp_bytes handle handle_vote_req answer_vote cast_vote become_follower
gave = inl refl

run : Reach three c3
run =
    next
      (next (next start (elect id_a asks.0 asks.1 (inl refl) (unfold new in omega arith) refl)) (
        deliver (record { from = id_a; to = id_b; msg = vote_req 1 0 0 }) gives.0 gives.1 asked
          (inr (inl refl)) refl))
      (deliver (record { from = id_b; to = id_a; msg = vote_resp 1 true }) wins.0 wins.1 gave
        (inl refl) refl)

won : In (id_a, 1) c3.won
unfolding tick_election stand try_win count_votes take_office new sort_ids insert_id contains any
    same_id others filter last majority cmp_bytes handle handle_vote_req answer_vote cast_vote
    become_follower handle_vote_resp
won = inl refl

leads : is_leader (c3.node id_a) ≡ true
unfolding tick_election stand try_win count_votes take_office new sort_ids insert_id contains any
    same_id others filter last majority cmp_bytes handle handle_vote_req answer_vote cast_vote
    become_follower handle_vote_resp
leads = refl

election_safety_example : id_a ≡ id_a
election_safety_example = election_safety three c3 id_a id_a 1 run won won

one_leader_example : id_a ≡ id_a
one_leader_example = one_leader three c3 id_a id_a run (inl refl) (inl refl) leads leads refl

rendezvous_any_order_example :
    rendezvous_group toy (7 ∷ []) (id_a ∷ id_b ∷ []) 1
    ≡ rendezvous_group toy (7 ∷ []) (id_b ∷ id_a ∷ []) 1
rendezvous_any_order_example =
    rendezvous_any_order toy (7 ∷ []) 1 (id_a ∷ id_b ∷ []) (id_b ∷ id_a ∷ [])
      ∣ Permᴰ.swap refl refl ∣₁
