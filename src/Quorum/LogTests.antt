-- ===== src/Quorum/LogTests.antt =====
-- Single nodes of crates/rf-core/src/quorum.rs with a log of two entries, and the theorems of one node
-- at concrete inputs.
use randall_flare.Prelude.{
  ℕ, inl, u64_mod, ◌+◌, ◌≡◌, ◌⊎◌, ◌<◌, ◌≤◌, refl, none, some, true, [], ◌∷◌, All, arith, length,
  map,
}
use randall_flare.Prelude.Members.{In}
use randall_flare.Identity.{PublicId}
use randall_flare.Quorum.State.{
  Entry, vote_req, append, append_resp, Action, follower, leading, Raft, last, entry, epoch_at,
  majority,
}
use randall_flare.Quorum.Leading.{
  heartbeat, apply_committed, append_command, propose, commit_matched, become_follower,
}
use randall_flare.Quorum.Handling.{handle, handle_append, follow, prev_matches}
use randall_flare.Quorum.Votes.{Sound, handle-Sound}
use randall_flare.Quorum.LogShape.{IsWellFormed}
use randall_flare.Quorum.Commit.{
  entries_from, Committable, apply_committed-applies, commit_matched_rule,
}
use randall_flare.Quorum.Absorbing.{Agrees}
use randall_flare.Quorum.Appending.{Advances, handle_append-Advances}
use randall_flare.Quorum.Unheld.{commits_unheld}
use randall_flare.Prelude.Result.{ok}

abbrev id_a : PublicId
id_a = record { bytes = 1 ∷ [] }

abbrev id_b : PublicId
id_b = record { bytes = 2 ∷ [] }

abbrev id_c : PublicId
id_c = record { bytes = 3 ∷ [] }

abbrev entry_of : ℕ → ℕ → Entry
entry_of epoch seq = record { epoch = epoch; seq = seq; cmd = seq ∷ [] }

-- The second entry of the behind node is of an older epoch than the leader's.
abbrev behind : Raft
behind = record {
  me = id_b;
  group = id_a ∷ id_b ∷ [];
  epoch = 1;
  voted_for = some id_b;
  log = entry_of 1 1 ∷ entry_of 1 2 ∷ [];
  base_seq = 0;
  base_epoch = 0;
  commit = 1;
  applied = 1;
  role = follower;
  leader = none;
}

abbrev ahead : Raft
ahead = record {
  me = id_a;
  group = id_a ∷ id_b ∷ [];
  epoch = 2;
  voted_for = some id_a;
  log = entry_of 1 1 ∷ entry_of 2 2 ∷ [];
  base_seq = 0;
  base_epoch = 0;
  commit = 1;
  applied = 0;
  role = leading ((id_b, 3) ∷ []) ((id_b, 3) ∷ []);
  leader = none;
}

behind-IsWellFormed : IsWellFormed behind
behind-IsWellFormed = record {
  contiguous = (refl, (refl, tt));
  base_applied = omega arith;
  applied_commit = omega arith;
  commit_last = omega arith;
}

ahead-IsWellFormed : IsWellFormed ahead
ahead-IsWellFormed = record {
  contiguous = (refl, (refl, tt));
  base_applied = omega arith;
  applied_commit = omega arith;
  commit_last = omega arith;
}

handle-Sound_example :
    Sound behind (handle behind id_a (vote_req 2 1 2)).0 (handle behind id_a (vote_req 2 1 2)).1
handle-Sound_example = handle-Sound behind id_a (vote_req 2 1 2)

apply_committed-applies_example :
    ((apply_committed ahead).0 ≡ record ahead { applied = 1 })
    × ((apply_committed ahead).1 ≡ map Action.apply (entries_from ahead 0 1))
    × (length (entries_from ahead 0 1) ≡ 1)
apply_committed-applies_example = apply_committed-applies ahead ahead-IsWellFormed

commit_matched_rule_example :
    let c = (commit_matched ahead ((id_b, 3) ∷ [])).0.commit in
    ((c ≡ 1) ⊎ ((1 < c) × (c ≤ (last ahead).1) × Committable ahead ((id_b, 3) ∷ []) c))
    × ((n : ℕ) → 1 < n → n ≤ (last ahead).1 → Committable ahead ((id_b, 3) ∷ []) n → n ≤ c)
commit_matched_rule_example =
    commit_matched_rule ahead ((id_b, 3) ∷ []) ahead-IsWellFormed (omega arith)

replaced-Agrees : All (Agrees behind) (entry_of 2 2 ∷ [])
replaced-Agrees = (λ b l. absurd (omega arith), tt)

handle_append-Advances_example :
    Advances behind (handle_append behind id_a 2 1 1 (entry_of 2 2 ∷ []) 2).0
handle_append-Advances_example =
    handle_append-Advances behind id_a 2 1 1 (entry_of 2 2 ∷ []) 2 behind-IsWellFormed (refl, tt)
      replaced-Agrees

prev_good : prev_matches (follow behind id_a 2).0 1 1 ≡ true
unfolding prev_matches follow become_follower epoch_at entry
prev_good = refl

-- A leader of three that has entry 1 only; the node behind has an entry 2 of an older epoch.
abbrev short : Raft
short = record {
  me = id_a;
  group = id_a ∷ id_b ∷ id_c ∷ [];
  epoch = 2;
  voted_for = some id_a;
  log = entry_of 1 1 ∷ [];
  base_seq = 0;
  base_epoch = 0;
  commit = 0;
  applied = 0;
  role = leading ((id_b, 2) ∷ (id_c, 2) ∷ []) ((id_b, 0) ∷ (id_c, 0) ∷ []);
  leader = none;
}

short-IsWellFormed : IsWellFormed short
short-IsWellFormed = record {
  contiguous = (refl, tt);
  base_applied = omega arith;
  applied_commit = omega arith;
  commit_last = omega arith;
}

two_of_three : majority short ≤ 2
unfolding majority
two_of_three = omega arith

short_next : In {A = PublicId × ℕ} (id_b, (last short).1 + 1) ((id_b, 2) ∷ (id_c, 2) ∷ [])
unfolding last
short_next = inl refl

short_longer : (last short).1 < (last behind).1
unfolding last
short_longer = omega arith

short_room : (last short).1 + 1 < u64_mod
unfolding last
short_room = omega arith

short_prev : prev_matches (follow behind id_a 2).0 (last short).1 (last short).0 ≡ true
unfolding prev_matches follow become_follower epoch_at entry last
short_prev = refl

older_held : entry behind ((last short).1 + 1) ≡ some (entry_of 1 2)
unfolding entry last
older_held = refl

commits_unheld_example :
    let n = (last short).1 + 1 in
    let beat = append 2 (last short).1 (last short).0 [] short.commit in
    let (f', sent) = handle behind id_a beat in
    let answer = append_resp 2 (last behind).1 true in
    let l' = (handle short id_b answer).0 in
    let (l'', seq, stepped) = append_command l' (7 ∷ []) in
    let e : Entry = record { epoch = 2; seq = n; cmd = 7 ∷ [] } in
    In (Action.send id_b beat) (heartbeat short)
    × In (Action.send id_a answer) sent
    × (propose l' (7 ∷ []) ≡ ok (l'', seq, stepped))
    × (l''.commit ≡ n)
    × (entry l'' n ≡ some e)
    × (entry f' n ≡ some (entry_of 1 2))
    × (entry_of 1 2 ≡ e → ⊥)
commits_unheld_example =
    commits_unheld short behind 0 ((id_b, 2) ∷ (id_c, 2) ∷ []) ((id_b, 0) ∷ (id_c, 0) ∷ [])
      (entry_of 1 2) (7 ∷ []) short-IsWellFormed refl short_room two_of_three short_next (inl refl)
      (omega arith) short_prev short_longer older_held (omega arith)
