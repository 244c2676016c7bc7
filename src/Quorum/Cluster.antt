-- ===== src/Quorum/Cluster.antt =====
-- A group of nodes of crates/rf-core/src/quorum.rs over a network that may delay, reorder, repeat and
-- lose messages, with drivers that time elections, propose, compact, ship snapshots and restart nodes
-- from what is stored.
use randall_flare.Prelude.{
  ℕ, ◌+◌, ◌<◌, ◌≡◌, Bool, true, false, List, [], ◌∷◌, ◌++◌, if◌then◌else◌, u64_mod,
}
use randall_flare.Prelude.Order.{Bytes}
use randall_flare.Prelude.Result.{ok}
use randall_flare.Prelude.Members.{In}
use randall_flare.Identity.{PublicId, same_id}
use randall_flare.Quorum.State.{
  Entry, Msg, install_snapshot, Action, send, became_leader, Raft, new, restore, compact,
}
use randall_flare.Quorum.Leading.{tick_election, heartbeat, propose}
use randall_flare.Quorum.Handling.{handle}

pub record Packet : Type 0 where
  pub from : PublicId
  pub to : PublicId
  pub msg : Msg

-- `sent` holds every message ever sent, and `won` who became a leader in which epoch.
pub record Cluster : Type 0 where
  pub node : PublicId → Raft
  pub sent : List Packet
  pub won : List (PublicId × ℕ)

abbrev pub packets : PublicId → List Action → List Packet
packets i [] = []
packets i (send to msg ∷ rest) = record { from = i; to = to; msg = msg } ∷ packets i rest
packets i (_ ∷ rest) = packets i rest

abbrev pub elected : List Action → Bool
elected [] = false
elected (became_leader ∷ rest) = true
elected (_ ∷ rest) = elected rest

abbrev pub wins : PublicId → Raft → List Action → List (PublicId × ℕ)
wins i s actions = if elected actions then (i, s.epoch) ∷ [] else []

-- The cluster after node `i` has moved to `s` and its actions are carried out.
abbrev pub after : Cluster → PublicId → Raft → List Action → Cluster
after c i s actions = record {
  node = λ j. if same_id i j then s else c.node j;
  sent = packets i actions ++ c.sent;
  won = wins i s actions ++ c.won;
}

module _ (members : List PublicId) where
  abbrev pub init : Cluster
  init = record { node = λ i. new i members; sent = []; won = [] }

  pub data Step (c : Cluster) : Cluster → Type 0 where
    deliver :
        (p : Packet) (s : Raft) (actions : List Action)
        → In p c.sent
        → In p.to members
        → handle (c.node p.to) p.from p.msg ≡ (s, actions)
        → Step c (after c p.to s actions)
    -- The epoch counter has room: it is a u64, and wraps.
    elect :
        (i : PublicId) (s : Raft) (actions : List Action)
        → In i members
        → (c.node i).epoch + 1 < u64_mod
        → tick_election (c.node i) ≡ (s, actions)
        → Step c (after c i s actions)
    beat : (i : PublicId) → In i members → Step c (after c i (c.node i) (heartbeat (c.node i)))
    submit :
        (i : PublicId) (cmd : Bytes) (s : Raft) (seq : ℕ) (actions : List Action)
        → In i members
        → propose (c.node i) cmd ≡ ok (s, seq, actions)
        → Step c (after c i s actions)
    trim :
        (i : PublicId) (keep_tail : ℕ)
        → In i members
        → Step c (after c i (compact (c.node i) keep_tail).0 [])
    ship :
        (i to : PublicId) (epoch last_seq last_epoch : ℕ) (state : Bytes)
        → In i members
        → Step c
            (after c i (c.node i) (send to (install_snapshot epoch last_seq last_epoch state) ∷ []))
    -- The epoch and the vote are stored before they are used; the log may come back in any shape.
    restart :
        (i : PublicId) (base_seq base_epoch : ℕ) (log : List Entry) (applied : ℕ)
        → In i members
        → Step c (
            after c i
              (restore i members
                (c.node i).epoch
                (c.node i).voted_for
                base_seq
                base_epoch
                log
                applied)
              [])

  pub data Reach : Cluster → Type 0 where
    start : Reach init
    next : {c d : Cluster} → Reach c → Step c d → Reach d
