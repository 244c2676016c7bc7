-- ===== src/Lib.antt =====
-- RandallFlare, a mesh of nodes without a control plane. The core library, crates/rf-core, has the state
-- machines that every node runs, free of I/O: a node's drivers (crates/rf) feed it messages, wall clock
-- readings and timeouts, and carry out what it returns. On top of the core, crates/rf has modules that
-- decide by signed records alone; five of them are here: Resource, Access, Hostname,
-- Placement and Exit. A resource is an envelope (Envelope) that a node keeps in a namespace of the
-- key-value store (Kv); access tokens, host name claims, policies of nodes, rule sets and devices are
-- specifications that resources carry.
--
-- Parts and files:
--   * Hlc: crates/rf-core/src/hlc.rs, the hybrid logical clock that stamps writes. `now` and `observe`
--     return the new clock. Hlc/Monotone is about the order of the timestamps.
--   * Identity: crates/rf-core/src/identity.rs, who signs. The curves, the hashes and hex are other
--     crates' code, held by the record `Crypto`; Identity/Laws says what is asked of them
--     (`SignsCorrectly`), and Identity/Toy is an instance that has it. Identity/Wire
--     has the serde forms.
--   * Envelope: crates/rf-core/src/envelope.rs, signed payloads: `seal_any`, `seal`, `open` (here
--     `open_envelope`), `digest`, `to_bytes`, `from_bytes`. Postcard is the record `Codec`.
--   * Kv: crates/rf-core/src/kv.rs, a last-write-wins map. The BTreeMap is an association list in key
--     order (Prelude/Table). Kv/Merging is about `merge`, Kv/Sync about `dump` and `apply_dump`,
--     Kv/Listing about `list`, Kv/Expiry about reads, writes and `gc`, Kv/Collision about the tie break.
--   * Quorum: crates/rf-core/src/quorum.rs, a Raft for one replicated object. Quorum/State has the types,
--     the queries, `new`, `restore` and `compact`; Quorum/Leading what a node does of its own accord
--     (`tick_election`, `heartbeat`, `propose`, `advance_commit`, `apply_committed`); Quorum/Handling
--     `handle`, a function for each message. A method that takes `&mut self` returns the new state and
--     the actions. Quorum/Votes, LogShape, Commit, Absorbing, Appending and Overclaim are about one
--     node, Quorum/Unheld (by Heartbeat) about a leader and a
--     follower; Quorum/Cluster is a group of nodes over a network that delays, reorders, repeats and loses
--     messages, with nodes that restart, as a step relation, and Quorum/Safety is about all its runs,
--     by the invariant of Quorum/Election (kept by a step: ElectionSteps, Moves; what a node's own step
--     says of votes: Quiet, Steady, Ballots, Campaign).
--     Quorum/Rendezvous is `rendezvous_group`.
--   * Claim: crates/rf-core/src/claim.rs, leaderless scheduling by signed claims: `ingest` (its tests,
--     `admit`, and the rest, `fold_record`), `winner`, `gc`. Claim/Winner is about who holds a task,
--     Claim/Collecting about `gc`, Claim/Ingesting about what `ingest` lets in.
--   * Cron: crates/rf-core/src/cron.rs, cron expressions, `parse` and `matches`;
--     Cron/Rounds is about the bit loop of `parse_field`.
--   * Manifest: crates/rf-core/src/manifest.rs, signed worker manifests: `validate`, `ingest`, `routes`
--     and `verify_chain`, whose name tests are Manifest/Names; Manifest/Validation,
--     Merging and Chain are about them.
--   * Resource: crates/rf/src/resource.rs, signed resources whose versions are linked by digests:
--     `validate`, `prepare_after`, `ingest`, `records`, `head`, `heads`. serde_json is the record
--     `Json`. Resource/Chain is about what `records` lets in, Resource/Versions about a version and
--     its predecessor.
--   * Access: crates/rf/src/access.rs, API access tokens: `validate`, `mint_record`, `revoke_after`,
--     `resolve`. The random text of a new token and the clock are arguments; `Convert` is serde_json's
--     conversion of a specification, and `ReadsBack` says what is asked of the two. Access/Tokens is
--     about who gets in, Access/Compare about `constant_time_eq`.
--   * Hostname: crates/rf/src/hostname.rs, signed claims of host names: `prepare_claim_after`,
--     `claim_spec`, `claim`, and `query_verification` on the TXT records that the resolver found.
--     Hostname/Finding is about `claim`, Hostname/Observing about the verification.
--   * Placement: crates/rf/src/placement.rs, signed policies of nodes: `prepare_after` (here
--     `prepare_policy_after`), `policy_checked`, `accepts_dns`. Placement/Policies is about a policy
--     that was prepared.
--   * Exit: crates/rf/src/exit.rs, split routing by signed rule sets. Exit/Address has IP addresses and
--     CIDR blocks, with the parsers of `std::net` written out; Exit/Spec the rule sets and their
--     lines; Exit/Rules `compile` and `parse_rule_line`; Exit/Index the indexed matcher; Exit/Classify
--     `validate` and `classify`; Exit/Cache the cache of matchers; Exit/Errors the refusals;
--     Exit/DeviceSpec and Exit/Device the devices that fetch rule sets, their tokens, and what a node
--     admits of both.
--     The file Address/Blocks is about blocks, Rules/Nesting (by Rules/Ending) about the recursion of
--     `parse_rule_line`, Index/Correct (by Index/Late and Index/Bounded) about the search,
--     Classify/Total about rule sets that were checked, Cache/Bounds (by Cache/Counted) and
--     Cache/Agrees about the cache, Device/Admission about the references between devices and rule
--     sets, Device/Tokens about who gets in as a device, Device/Serving about `rules_for_device`.
--   * Prelude: Boolean tests and machine integers, lists, orders, texts, results, tables, membership,
--     the ASCII part of `str`, `sort_by`, integers.
--
-- Machine integers: u64 and u32 sums that the code leaves unchecked wrap, as in the release profile
-- (`add_u64`, `sub_u64`, `u32_mod`); a theorem that needs room in a counter has it as a hypothesis.
-- Loops: `while applied < commit` and the search of `advance_commit` are recursions on the number of
-- rounds that the code's own bounds leave, so no fuel can run out. The
-- bit loop of a cron field has `hi + 1` rounds. The fuel of `compile` and `parse_rule_line` is the depth
-- to which rule sets may include others. The source has no such bound: `Ended` says when a fuel is
-- enough, and a rule set that includes itself has none.
--
-- Texts are ASCII: lengths, `trim` and changes of case are of bytes.
--
-- Not modelled: the other drivers of crates/rf (network, storage, console, services, deployment), most of
-- which is I/O; of access.rs the views, `scope_for_resource` and the time of last use; of exit.rs the
-- note of the time of last use; of hostname.rs the DNS query and the node's cache of verified names;
-- of placement.rs the tags and which node is eligible for a Worker;
-- vendor/, which is a copy of another project.
pub mod Prelude
pub mod Hlc
pub mod Identity
pub mod Envelope
pub mod Kv
pub mod Quorum
pub mod Claim
pub mod Cron
pub mod Manifest
pub mod Exit
pub mod Resource
pub mod Access
pub mod Hostname
pub mod Placement
