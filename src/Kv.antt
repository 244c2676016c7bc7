-- ===== src/Kv.antt =====
-- crates/rf-core/src/kv.rs: last-write-wins registers. A namespace is a table in key order; the
-- hash of a value is SHA-256, another crate's code, and stands in `Crypto`.
pub mod Merging
pub mod Sync
pub mod Collision
pub mod Expiry
pub mod Listing
mod Tests
use randall_flare.Prelude.{
  ℕ, ◌==◌, ◌+◌, ◌-◌, Option, none, some, Bool, true, false, not, List, [], ◌∷◌, ◌++◌, map, ltb, leb,
  is_some, if◌then◌else◌, length, take,
}
use randall_flare.Prelude.Order.{Bytes, is_gt, is_le, bytes_ord, pair_ord}
use randall_flare.Prelude.Text.{starts_with, le_bytes}
use randall_flare.Prelude.Table
use randall_flare.Prelude.Table.{Table}
use randall_flare.Hlc.{Hlc, hlc_ord}
use randall_flare.Identity.{Crypto, PublicId}

pub record KvEntry : Type 0 where
  pub hlc : Hlc
  pub writer : PublicId
  -- `none` is a tombstone.
  pub value : Option Bytes
  pub expires_at_ms : Option ℕ

abbrev pub tagged : Option Bytes → Bytes
tagged none = 0 ∷ []
tagged (some v) = 1 ∷ v

abbrev pub expiry_bytes : Option ℕ → Bytes
expiry_bytes none = []
expiry_bytes (some e) = le_bytes 8 e

unfoldable pub visible : KvEntry → ℕ → Option Bytes
visible e now_ms = elim e.value [
  | none ↦ none
  | some v ↦ elim e.expires_at_ms [
    | none ↦ some v
    | some exp ↦ if leb exp now_ms then none else some v
  ]
]

pub data Merge : Type 0 where
  applied stale : Merge

pub record Namespace : Type 0 where
  pub entries : Table Bytes KvEntry

unfoldable pub new : Namespace
new = record { entries = [] }

unfoldable pub get : Namespace → Bytes → ℕ → Option Bytes
get ns key now_ms = elim (Table.get ns.entries key) [ none ↦ none | some e ↦ visible e now_ms ]

unfoldable pub entry : Namespace → Bytes → Option KvEntry
entry ns key = Table.get ns.entries key

-- The namespace after the write, and the entry written.
unfoldable pub put :
    Namespace → Bytes → Option Bytes → Hlc → PublicId → Option ℕ → Namespace × KvEntry
put ns key value hlc writer expires_at_ms =
    let e : KvEntry = record {
      hlc = hlc;
      writer = writer;
      value = value;
      expires_at_ms = expires_at_ms;
    } in
    (record { entries = Table.insert key e ns.entries }, e)

-- `take_while` on the entries of a range.
unfoldable pub take_prefixed : Bytes → Table Bytes KvEntry → Table Bytes KvEntry
take_prefixed prefix [] = []
take_prefixed prefix ((k, e) ∷ t) =
    let rest = take_prefixed prefix t in if starts_with k prefix then (k, e) ∷ rest else []

unfoldable pub list : Namespace → Bytes → ℕ → ℕ → List Bytes
list ns prefix now_ms limit =
    let range = Table.retain (λ k _. is_le prefix k) ns.entries in
    let shown = Table.retain (λ _ e. is_some (visible e now_ms)) (take_prefixed prefix range) in
    take limit (map (λ (p : Bytes × KvEntry). p.0) shown)

unfoldable pub dump : Namespace → Table Bytes KvEntry
dump ns = ns.entries

abbrev pub dead_since : KvEntry → ℕ → Option ℕ
dead_since e now_ms = elim e.value [
  | none ↦ some e.hlc.wall_ms
  | some _ ↦ elim e.expires_at_ms [
    | none ↦ none
    | some exp ↦ if leb exp now_ms then some exp else none
  ]
]

-- What `gc` retains.
abbrev pub retained : ℕ → ℕ → KvEntry → Bool
retained now_ms horizon_ms e = elim (dead_since e now_ms) [
  | none ↦ true
  | some t ↦ ltb (now_ms - t) horizon_ms
]

-- The namespace after the collection, and how many entries it dropped.
unfoldable pub gc : Namespace → ℕ → ℕ → Namespace × ℕ
gc ns now_ms horizon_ms =
    let kept = Table.retain (λ _ e. retained now_ms horizon_ms e) ns.entries in
    (record { entries = kept }, length ns.entries - length kept)

unfoldable pub len : Namespace → ℕ
len ns = length ns.entries

unfoldable pub is_empty : Namespace → Bool
is_empty ns = length ns.entries == 0

module _ (c : Crypto) where
  unfoldable pub value_hash : KvEntry → Bytes
  value_hash e = c.sha256 (tagged e.value ++ expiry_bytes e.expires_at_ms)

  -- The tuple that `beats` compares.
  unfoldable pub rank : KvEntry → Hlc × (Bytes × Bytes)
  rank e = (e.hlc, (e.writer.bytes, value_hash e))

  unfoldable pub beats : KvEntry → KvEntry → Bool
  beats e other = is_gt (rank e) (rank other)

  unfoldable pub merge : Namespace → Bytes → KvEntry → Namespace × Merge
  merge ns key incoming =
      let write : Namespace × Merge =
        (record { entries = Table.insert key incoming ns.entries }, applied) in
      elim (Table.get ns.entries key) [
        | none ↦ write
        | some existing ↦ if not (beats incoming existing) then (ns, stale) else write
      ]

  abbrev pub count_applied : Merge → ℕ
  count_applied applied = 1
  count_applied stale = 0

  unfoldable pub apply_dump : Namespace → Table Bytes KvEntry → Namespace × ℕ
  apply_dump ns [] = (ns, 0)
  apply_dump ns ((k, e) ∷ items) =
      let (ns', m) = merge ns k e in
      let (end, n) = apply_dump ns' items in (end, count_applied m + n)

  -- What `digest` feeds to the hash.
  unfoldable pub digest_input : Table Bytes KvEntry → Bytes
  digest_input [] = []
  digest_input ((k, e) ∷ t) =
      le_bytes 8 (length k)
      ++ k
      ++ le_bytes 8 e.hlc.wall_ms
      ++ le_bytes 4 e.hlc.logical
      ++ e.writer.bytes
      ++ value_hash e
      ++ digest_input t

  unfoldable pub digest : Namespace → Bytes
  digest ns = c.sha256 (digest_input ns.entries)
