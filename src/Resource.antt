-- ===== src/Resource.antt =====
-- crates/rf/src/resource.rs: operator-signed platform resources, hash-chained versions that nodes keep in
-- a namespace of the key-value store. serde_json is another crate: the record `Json` stands for it.
pub mod Chain
pub mod Versions
mod Tests
use randall_flare.Prelude.{
  ℕ, zero, suc, ◌-◌, ◌==◌, Option, none, some, Bool, true, false, not, ◌&&◌, ◌||◌, List, [], ◌∷◌,
  ◌++◌, map, if◌then◌else◌, ltb, leb, length, all, is_none, is_some, filter, add_u64,
}
use randall_flare.Prelude.Order.{Bytes, bytes_ord, nat_ord, pair_ord, is_eq, is_gt}
use randall_flare.Prelude.Result.{Result, ok, err, ◌>>=◌, ◌>>◌, map_err}
use randall_flare.Prelude.Text.{ascii, starts_with, decimal}
use randall_flare.Prelude.Ascii.{is_lower, is_digit}
use randall_flare.Prelude.SortBy.{sort_by}
use randall_flare.Prelude.Table
use randall_flare.Prelude.Table.{Table}
use randall_flare.Hlc.{Hlc}
use randall_flare.Identity.{Crypto, SignerId, PublicId}
use randall_flare.Envelope.{Codec, Envelope, EnvelopeError, open_envelope}
use randall_flare.Kv.{KvEntry, Namespace, visible, dump}
use randall_flare.Manifest.Names.{is_empty, valid_name}

-- `serde_json`: its values, `from_str`, `to_string` and the tests that the code makes.
pub record Json (V : Type 0) : Type 0 where
  pub from_str : Bytes → Option V
  pub to_string : V → Bytes
  pub null : V
  pub is_null : V → Bool
  pub is_object : V → Bool
  pub is_empty_object : V → Bool

pub record ResourceRecord : Type 0 where
  pub schema : ℕ
  pub kind : Bytes
  pub name : Bytes
  pub version : ℕ
  pub prev : Option Bytes
  pub deleted : Bool
  pub spec_json : Bytes

pub record ResourceView : Type 0 where
  pub resource : ResourceRecord
  pub digest : Bytes

pub data ResourceError : Type 0 where
  bad_schema bad_kind bad_name bad_chain bad_json deleted_with_spec : ResourceError
  not_an_object large_spec foreign_head bad_digest : ResourceError
  bad_signature : EnvelopeError → ResourceError

unfoldable pub valid_kind : Bytes → Bool
valid_kind kind =
    not (is_empty kind)
    && (leb (length kind) 48 && all (λ b. is_lower b || (is_digit b || (b == 95))) kind)

-- `self.version == 0 || (self.version == 1) != self.prev.is_none()`.
abbrev pub same_bool : Bool → Bool → Bool
same_bool true b = b
same_bool false b = not b

abbrev pub refuse_if : Bool → ResourceError → Result ResourceError (Unit {0})
refuse_if b e = if b then err e else ok tt

abbrev pub or_error {ℓ} : {A : Type ℓ} → ResourceError → Option A → Result ResourceError A
or_error e none = err e
or_error e (some a) = ok a

-- `self.id()`.
abbrev pub id : ResourceRecord → Bytes
id r = r.kind ++ (ascii "/" ++ r.name)

-- What `records` sorts by, and `head` and `heads` compare.
abbrev pub rank : ResourceView → ℕ × Bytes
rank v = (v.resource.version, v.digest)

-- `max_by`: the last of the greatest.
unfoldable pub max_from : ResourceView → List ResourceView → ResourceView
max_from best [] = best
max_from best (v ∷ vs) =
    let next = if is_gt (rank best) (rank v) then best else v in max_from next vs

unfoldable pub max_view : List ResourceView → Option ResourceView
unfolding max_from
max_view [] = none
max_view (v ∷ vs) = some (max_from v vs)

abbrev pub is_of : Bytes → Bytes → ResourceView → Bool
is_of kind name v = is_eq v.resource.kind kind && is_eq v.resource.name name

-- The loop of `heads`: a view replaces one that is not as great.
unfoldable pub heads_from :
    Table (Bytes × Bytes) ResourceView → List ResourceView → Table (Bytes × Bytes) ResourceView
heads_from latest [] = latest
heads_from latest (v ∷ vs) =
    let key : Bytes × Bytes = (v.resource.kind, v.resource.name) in
    let replace = elim (Table.get latest key) as (λ _. Bool) [
      | none ↦ true
      | some current ↦ is_gt (rank v) (rank current)
    ] in
    heads_from (if replace then Table.insert key v latest else latest) vs

unfoldable pub values : Table (Bytes × Bytes) ResourceView → List ResourceView
values t = map (λ (p : (Bytes × Bytes) × ResourceView). p.1) t

module _ {V : Type 0} (json : Json V) where
  unfoldable pub validate : ResourceRecord → Result ResourceError (Unit {0})
  unfolding valid_kind
  validate r =
      refuse_if (not (r.schema == 1)) ResourceError.bad_schema
      >> refuse_if (not (valid_kind r.kind)) ResourceError.bad_kind
      >> refuse_if (not (valid_name r.name)) ResourceError.bad_name
      >> refuse_if ((r.version == 0) || not (same_bool (r.version == 1) (is_none r.prev)))
          ResourceError.bad_chain
      >> (or_error ResourceError.bad_json (json.from_str r.spec_json) >>= λ spec.
          if r.deleted
          then refuse_if (not (json.is_null spec) && not (json.is_empty_object spec))
              ResourceError.deleted_with_spec
          else (refuse_if (not (json.is_object spec)) ResourceError.not_an_object
              >> refuse_if (ltb 8_388_608 (length r.spec_json)) ResourceError.large_spec))

  unfoldable pub spec_of : ResourceRecord → Result ResourceError V
  spec_of r = or_error ResourceError.bad_json (json.from_str r.spec_json)

  module _ (c : Crypto) where
    unfoldable pub decode_digest : Bytes → Result ResourceError Bytes
    decode_digest value = elim (c.unhex value) [
      | none ↦ err ResourceError.bad_digest
      | some d ↦ if length d == 32 then ok d else err ResourceError.bad_digest
    ]

    -- `prev` of the next record, from the head.
    unfoldable pub link_of : Option ResourceView → Result ResourceError (Option Bytes)
    unfolding decode_digest
    link_of none = ok none
    link_of (some head) = decode_digest head.digest >>= λ d. ok (some d)

    abbrev pub next_version : Option ResourceView → ℕ
    next_version none = 1
    next_version (some head) = add_u64 head.resource.version 1

    abbrev pub is_foreign : Bytes → Bytes → Option ResourceView → Bool
    is_foreign kind name none = false
    is_foreign kind name (some head) =
        not (is_eq head.resource.kind kind) || not (is_eq head.resource.name name)

    unfoldable pub prepare_after :
        Bytes → Bytes → V → Bool → Option ResourceView → Result ResourceError ResourceRecord
    unfolding validate link_of
    prepare_after kind name spec deleted head =
        refuse_if (is_foreign kind name head) ResourceError.foreign_head
        >> (link_of head >>= λ prev.
            let record_of : ResourceRecord = record {
              schema = 1;
              kind = kind;
              name = name;
              version = next_version head;
              prev = prev;
              deleted = deleted;
              spec_json = json.to_string (if deleted then json.null else spec);
            } in
            validate record_of >> ok record_of)

-- The loop over a group of candidates: `accepted` has the version of each digest that was let in. The
-- version is not 0 here, which `validate` refuses.
unfoldable pub chain_ok : Crypto → Table Bytes ℕ → ResourceRecord → Bool
chain_ok c accepted r = if r.version == 1 then is_none r.prev else elim r.prev [
  | none ↦ false
  | some previous ↦ elim (Table.get accepted (c.hex previous)) [
    | none ↦ false
    | some v ↦ v == r.version - 1
  ]
]

unfoldable pub connect : Crypto → Table Bytes ℕ → List ResourceView → List ResourceView
unfolding chain_ok
connect c accepted [] = []
connect c accepted (v ∷ vs) =
    let onward = connect c accepted vs in
    let taken = connect c (Table.insert v.digest v.resource.version accepted) vs in
    if chain_ok c accepted v.resource then v ∷ taken else onward

-- A group in the order of version and digest.
unfoldable pub connect_group : Crypto → List ResourceView → List ResourceView
unfolding connect sort_by
connect_group c group = connect c [] (sort_by rank group)

abbrev pub Groups : Type 0
Groups = Table (Bytes × Bytes) (List ResourceView)

-- `entry(..).or_default().push(..)`.
abbrev pub group_at : Groups → Bytes × Bytes → List ResourceView
group_at groups key = elim (Table.get groups key) [ none ↦ [] | some vs ↦ vs ]

unfoldable pub group_all : Groups → List ResourceView → Groups
group_all groups [] = groups
group_all groups (v ∷ vs) =
    let key : Bytes × Bytes = (v.resource.kind, v.resource.name) in
    group_all (Table.insert key (group_at groups key ++ v ∷ []) groups) vs

unfoldable pub connect_all : Crypto → Groups → List ResourceView
unfolding connect_group
connect_all c [] = []
connect_all c ((_, group) ∷ groups) = connect_group c group ++ connect_all c groups

abbrev pub prefix_of : Option Bytes → Option Bytes → Bytes
prefix_of (some kind) (some name) = kind ++ (ascii "/" ++ (name ++ ascii "/"))
prefix_of (some kind) none = kind ++ ascii "/"
prefix_of none _ = []

-- `{:020}`.
abbrev pub zeros : ℕ → Bytes
zeros zero = []
zeros (suc n) = 48 ∷ zeros n

abbrev pub decimal_20 : ℕ → Bytes
decimal_20 n = zeros (20 - length (decimal n)) ++ decimal n

module _ {V : Type 0} (c : Crypto) (json : Json V) (envelopes : Codec Envelope)
    (codec : Codec ResourceRecord) (operator : SignerId) where
  -- A round of the first loop of `records`: what an entry of the namespace holds, if it counts.
  unfoldable pub candidate : ℕ → Bytes → Bytes × KvEntry → Option ResourceView
  unfolding validate visible
  candidate now_ms prefix (key, entry) =
      if not (starts_with key prefix) then none else elim (visible entry now_ms) [
        | none ↦ none
        | some bytes ↦ elim (envelopes.decode bytes) [
          | none ↦ none
          | some env ↦ elim (open_envelope c codec env (some operator)) [
            | err _ ↦ none
            | ok r ↦ elim (validate json r) [
              | err _ ↦ none
              | ok _ ↦
                  if not (starts_with key (r.kind ++ (ascii "/" ++ (r.name ++ ascii "/"))))
                  then none
                  else some (record {
                    resource = r;
                    digest = c.hex (randall_flare.Envelope.digest c env);
                  })
            ]
          ]
        ]
      ]

  unfoldable pub candidates : ℕ → Bytes → Table Bytes KvEntry → List ResourceView
  unfolding candidate
  candidates now_ms prefix [] = []
  candidates now_ms prefix (e ∷ entries) = elim (candidate now_ms prefix e) [
    | none ↦ candidates now_ms prefix entries
    | some v ↦ v ∷ candidates now_ms prefix entries
  ]

  unfoldable pub records : Namespace → ℕ → Option Bytes → Option Bytes → List ResourceView
  unfolding candidates group_all connect_all dump
  records ns now_ms kind name =
      connect_all c (group_all [] (candidates now_ms (prefix_of kind name) (dump ns)))

  unfoldable pub head : Namespace → ℕ → Bytes → Bytes → Option ResourceView
  unfolding records max_view filter
  head ns now_ms kind name =
      max_view (filter (is_of kind name) (records ns now_ms (some kind) (some name)))

  unfoldable pub heads : Namespace → ℕ → Option Bytes → List ResourceView
  unfolding records heads_from values
  heads ns now_ms kind = values (heads_from [] (records ns now_ms kind none))

  unfoldable pub prepare :
      Namespace → ℕ → Bytes → Bytes → V → Bool → Result ResourceError ResourceRecord
  unfolding head prepare_after
  prepare ns now_ms kind name spec deleted =
      prepare_after json c kind name spec deleted (head ns now_ms kind name)

  -- The namespace after the call, written at the stamp `hlc` by `writer` unless the key is there, and
  -- the resource.
  unfoldable pub ingest :
      Namespace → ℕ → Hlc → PublicId → Envelope → Result ResourceError (Namespace × ResourceRecord)
  unfolding validate
  ingest ns now_ms hlc writer env =
      map_err ResourceError.bad_signature (open_envelope c codec env (some operator)) >>= λ r.
      validate json r >>= λ _.
      let key =
        r.kind
        ++ (ascii "/"
            ++ (r.name
                ++ (ascii "/"
                    ++ (decimal_20 r.version
                        ++ (ascii "/" ++ c.hex (randall_flare.Envelope.digest c env)))))) in
      if is_none (randall_flare.Kv.get ns key now_ms)
      then ok ((randall_flare.Kv.put ns key (some (envelopes.encode env)) hlc writer none).0, r)
      else ok (ns, r)
