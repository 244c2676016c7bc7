-- ===== src/Placement.antt =====
-- crates/rf/src/placement.rs: signed policies of nodes, which take a node out of placement or of DNS.
pub mod Policies
mod Tests
use randall_flare.Prelude.{
  ℕ, ◌==◌, ◌≡◌, Option, none, some, Bool, true, false, not, ◌&&◌, ◌||◌, List, [], ◌∷◌, ◌++◌, map,
  if◌then◌else◌, ltb, leb, length, all, any, take, filter,
}
use randall_flare.Prelude.Order.{Bytes, bytes_ord, is_eq, is_lt}
use randall_flare.Prelude.Result.{Result, ok, err, ◌>>=◌, ◌>>◌, map_err}
use randall_flare.Prelude.Text.{ascii, trim, starts_with}
use randall_flare.Prelude.Ascii.{to_lower, is_hexdigit}
use randall_flare.Identity.{Crypto}
use randall_flare.Manifest.Names.{is_empty, is_control, is_label_byte, ends_with}
use randall_flare.Resource.{Json, ResourceRecord, ResourceView, ResourceError, prepare_after}
use randall_flare.Access.{Convert, set_of}

abbrev pub node_policy_kind : Bytes
node_policy_kind = ascii "node_policy"

pub record NodePolicy : Type 0 where
  pub schema : ℕ
  pub node_id : Bytes
  pub region : Bytes
  pub tags : List Bytes
  pub drain : Bool
  pub suspended : Bool
  pub reason : Bytes

pub data PolicyError : Type 0 where
  bad_schema bad_node_id bad_region bad_tags unsorted_tags bad_reason : PolicyError
  not_a_policy bad_spec wrong_name : PolicyError
  resource : ResourceError → PolicyError

abbrev pub refuse_if : Bool → PolicyError → Result PolicyError (Unit {0})
refuse_if b e = if b then err e else ok tt

-- The bytes of a tag are those of a worker's name.
unfoldable pub valid_tag : Bytes → Bool
valid_tag tag =
    not (is_empty tag)
    && (leb (length tag) 40
        && (all is_label_byte tag && (not (starts_with tag (45 ∷ [])) && not (ends_with tag 45))))

-- `windows(2)`: some two neighbours do not ascend.
unfoldable pub descends : List Bytes → Bool
descends [] = false
descends (x ∷ []) = false
descends (x ∷ y ∷ tags) = not (is_lt x y) || descends (y ∷ tags)

unfoldable pub validate_tags : List Bytes → Result PolicyError (Unit {0})
unfolding valid_tag descends
validate_tags tags =
    refuse_if (ltb 64 (length tags) || any (λ tag. not (valid_tag tag)) tags) PolicyError.bad_tags
    >> refuse_if (descends tags) PolicyError.unsorted_tags

-- `collect::<BTreeSet<_>>()` and back: in order, each once.
unfoldable pub collected : List Bytes → List Bytes
unfolding set_of
collected tags = map (λ (p : Bytes × Unit {0}). p.0) (set_of tags)

unfoldable pub normalize_tags : List Bytes → Result PolicyError (List Bytes)
unfolding trim to_lower filter collected validate_tags
normalize_tags tags =
    let clean =
      collected (filter (λ tag. not (is_empty tag)) (map (λ tag. to_lower (trim tag)) tags)) in
    validate_tags clean >> ok clean

unfoldable pub is_node_id : Bytes → Bool
is_node_id node_id = (length node_id == 64) && all is_hexdigit node_id

unfoldable pub validate : NodePolicy → Result PolicyError (Unit {0})
unfolding is_node_id valid_tag validate_tags
validate p =
    refuse_if (not (p.schema == 1)) PolicyError.bad_schema
    >> refuse_if (not (is_node_id p.node_id)) PolicyError.bad_node_id
    >> refuse_if (not (is_empty p.region) && not (valid_tag p.region)) PolicyError.bad_region
    >> validate_tags p.tags
    >> refuse_if (ltb 500 (length p.reason) || any is_control p.reason) PolicyError.bad_reason

module _ {V : Type 0} (json : Json V) (c : Crypto) (convert : Convert V NodePolicy) where
  unfoldable pub resource_name : Bytes → Result PolicyError Bytes
  unfolding is_node_id
  resource_name node_id =
      if not (is_node_id node_id)
      then err PolicyError.bad_node_id
      else ok (ascii "node-" ++ take 32 (c.hex (c.sha256 node_id)))

  -- The policy that `prepare_after` stores, with the tags normalized.
  abbrev pub cleaned : NodePolicy → List Bytes → NodePolicy
  cleaned p tags = record p {
    node_id = to_lower p.node_id;
    region = to_lower (trim p.region);
    tags = tags;
    reason = trim p.reason;
  }

  unfoldable pub prepare_policy_after :
      NodePolicy → Option ResourceView → Result PolicyError ResourceRecord
  unfolding to_lower trim normalize_tags validate resource_name prepare_after
  prepare_policy_after p head = normalize_tags p.tags >>= λ tags.
      let policy = cleaned p tags in
      validate policy >>= λ _. resource_name policy.node_id >>= λ name.
      map_err PolicyError.resource
        (prepare_after json c node_policy_kind name (convert.to_value policy) false head)

  abbrev pub from_json : Bytes → Option NodePolicy
  from_json text = elim (json.from_str text) [ none ↦ none | some value ↦ convert.from_value value ]

  unfoldable pub policy_spec : ResourceRecord → Result PolicyError NodePolicy
  unfolding validate resource_name
  policy_spec r =
      refuse_if (not (is_eq r.kind node_policy_kind) || r.deleted) PolicyError.not_a_policy
      >> elim (from_json r.spec_json) as (λ _. Result PolicyError NodePolicy) [
        | none ↦ err PolicyError.bad_spec
        | some policy ↦
            validate policy
            >> (resource_name policy.node_id >>= λ name.
                refuse_if (not (is_eq r.name name)) PolicyError.wrong_name)
            >> ok policy
      ]

  -- With what `resource::head` shows of policies.
  unfoldable pub policy_checked :
      (Bytes → Option ResourceView)
      → Bytes
      → Result PolicyError (Option (ResourceView × NodePolicy))
  policy_checked head node_id = resource_name node_id >>= λ name.
      elim (head name) as (λ _. Result PolicyError (Option (ResourceView × NodePolicy))) [
        | none ↦ ok none
        | some view ↦
            if view.resource.deleted
            then ok none
            else (policy_spec view.resource >>= λ policy. ok (some (view, policy)))
      ]

  unfoldable pub accepts_dns : (Bytes → Option ResourceView) → Bytes → Bool
  accepts_dns head node_id = elim (policy_checked head node_id) [
    | ok (some (_, policy)) ↦ not policy.drain && not policy.suspended
    | ok none ↦ true
    | err _ ↦ false
  ]
