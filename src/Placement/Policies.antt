-- ===== src/Placement/Policies.antt =====
-- A node's policy reaches the decisions about the node (crates/rf/src/placement.rs).
use randall_flare.Prelude.{
  ◌≡◌, refl, ap, ◌∙◌, subst, Option, some, true, false, not, ◌&&◌, List, arith,
}
use randall_flare.Prelude.Order.{Bytes, bytes_ord, is_eq}
use randall_flare.Prelude.Result.{ok, bind_ok, map_err_ok}
use randall_flare.Prelude.Ascii.{to_lower}
use randall_flare.Identity.{Crypto}
use randall_flare.Resource.{Json, ResourceRecord, ResourceView}
use randall_flare.Resource.Versions.{prepare_after_text}
use randall_flare.Access.{Convert}
use randall_flare.Placement.{
  NodePolicy, PolicyError, node_policy_kind, validate, normalize_tags, resource_name, cleaned,
  prepare_policy_after, from_json, policy_spec, policy_checked, accepts_dns,
}

eq_self : (x y : Bytes) → x ≡ y → is_eq x y ≡ true
eq_self x y e = ground (arith, e, bytes_ord.cmp_self y)

module _ {V : Type 0} (json : Json V) (c : Crypto) (convert : Convert V NodePolicy) where
  policy_spec_of :
      (r : ResourceRecord) (p : NodePolicy) (name : Bytes)
      → r.kind ≡ node_policy_kind
      → r.deleted ≡ false
      → from_json json c convert r.spec_json ≡ some p
      → validate p ≡ ok tt
      → resource_name json c convert p.node_id ≡ ok name
      → r.name ≡ name
      → policy_spec json c convert r ≡ ok p
  unfolding policy_spec
  policy_spec_of r p name kind kept read valid named same =
      rw
        (
          policy_spec,
          eq_self r.kind node_policy_kind kind,
          kept,
          read,
          valid,
          named,
          eq_self r.name name same,
        )
        refl

  accepts_dns_of :
      (head : Bytes → Option ResourceView) (node_id name : Bytes) (v : ResourceView)
      (p : NodePolicy)
      → resource_name json c convert node_id ≡ ok name
      → head name ≡ some v
      → v.resource.deleted ≡ false
      → policy_spec json c convert v.resource ≡ ok p
      → accepts_dns json c convert head node_id ≡ not p.drain && not p.suspended
  unfolding accepts_dns policy_checked
  accepts_dns_of head node_id name v p named found kept read =
      rw (accepts_dns, policy_checked, named, found, read, kept) refl

  -- A node's own policy decides whether it takes DNS: once a record that `prepare_after` made of a policy
  -- is the head of its name, the node, by its identity in lower case, accepts DNS exactly if the policy
  -- neither drains nor suspends it. serde_json has to read back what it wrote of the policy.
  pub accepts_dns-prepare_policy_after :
      (p : NodePolicy) (before : Option ResourceView) (head : Bytes → Option ResourceView)
      (v : ResourceView)
      → ((tags : List Bytes)
          → normalize_tags p.tags ≡ ok tags
          → from_json json c convert
              (json.to_string (convert.to_value (cleaned json c convert p tags)))
            ≡ some (cleaned json c convert p tags))
      → prepare_policy_after json c convert p before ≡ ok v.resource
      → head v.resource.name ≡ some v
      → accepts_dns json c convert head (to_lower p.node_id) ≡ not p.drain && not p.suspended
  unfolding prepare_policy_after
  accepts_dns-prepare_policy_after p before head v law h at =
      let (tags, clean, h) = bind_ok (normalize_tags p.tags) _ v.resource h in
      let policy = cleaned json c convert p tags in
      let (_, valid, h) = bind_ok (validate policy) _ v.resource h in
      let (name, named, h) = bind_ok (resource_name json c convert policy.node_id) _ v.resource h in
      let (kind, same, kept, text) =
        prepare_after_text json c node_policy_kind name (convert.to_value policy) false before
          v.resource (map_err_ok PolicyError.resource _ v.resource h) in
      accepts_dns_of head (to_lower p.node_id) name v policy named
        (subst (λ n. head n ≡ some v) same at) kept
        (policy_spec_of v.resource policy name kind kept
          (ap (from_json json c convert) text ∙ law tags clean) valid named same)
