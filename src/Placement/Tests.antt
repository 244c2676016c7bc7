-- ===== src/Placement/Tests.antt =====
-- The theorem on the policies of nodes at a concrete policy.
use randall_flare.Prelude.{
  ℕ, zero, suc, ◌≡◌, refl, sym, ◌∙◌, subst, Option, none, some, true, false, List, [], ◌∷◌, ◌++◌,
  all, any, is_some, take, filter, if◌then◌else◌, not,
}
use randall_flare.Prelude.Order.{Bytes, cmp_bytes, bytes_ord, is_eq}
use randall_flare.Prelude.Result.{Result, ok}
use randall_flare.Prelude.Table
use randall_flare.Prelude.Text.{ascii, starts_with, trim, trim_start}
use randall_flare.Prelude.Ascii.{to_lower, lower}
use randall_flare.Identity.Toy.{letters, twice, crypto}
use randall_flare.Manifest.Names.{valid_name}
use randall_flare.Resource.{Json, ResourceRecord, ResourceView, valid_kind, link_of, prepare_after}
use randall_flare.Access.{Convert, set_of}
use randall_flare.Placement.{
  NodePolicy, PolicyError, node_policy_kind, valid_tag, descends, validate_tags, collected,
  normalize_tags, is_node_id, validate, resource_name, cleaned, prepare_policy_after, from_json,
  accepts_dns,
}
use randall_flare.Placement.Policies.{accepts_dns-prepare_policy_after}

abbrev repeat : ℕ → ℕ → Bytes
repeat zero x = []
repeat (suc n) x = x ∷ repeat n x

abbrev given : NodePolicy
given = record {
  schema = 1;
  node_id = repeat 64 65;
  region = ascii " EU ";
  tags = ascii "Gpu" ∷ ascii " asia" ∷ ascii "gpu" ∷ [];
  drain = false;
  suspended = true;
  reason = ascii "repair ";
}

abbrev stored : NodePolicy
stored = record given {
  node_id = repeat 64 97;
  region = ascii "eu";
  tags = ascii "asia" ∷ ascii "gpu" ∷ [];
  reason = ascii "repair";
}

-- JSON texts are numbered: 1 is the policy, 0 is null.
abbrev json : Json (Option NodePolicy)
json = record {
  from_str = read;
  to_string = write;
  null = none;
  is_null = λ v. not (is_some v);
  is_object = λ v. is_some v;
  is_empty_object = λ v. false;
}
  where
    read : Bytes → Option (Option NodePolicy)
    read (suc zero ∷ []) = some (some stored)
    read (zero ∷ []) = some none
    read _ = none

    write : Option NodePolicy → Bytes
    write none = 0 ∷ []
    write (some s) = 1 ∷ []

abbrev convert : Convert (Option NodePolicy) NodePolicy
convert = record { to_value = some; from_value = λ v. v }

abbrev policy_name : Bytes
policy_name = ascii "node-" ++ take 32 (twice (letters 32 (repeat 64 97)))

abbrev policy_view : ResourceView
policy_view = record {
  resource = record {
    schema = 1;
    kind = node_policy_kind;
    name = policy_name;
    version = 1;
    prev = none;
    deleted = false;
    spec_json = 1 ∷ [];
  };
  digest = [];
}

normalizes : normalize_tags given.tags ≡ ok (ascii "asia" ∷ ascii "gpu" ∷ [])
unfolding normalize_tags trim trim_start to_lower lower filter collected set_of Table.insert
    validate_tags valid_tag descends all any starts_with cmp_bytes
normalizes = refl

prepares : prepare_policy_after json crypto convert given none ≡ ok policy_view.resource
unfolding prepare_policy_after normalize_tags trim trim_start to_lower lower filter collected set_of
    Table.insert validate_tags valid_tag descends validate is_node_id resource_name prepare_after
    link_of randall_flare.Resource.validate valid_kind valid_name all any starts_with cmp_bytes
prepares = refl

same_tags : (a b : List Bytes) → Path (Result PolicyError (List Bytes)) (ok a) (ok b) → a ≡ b
same_tags a b e = cc

reads_back :
    (tags : List Bytes)
    → normalize_tags given.tags ≡ ok tags
    → from_json json crypto convert
        (json.to_string (convert.to_value (cleaned json crypto convert given tags)))
      ≡ some (cleaned json crypto convert given tags)
unfolding to_lower lower trim trim_start
reads_back tags h =
    subst
      (λ tags.
        from_json json crypto convert
          (json.to_string (convert.to_value (cleaned json crypto convert given tags)))
        ≡ some (cleaned json crypto convert given tags))
      (same_tags (ascii "asia" ∷ ascii "gpu" ∷ []) tags (sym normalizes ∙ h)) refl

abbrev policy_head : Bytes → Option ResourceView
policy_head name = if is_eq name policy_name then some policy_view else none

accepts_dns-prepare_policy_after_example :
    accepts_dns json crypto convert policy_head (to_lower given.node_id) ≡ false
unfolding cmp_bytes
accepts_dns-prepare_policy_after_example =
    accepts_dns-prepare_policy_after json crypto convert given none policy_head policy_view
      reads_back prepares refl
