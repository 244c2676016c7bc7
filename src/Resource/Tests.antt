-- ===== src/Resource/Tests.antt =====
-- The theorems on platform resources at concrete records.
use randall_flare.Prelude.{
  ℕ, ◌≡◌, refl, inl, inr, ◌+◌, Option, none, some, Bool, true, false, List, [], ◌∷◌, length, all,
  arith, ap, sym, ◌∙◌,
}
use randall_flare.Prelude.Order.{Bytes, cmp_bytes}
use randall_flare.Prelude.Members.{In}
use randall_flare.Prelude.Result.{ok}
use randall_flare.Prelude.Text.{ascii, starts_with}
use randall_flare.Identity.Toy.{toy, pad}
use randall_flare.Manifest.Names.{valid_name}
use randall_flare.Resource.{
  Json, ResourceRecord, ResourceView, valid_kind, validate, link_of, decode_digest, prepare_after,
  connect_group,
}
use randall_flare.Resource.Chain.{IsConnected, SameVersions, connect_group-IsConnected}
use randall_flare.Resource.Versions.{prepare_after-IsConnected}

-- A JSON value is its text; an object is a text that is not empty.
abbrev texts : Json Bytes
texts = record {
  from_str = λ t. some t;
  to_string = λ v. v;
  null = [];
  is_null = empty;
  is_object = λ v. randall_flare.Prelude.not (empty v);
  is_empty_object = empty;
}
  where
    empty : Bytes → Bool
    empty [] = true
    empty (_ ∷ _) = false

abbrev record_of : ℕ → Option Bytes → ResourceRecord
record_of version prev = record {
  schema = 1;
  kind = ascii "k";
  name = ascii "n";
  version = version;
  prev = prev;
  deleted = false;
  spec_json = ascii "{}";
}

abbrev first : ResourceView
first = record { resource = record_of 1 none; digest = pad 32 (7 ∷ []) }

abbrev second : ResourceView
second = record { resource = record_of 2 (some (pad 32 (7 ∷ []))); digest = pad 32 (8 ∷ []) }

-- The later version arrived first.
abbrev group : List ResourceView
group = second ∷ first ∷ []

connect_group-IsConnected_example :
    ((v : ResourceView) → In v (connect_group toy group) → IsConnected toy group v)
    × (SameVersions toy group
        → (v : ResourceView) → IsConnected toy group v
        → In v (connect_group toy group))
connect_group-IsConnected_example = connect_group-IsConnected toy group

prepared :
    prepare_after texts toy (ascii "k") (ascii "n") (ascii "{}") false (some first)
    ≡ ok second.resource
unfolding prepare_after link_of decode_digest validate valid_kind valid_name all starts_with
    cmp_bytes
prepared = refl

prepare_after-IsConnected_example : IsConnected toy group second
prepare_after-IsConnected_example =
    prepare_after-IsConnected texts toy (λ b. refl) group (ascii "k") (ascii "n") (ascii "{}") false
      first second (pad 32 (7 ∷ [])) refl (omega arith)
      (IsConnected.genesis first (inr (inl refl)) refl refl) prepared (inl refl)
