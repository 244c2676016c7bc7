-- ===== src/Manifest/Tests.antt =====
-- A worker with two first versions, and the theorems on manifests at concrete inputs.
use randall_flare.Prelude.{
  ℕ, ◌≡◌, ◌==◌, if◌then◌else◌, refl, none, some, Option, false, List, [], ◌∷◌, all, any,
}
use randall_flare.Prelude.Order.{Bytes, cmp_bytes}
use randall_flare.Prelude.Result.{ok}
use randall_flare.Prelude.Text.{ascii, split, starts_with}
use randall_flare.Prelude.Table
use randall_flare.Identity.{to_string, SignerId, same_signer, same_id, verify, verify_public}
use randall_flare.Identity.Toy.{toy, pad}
use randall_flare.Envelope.{Codec, Envelope, open_envelope, digest}
use randall_flare.Manifest.Names.{valid_name, valid_hostname, valid_bundle_path}
use randall_flare.Manifest.{
  WorkerManifest, ManifestRecord, ManifestSet, ManifestIngest, ModuleKind, validate, check_paths,
  check_crons, check_hostnames, new, get, ingest, fold_record, verify_chain, verify_from,
}
use randall_flare.Manifest.Validation.{Servable, validate-Servable}
use randall_flare.Manifest.Merging.{Advanced, ingest-Advanced, arrive, fork_diverges}
use randall_flare.Manifest.Chain.{IsLog, IsRoot, verify_chain-IsLog}

abbrev operator : SignerId
operator = SignerId.ed (record { bytes = 9 ∷ [] })

abbrev manifest_of : ℕ → Option Bytes → WorkerManifest
manifest_of version prev = record {
  name = ascii "hello";
  version = version;
  prev = prev;
  deleted = false;
  main = ascii "a.js";
  modules = record { path = ascii "a.js"; sha256 = []; kind = ModuleKind.es_module; size = 1 } ∷ [];
  assets = [];
  hostnames = ascii "a.b" ∷ [];
  env = [];
  kv_bindings = [];
  crons = [];
  compatibility_date = [];
}

abbrev signed : Bytes → Envelope
signed payload = record { payload = payload; signer = operator; sig = pad 64 (9 ∷ []) }

abbrev record_of : ℕ → Option Bytes → Bytes → ManifestRecord
record_of version prev digest = record {
  manifest = manifest_of version prev;
  digest = digest;
  envelope = signed [];
}

valid : validate (manifest_of 1 none) ≡ ok tt
unfolding validate valid_name check_paths check_crons check_hostnames valid_hostname
    valid_bundle_path split all any starts_with cmp_bytes
valid = refl

validate-Servable_example : Servable (manifest_of 1 none)
validate-Servable_example = validate-Servable (manifest_of 1 none) valid refl

fork_diverges_example :
    let a = record_of 1 none (1 ∷ []) in
    let b = record_of 1 none (2 ∷ []) in
    let n = record_of 2 (some (2 ∷ [])) (3 ∷ []) in
    (get (arrive (new operator) (a ∷ n ∷ b ∷ [])) (ascii "hello") ≡ some a)
    × (get (arrive (new operator) (b ∷ n ∷ a ∷ [])) (ascii "hello") ≡ some n)
fork_diverges_example =
    fork_diverges operator (record_of 1 none (1 ∷ [])) (record_of 1 none (2 ∷ []))
      (record_of 2 (some (2 ∷ [])) (3 ∷ [])) refl refl refl refl refl refl
      (unfold cmp_bytes in refl)

-- A payload is a version, and the link of version 2 is the digest of version 1.
abbrev root_digest : Bytes
root_digest = digest toy (signed (1 ∷ []))

abbrev decode_version : Bytes → Option WorkerManifest
decode_version (n ∷ []) =
    some (if n == 1 then manifest_of 1 none else manifest_of 2 (some root_digest))
decode_version _ = none

abbrev versions : Codec WorkerManifest
versions = record { encode = λ m. m.version ∷ []; decode = decode_version }

abbrev holding : WorkerManifest → Bytes → Envelope → ManifestSet
holding m d env = record {
  operator = operator;
  workers = (ascii "hello", record { manifest = m; digest = d; envelope = env }) ∷ [];
}

abbrev at_first : ManifestSet
at_first = holding (manifest_of 1 none) root_digest (signed (1 ∷ []))

abbrev at_second : ManifestSet
at_second =
    holding (manifest_of 2 (some root_digest)) (digest toy (signed (2 ∷ []))) (signed (2 ∷ []))

taken : ingest toy versions at_first (signed (2 ∷ [])) ≡ ok (at_second, ManifestIngest.changed)
unfolding ingest digest open_envelope fold_record same_signer same_id verify verify_public validate
    valid_name check_paths check_crons check_hostnames valid_hostname valid_bundle_path split all
    any starts_with cmp_bytes Table.get Table.insert to_string
taken = refl

ingest-Advanced_example : Advanced at_first at_second
ingest-Advanced_example =
    ingest-Advanced toy versions at_first (signed (2 ∷ [])) (at_second, ManifestIngest.changed)
      taken

abbrev log : List Envelope
log = signed (1 ∷ []) ∷ signed (2 ∷ []) ∷ []

verifies :
    verify_chain toy versions log operator
    ≡ ok (manifest_of 1 none ∷ manifest_of 2 (some root_digest) ∷ [])
unfolding verify_chain verify_from open_envelope same_signer same_id verify verify_public cmp_bytes
    digest to_string
verifies = refl

verify_chain-IsLog_example :
    IsLog toy versions operator log (manifest_of 1 none ∷ manifest_of 2 (some root_digest) ∷ [])
    × IsRoot (manifest_of 1 none ∷ manifest_of 2 (some root_digest) ∷ [])
verify_chain-IsLog_example =
    verify_chain-IsLog toy versions log operator
      (manifest_of 1 none ∷ manifest_of 2 (some root_digest) ∷ []) verifies
