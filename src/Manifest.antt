-- ===== src/Manifest.antt =====
-- crates/rf-core/src/manifest.rs: signed worker manifests, and the set of workers that nodes merge. Names,
-- host names and paths are UTF-8 bytes. A HashMap is a table in key order.
pub mod Names
pub mod Validation
pub mod Merging
pub mod Chain
mod Tests
use randall_flare.Prelude.{
  ℕ, ◌+◌, Option, none, some, Bool, true, false, not, ◌&&◌, ◌||◌, List, [], ◌∷◌, ◌++◌, map, ltb,
  leb, ◌==◌, if◌then◌else◌, filter, length, is_none, is_some, all, any, get_last?, add_u64,
}
use randall_flare.Prelude.Order.{Bytes, bytes_ord, is_lt, is_eq}
use randall_flare.Prelude.Result.{Result, ok, err, ◌>>=◌, ◌>>◌, map_err}
use randall_flare.Prelude.Text.{ascii, starts_with, split, le_bytes}
use randall_flare.Prelude.Table
use randall_flare.Prelude.Table.{Table}
use randall_flare.Identity.{Crypto, SignerId}
use randall_flare.Envelope.{Codec, Envelope, EnvelopeError, open_envelope}
use randall_flare.Cron
use randall_flare.Manifest.Names.{is_empty, valid_name, valid_hostname, valid_bundle_path}

pub data ModuleKind : Type 0 where
  es_module common_js wasm text data_file : ModuleKind

pub record Module : Type 0 where
  pub path : Bytes
  pub sha256 : Bytes
  pub kind : ModuleKind
  pub size : ℕ

pub record AssetFile : Type 0 where
  pub path : Bytes
  pub sha256 : Bytes
  pub size : ℕ

pub record WorkerManifest : Type 0 where
  pub name : Bytes
  pub version : ℕ
  pub prev : Option Bytes
  pub deleted : Bool
  pub main : Bytes
  pub modules : List Module
  pub assets : List AssetFile
  pub hostnames : List Bytes
  pub env : Table Bytes Bytes
  pub kv_bindings : Table Bytes Bytes
  pub crons : List Bytes
  pub compatibility_date : Bytes

pub data ManifestError : Type 0 where
  envelope : EnvelopeError → ManifestError
  not_operator bad_name main_not_in_modules chain_broken : ManifestError
  bad_cron bad_hostname bad_path duplicate_path : Bytes → ManifestError

-- `Display`.
abbrev pub error_text : ManifestError → Bytes
error_text (ManifestError.envelope e) = ascii "envelope: " ++ randall_flare.Envelope.error_text e
error_text ManifestError.not_operator = ascii "not signed by the operator key"
error_text ManifestError.bad_name = ascii "worker name must be [a-z0-9-]{1,63}"
error_text ManifestError.main_not_in_modules = ascii "main module not in modules list"
error_text (ManifestError.bad_cron c) = ascii "invalid cron expression: " ++ c
error_text (ManifestError.bad_hostname h) = ascii "invalid hostname: " ++ h
error_text (ManifestError.bad_path p) = ascii "unsafe worker bundle path: " ++ p
error_text (ManifestError.duplicate_path p) = ascii "duplicate path in bundle: " ++ p
error_text ManifestError.chain_broken = ascii "manifest hash chain broken"

-- The loop over the paths, with those seen.
unfoldable pub check_paths : List Bytes → List Bytes → Result ManifestError (Unit {0})
check_paths seen [] = ok tt
check_paths seen (p ∷ ps) =
    let rest = check_paths (p ∷ seen) ps in
    if not (valid_bundle_path p)
    then err (ManifestError.bad_path p)
    else if any (λ q. is_eq q p) seen
    then err (ManifestError.duplicate_path p)
    else rest

abbrev pub is_cron : Bytes → Bool
is_cron c = elim (Cron.parse c) [ ok _ ↦ true | err _ ↦ false ]

unfoldable pub check_crons : List Bytes → Result ManifestError (Unit {0})
check_crons [] = ok tt
check_crons (c ∷ cs) =
    let rest = check_crons cs in if is_cron c then rest else err (ManifestError.bad_cron c)

unfoldable pub check_hostnames : List Bytes → Result ManifestError (Unit {0})
check_hostnames [] = ok tt
check_hostnames (h ∷ hs) =
    let rest = check_hostnames hs in
    if valid_hostname h then rest else err (ManifestError.bad_hostname h)

-- The paths of the modules and of the assets.
abbrev pub all_paths : WorkerManifest → List Bytes
all_paths m = map (λ (x : Module). x.path) m.modules ++ map (λ (x : AssetFile). x.path) m.assets

-- `self.main.is_empty() || self.modules.iter().any(..)`.
abbrev pub has_main : WorkerManifest → Bool
has_main m = is_empty m.main || any (λ (x : Module). is_eq x.path m.main) m.modules

-- `(version == 1) == prev.is_none()`.
abbrev pub same_bool : Bool → Bool → Bool
same_bool true b = b
same_bool false b = not b

unfoldable pub validate : WorkerManifest → Result ManifestError (Unit {0})
validate m =
    let content =
      check_paths [] (all_paths m) >> check_crons m.crons >> check_hostnames m.hostnames in
    if not (valid_name m.name)
    then err ManifestError.bad_name
    else if not (same_bool (m.version == 1) (is_none m.prev))
    then err ManifestError.chain_broken
    else if m.deleted
    then ok tt
    else if not (has_main m)
    then err ManifestError.main_not_in_modules
    else content

unfoldable pub blob_refs : WorkerManifest → List Bytes
blob_refs m = map (λ (x : Module). x.sha256) m.modules ++ map (λ (x : AssetFile). x.sha256) m.assets

pub record ManifestRecord : Type 0 where
  pub manifest : WorkerManifest
  pub digest : Bytes
  pub envelope : Envelope

pub data ManifestIngest : Type 0 where
  changed stale : ManifestIngest

pub record ManifestSet : Type 0 where
  pub operator : SignerId
  pub workers : Table Bytes ManifestRecord

unfoldable pub new : SignerId → ManifestSet
new operator = record { operator = operator; workers = [] }

-- `newer` of `ingest`.
abbrev pub newer : ManifestRecord → ManifestRecord → Bool
newer r existing =
    ltb existing.manifest.version r.manifest.version
    || ((r.manifest.version == existing.manifest.version) && is_lt r.digest existing.digest)

abbrev pub links : Option Bytes → Bytes → Bool
links none digest = false
links (some p) digest = is_eq p digest

-- A direct successor that does not link the envelope that is held.
abbrev pub breaks_chain : ManifestRecord → ManifestRecord → Bool
breaks_chain r existing =
    (r.manifest.version == add_u64 existing.manifest.version 1)
    && not (links r.manifest.prev existing.digest)

-- `ingest` past opening and validation.
unfoldable pub fold_record :
    ManifestSet → ManifestRecord → Result ManifestError (ManifestSet × ManifestIngest)
fold_record set r =
    let put : ManifestSet × ManifestIngest = (
      record set { workers = Table.insert r.manifest.name r set.workers },
      ManifestIngest.changed,
    ) in
    elim (Table.get set.workers r.manifest.name) [
      | none ↦ ok put
      | some existing ↦
          if not (newer r existing)
          then ok (set, ManifestIngest.stale)
          else if breaks_chain r existing
          then err ManifestError.chain_broken
          else ok put
    ]

-- The `map_err` of `ingest` and of `verify_chain`.
abbrev pub open_error : EnvelopeError → ManifestError
open_error EnvelopeError.bad_signature = ManifestError.not_operator
open_error e = ManifestError.envelope e

unfoldable pub get : ManifestSet → Bytes → Option ManifestRecord
get set name = Table.get set.workers name

unfoldable pub all_workers : ManifestSet → List ManifestRecord
all_workers set = map (λ (p : Bytes × ManifestRecord). p.1) set.workers

unfoldable pub live : ManifestSet → List ManifestRecord
unfolding all_workers
live set = filter (λ r. not r.manifest.deleted) (all_workers set)

-- `entry(h).and_modify(..).or_insert(rec)`.
unfoldable pub claim_host :
    ManifestRecord → Table Bytes ManifestRecord → Bytes → Table Bytes ManifestRecord
claim_host r by_host h = elim (Table.get by_host h) [
  | none ↦ Table.insert h r by_host
  | some cur ↦ if is_lt r.digest cur.digest then Table.insert h r by_host else by_host
]

unfoldable pub claim_hosts :
    ManifestRecord → List Bytes → Table Bytes ManifestRecord → Table Bytes ManifestRecord
claim_hosts r [] by_host = by_host
claim_hosts r (h ∷ hs) by_host = claim_hosts r hs (claim_host r by_host h)

unfoldable pub route_all :
    List ManifestRecord → Table Bytes ManifestRecord → Table Bytes ManifestRecord
route_all [] by_host = by_host
route_all (r ∷ rs) by_host = route_all rs (claim_hosts r r.manifest.hostnames by_host)

unfoldable pub routes : ManifestSet → Table Bytes Bytes
routes set =
    map (λ (p : Bytes × ManifestRecord). (p.0, p.1.manifest.name)) (route_all (live set) [])

unfoldable pub digest_input : Table Bytes ManifestRecord → Bytes
digest_input [] = []
digest_input ((n, r) ∷ rest) =
    n ++ (le_bytes 8 r.manifest.version ++ (r.digest ++ digest_input rest))

unfoldable pub len : ManifestSet → ℕ
len set = length set.workers

-- The tests of `verify_chain` on a manifest, with the one before it and that one's digest.
abbrev pub follows : Option WorkerManifest → Option Bytes → WorkerManifest → Bool
follows (some last) digest m =
    ((m.version == add_u64 last.version 1) && is_eq m.name last.name)
    && elim digest [ none ↦ is_none m.prev | some d ↦ links m.prev d ]
follows none digest m = not ((m.version == 1) && is_some m.prev)

module _ (c : Crypto) where
  -- `digest`, whose names are sorted: the table's order.
  unfoldable pub digest : ManifestSet → Bytes
  digest set = c.sha256 (digest_input set.workers)

module _ (c : Crypto) (codec : Codec WorkerManifest) where
  unfoldable pub ingest :
      ManifestSet → Envelope → Result ManifestError (ManifestSet × ManifestIngest)
  ingest set env = map_err open_error (open_envelope c codec env (some set.operator)) >>= λ m.
      validate m >>= λ _.
      fold_record set
        (record { manifest = m; digest = randall_flare.Envelope.digest c env; envelope = env })

  -- The loop of `verify_chain`, with the manifest before and its digest.
  unfoldable pub verify_from :
      SignerId
      → Option WorkerManifest
      → Option Bytes
      → List Envelope
      → Result ManifestError (List WorkerManifest)
  verify_from operator last digest [] = ok []
  verify_from operator last digest (env ∷ envs) =
      map_err open_error (open_envelope c codec env (some operator)) >>= λ m.
      if follows last digest m
      then (verify_from operator (some m) (some (randall_flare.Envelope.digest c env)) envs
          >>= λ ms. ok (m ∷ ms))
      else err ManifestError.chain_broken

  unfoldable pub verify_chain :
      List Envelope → SignerId → Result ManifestError (List WorkerManifest)
  unfolding verify_from
  verify_chain envelopes operator = verify_from operator none none envelopes
