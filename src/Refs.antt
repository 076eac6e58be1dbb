-- ===== src/Refs.antt =====
-- icechunk/src/refs.rs: tags and branches. A branch is a sequence of files, one for each version,
-- whose names are encoded so that the latest version comes first in the order of names.
pub mod Versions
pub mod Writes
pub mod Branches
pub mod Contract
pub mod Updates
use icechunk.Prelude.{
  ℕ, ◌+◌, ◌-◌, ◌*◌, ◌/◌, ◌%◌, ◌^◌, ◌<◌, ◌≡◌, Bool, Option, none, some, List, [], ◌∷◌, ◌++◌, Str,
  codes, Eq, nat_eq, list_eq, ◌==◌, list_lt, list_beq, Result, ok, err, ◌>>=◌, map_ok, map_err,
  option_map, if◌then◌else◌, contains, length, strip_prefix, strip_suffix, head_of, try_map,
}
use icechunk.Format.{External, SnapshotId, Bytes}
use icechunk.Storage.{Storage, StorageError, StorageResult, ref_already_exists, wrapped}

pub record RefData : Type 0 where
  pub snapshot : SnapshotId

-- A list of byte values
abbrev pub AreBytes : List ℕ → Type 0
AreBytes [] = Unit
AreBytes (b ∷ bs) = (b < 256) × AreBytes bs

-- `base32` with Crockford's alphabet, and `serde_json` for `RefData`
pub record Codec : Type 0 where
  pub base32_encode : List ℕ → Str
  pub base32_decode : Str → Option (List ℕ)
  pub to_json : RefData → Bytes
  pub from_json : Bytes → Option RefData
  pub base32_round_trip : (bs : List ℕ) → AreBytes bs → base32_decode (base32_encode bs) ≡ some bs
  -- Five bytes are eight digits, and the alphabet is in the order of its characters.
  pub base32_length : (bs : List ℕ) → length bs ≡ 5 → length (base32_encode bs) ≡ 8
  pub base32_order :
      (bs cs : List ℕ)
      → AreBytes bs
      → AreBytes cs
      → length bs ≡ length cs
      → list_lt (base32_encode bs) (base32_encode cs) ≡ list_lt bs cs
  pub json_round_trip : (d : RefData) → from_json (to_json d) ≡ some d

pub data RefError : Type 0 where
  storage : StorageError → RefError
  ref_not_found : Str → RefError
  invalid_ref_type : Str → RefError
  invalid_ref_name : Str → RefError
  invalid_branch_version : Str → RefError
  tag_already_exists : Str → RefError
  serialization : RefError
  conflict : Option SnapshotId → Option SnapshotId → RefError

abbrev pub RefResult : Type 0 → Type 0
RefResult A = Result RefError A

pub data Ref : Type 0 where
  tag branch : Str → Ref

abbrev pub default_branch : Str
default_branch = codes "main"

abbrev or_invalid : Option Str → Str → RefResult Ref
or_invalid (some name) path = ok (branch name)
or_invalid none path = err (invalid_ref_type path)

abbrev tag_or_branch : Option Str → Str → RefResult Ref
tag_or_branch (some name) path = ok (tag name)
tag_or_branch none path = or_invalid (strip_prefix (codes "branch.") path) path

-- `Ref::from_path`
unfoldable pub from_path : Str → RefResult Ref
unfolding strip_prefix
from_path path = tag_or_branch (strip_prefix (codes "tag.") path) path

-- `n.to_be_bytes()[3..=7]`
unfoldable pub low_bytes : ℕ → List ℕ
low_bytes n =
    (n / 2 ^ 32 % 256)
    ∷ (n / 2 ^ 24 % 256)
    ∷ (n / 2 ^ 16 % 256)
    ∷ (n / 2 ^ 8 % 256)
    ∷ (n % 256)
    ∷ []

-- `u64::from_be_bytes` of three zero bytes and the given ones, if these are five
unfoldable pub from_low_bytes : List ℕ → Option ℕ
from_low_bytes (a ∷ b ∷ c ∷ d ∷ e ∷ []) =
    some (a * 2 ^ 32 + b * 2 ^ 24 + c * 2 ^ 16 + d * 2 ^ 8 + e)
from_low_bytes _ = none

abbrev pub max_version_number : ℕ
max_version_number = 1099511627775

abbrev pub json_suffix : Str
json_suffix = codes ".json"

unfoldable pub tag_key : Str → RefResult Str
tag_key name =
    if contains name b'/'
    then err (invalid_ref_name name)
    else ok (codes "tag." ++ (name ++ codes "/ref.json"))

unfoldable pub branch_root : Str → RefResult Str
branch_root name =
    if contains name b'/' then err (invalid_ref_name name) else ok (codes "branch." ++ name)

unfoldable pub branch_key : Str → Str → RefResult Str
unfolding branch_root
branch_key name version_id =
    map_ok (λ root. root ++ (codes "/" ++ (version_id ++ json_suffix))) (branch_root name)

module _ ⦃C : Codec⦄ where
  open C use {base32_encode, base32_decode, from_json}

  unfoldable pub crock_encode_int : ℕ → Str
  unfolding low_bytes
  crock_encode_int n = base32_encode (low_bytes n)

  abbrev bytes_to_int : Option (List ℕ) → Option ℕ
  bytes_to_int none = none
  bytes_to_int (some bs) = from_low_bytes bs

  unfoldable pub crock_decode_int : Str → Option ℕ
  unfolding from_low_bytes
  crock_decode_int text = bytes_to_int (base32_decode text)

  abbrev or_bad_version : Str → Option ℕ → RefResult ℕ
  or_bad_version version none = err (invalid_branch_version version)
  or_bad_version version (some n) = ok (max_version_number - n)

  -- `BranchVersion::decode`. Five bytes are at most the maximum, so the subtraction is exact.
  unfoldable pub decode_version : Str → RefResult ℕ
  unfolding crock_decode_int
  decode_version version = or_bad_version version (crock_decode_int version)

  -- `BranchVersion::encode`, with the wrap-around of `u64`
  unfoldable pub encode_version : ℕ → Str
  unfolding crock_encode_int
  encode_version v = crock_encode_int ((max_version_number + 2 ^ 64 - v) % 2 ^ 64)

  -- `to_path`
  unfoldable pub version_path : ℕ → Str → RefResult Str
  unfolding branch_key encode_version
  version_path v branch_name = branch_key branch_name (encode_version v)

  abbrev parse_ref : Option RefData → RefResult RefData
  parse_ref none = err serialization
  parse_ref (some d) = ok d

  -- The answer of `get_ref`, as `fetch_tag` and `fetch_branch` read it
  abbrev pub read_ref : Str → StorageResult Bytes → RefResult RefData
  read_ref name (ok bytes) = parse_ref (from_json bytes)
  read_ref name (err (StorageError.ref_not_found _)) = err (RefError.ref_not_found name)
  read_ref name (err (ref_already_exists key)) = err (storage (ref_already_exists key))
  read_ref name (err (wrapped e)) = err (storage (wrapped e))

  abbrev pub decode_name : Str → Option Str → RefResult ℕ
  decode_name version_id none = err (invalid_ref_name version_id)
  decode_name version_id (some version) = decode_version version

  -- One item of `branch_history`
  unfoldable pub history_item : StorageResult Str → RefResult ℕ
  unfolding decode_version strip_suffix
  history_item (err e) = err (storage e)
  history_item (ok version_id) = decode_name version_id (strip_suffix json_suffix version_id)

  abbrev pub first_or_missing : Str → List (StorageResult Str) → RefResult ℕ
  first_or_missing branch_name [] = err (RefError.ref_not_found branch_name)
  first_or_missing branch_name (v ∷ vs) = history_item v

module _ ⦃E : External⦄ ⦃S : Storage⦄ ⦃C : Codec⦄ where
  open S use {Store, get_ref, ref_names, ref_versions}

  -- `branch_history`, then the first item of the stream: the rest is never decoded.
  unfoldable pub last_branch_version : Store → Str → RefResult ℕ
  unfolding branch_root history_item
  last_branch_version s branch_name = do
    key ← branch_root branch_name
    all ← map_err storage (ref_versions s key)
    first_or_missing branch_name all

  unfoldable pub fetch_tag : Store → Str → RefResult RefData
  unfolding tag_key
  fetch_tag s name = do path ← tag_key name; read_ref name (get_ref s path)

  unfoldable pub fetch_branch : Store → Str → ℕ → RefResult RefData
  unfolding version_path
  fetch_branch s name version = do path ← version_path version name; read_ref name (get_ref s path)

  unfoldable pub fetch_branch_tip : Store → Str → RefResult RefData
  unfolding last_branch_version fetch_branch
  fetch_branch_tip s name = do version ← last_branch_version s name; fetch_branch s name version

  -- A tag, and where there is no such tag a branch
  abbrev tag_then_branch : Store → Str → RefResult RefData → RefResult (Ref × RefData)
  tag_then_branch s ref_name (ok from_ref) = ok (tag ref_name, from_ref)
  tag_then_branch s ref_name (err (RefError.ref_not_found _)) = do
    found ← fetch_branch_tip s ref_name
    ok (branch ref_name, found)
  tag_then_branch s ref_name (err e) = err e

  unfoldable pub fetch_ref : Store → Str → RefResult (Ref × RefData)
  unfolding fetch_tag fetch_branch_tip
  fetch_ref s ref_name = tag_then_branch s ref_name (fetch_tag s ref_name)

  -- `Ref::fetch`
  unfoldable pub ref_fetch : Ref → Store → RefResult RefData
  unfolding fetch_tag fetch_branch_tip
  ref_fetch (tag name) s = fetch_tag s name
  ref_fetch (branch name) s = fetch_branch_tip s name

  unfoldable pub list_refs : Store → RefResult (List Ref)
  unfolding from_path
  list_refs s = do all ← map_err storage (ref_names s); try_map from_path all
