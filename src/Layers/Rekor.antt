-- ===== src/Layers/Rekor.antt =====
-- crates/apohara-sealchain-core/src/layers/rekor.rs: the transparency anchor. The Merkle check, the
-- checkpoint parser and the signature check are the sigstore crates', a parameter of the model.
pub mod Sound
pub mod Anchor
pub mod Shards
use Prim.Native.String
use Prim.Native.String.{◌++◌}
use Prim.Native.Char.{code}
use apohara_sealchain.Prelude.Int.{ℤ, pos, negsuc}
use apohara_sealchain.Prelude.{
  ℕ, ◌+◌, String, Bytes, Bool, true, false, ◌&&◌, not, List, [], ◌∷◌, Option, none, some, ◌==◌,
  nat_eq, show, any, find?, if◌then◌else◌,
}
use apohara_sealchain.Error.{
  SealError, malformed, rekor, Result, ok, err, ◌>>=◌, ◌>>◌, map_err, ok_or, ensure,
}
use apohara_sealchain.Json.{
  Value, string, array, object, Items, nil, cons, Fields, end, field, get, get_field, as_str,
  as_i64, from_i64, and_then,
}
use apohara_sealchain.Crypto.{Crypto}
use apohara_sealchain.LayerResult.{LayerResult, layer}

pub record InclusionProof : Type 0 where
  pub log_index : ℤ
  pub tree_size : ℤ
  pub root_hash : String
  pub hashes : List String
  pub checkpoint : String

pub record RekorAnchor : Type 0 where
  pub log_index : ℤ
  pub log_id : String
  pub integrated_time : ℤ
  pub inclusion_proof : InclusionProof
  pub canonicalized_body : String
  pub envelope : Value
  pub verifier : Value

pub record ShardKey : Type 0 where
  pub log_id : String
  pub origin : String
  pub public_key_pem : String
  pub key_sha256 : String

pub record RekorCrates : Type 1 where
  pub Hash : Type 0
  pub Checkpoint : Type 0
  pub Signature : Type 0
  pub PublicKey : Type 0
  -- base64 STANDARD.decode; Sha256Hash::from_hex; the equality of hashes
  pub decode_base64 : String → Result String Bytes
  pub from_hex : String → Result String Hash
  pub hash_eq : Hash → Hash → Bool
  -- sigstore_merkle
  pub hash_leaf : Bytes → Hash
  pub verify_inclusion_proof : Hash → ℕ → ℕ → List Hash → Hash → Result String (Unit {0})
  -- sigstore_types::Checkpoint
  pub from_text : String → Result String Checkpoint
  pub checkpoint_root : Checkpoint → Hash
  pub signed_data : Checkpoint → Bytes
  pub signatures : Checkpoint → List Signature
  -- std::str::from_utf8; DerPublicKey::from_pem; sigstore_crypto::verify_ed25519
  pub from_utf8 : Bytes → Result String String
  pub from_pem : String → Result String PublicKey
  pub verify_ed25519 : PublicKey → Signature → Bytes → Bool

strings_to_items : List String → Items
strings_to_items [] = nil
strings_to_items (s ∷ ss) = cons (string s) (strings_to_items ss)

unfoldable pub proof_to_json : InclusionProof → Value
unfolding strings_to_items
proof_to_json p = object (
    field "logIndex" (from_i64 p.log_index) (
      field "treeSize" (from_i64 p.tree_size) (
        field "rootHash" (string p.root_hash) (
          field "hashes" (array (strings_to_items p.hashes))
            (field "checkpoint" (string p.checkpoint) end)))))

-- The entries of an anchor's JSON object, ahead of `rest`: sealing adds one entry more.
unfoldable pub anchor_fields : RekorAnchor → Fields → Fields
unfolding proof_to_json
anchor_fields a rest = field "logIndex" (from_i64 a.log_index) (
    field "logId" (string a.log_id) (
      field "integratedTime" (from_i64 a.integrated_time) (
        field "inclusionProof" (proof_to_json a.inclusion_proof) (
          field "canonicalizedBody" (string a.canonicalized_body)
            (field "envelope" a.envelope (field "verifier" a.verifier rest))))))

unfoldable pub to_json : RekorAnchor → Value
unfolding anchor_fields
to_json a = object (anchor_fields a end)

-- The derived deserializer of `InclusionProof`, from an object or an array of its fields.
abbrev Parsed : Type 0 → Type 0
Parsed A = Result (Unit {0}) A

parse_strings : Items → Parsed (List String)
parse_strings nil = ok []
parse_strings (cons v vs) = do s ← ok_or tt (as_str v); ss ← parse_strings vs; ok (s ∷ ss)

parse_hashes : Value → Parsed (List String)
parse_hashes (array xs) = parse_strings xs
parse_hashes _ = err tt

build_proof :
    Option Value → Option Value → Option Value → Option Value → Option Value → Parsed InclusionProof
build_proof index size root hashes checkpoint = do
  log_index ← ok_or tt (and_then index as_i64)
  tree_size ← ok_or tt (and_then size as_i64)
  root_hash ← ok_or tt (and_then root as_str)
  all_hashes ← ok_or tt hashes >>= parse_hashes
  text ← ok_or tt (and_then checkpoint as_str)
  ok (record {
    log_index = log_index;
    tree_size = tree_size;
    root_hash = root_hash;
    hashes = all_hashes;
    checkpoint = text;
  })

unfoldable pub parse_proof : Value → Parsed InclusionProof
unfolding build_proof parse_hashes parse_strings
parse_proof (object fs) =
    build_proof (get_field fs "logIndex") (get_field fs "treeSize") (get_field fs "rootHash")
      (get_field fs "hashes") (get_field fs "checkpoint")
parse_proof (array (cons i (cons t (cons r (cons h (cons c nil)))))) =
    build_proof (some i) (some t) (some r) (some h) (some c)
parse_proof _ = err tt

missing : String → SealError
missing name = malformed ("rekorAnchor missing " ++ name)

module _ (c : Crypto) where
  unfoldable pub from_json : Value → Result SealError RekorAnchor
  unfolding parse_proof missing
  from_json value = do
    proof_value ← ok_or (missing "inclusionProof") (get value "inclusionProof")
    inclusion_proof ←
        map_err (λ _. malformed ("rekorAnchor inclusionProof: " ++ c.shape_error proof_value))
          (parse_proof proof_value)
    log_index ← ok_or (missing "logIndex") (and_then (get value "logIndex") as_i64)
    log_id ← ok_or (missing "logId") (and_then (get value "logId") as_str)
    integrated_time ←
        ok_or (missing "integratedTime") (and_then (get value "integratedTime") as_i64)
    body ← ok_or (missing "canonicalizedBody") (and_then (get value "canonicalizedBody") as_str)
    envelope ← ok_or (missing "envelope") (get value "envelope")
    verifier ← ok_or (missing "verifier") (get value "verifier")
    ok (record {
      log_index = log_index;
      log_id = log_id;
      integrated_time = integrated_time;
      inclusion_proof = inclusion_proof;
      canonicalized_body = body;
      envelope = envelope;
      verifier = verifier;
    })

unfoldable pub resolve_shard : List ShardKey → String → Option ShardKey
resolve_shard shards log_id = find? (λ s. s.log_id == log_id) shards

pub data ShardActiveness : Type 0 where
  active undeterminable : ShardActiveness

unfoldable pub as_tag : ShardActiveness → String
as_tag active = "active"
as_tag undeterminable = "undeterminable"

-- `url.trim_end_matches('/')`
unfoldable pub trim_slashes : String → String
trim_slashes String.[] = String.[]
trim_slashes (String.◌∷◌ ch s) =
    let rest = trim_slashes s in
    if rest == "" && nat_eq (code ch) b'/' then String.[] else String.◌∷◌ ch rest

join_urls : List String → String
join_urls [] = ""
join_urls (u ∷ []) = u
join_urls (u ∷ (v ∷ us)) = u ++ ", " ++ join_urls (v ∷ us)

unfoldable pub stale : String → List String → SealError
unfolding join_urls
stale shard_url urls = rekor (
    "refusing to anchor to a stale Rekor shard: "
    ++ shard_url
    ++ " is not in the active Rekor v2 set from the Sigstore SigningConfig ("
    ++ join_urls urls
    ++ "). The active shard has rotated — pass `--rekor <active-url>` and add the new shard key to packaging/rekor-shards.json.")

unfoldable pub classify_shard : String → List String → Result SealError ShardActiveness
classify_shard shard_url [] = ok undeterminable
classify_shard shard_url (u ∷ us) =
    if any (λ v. trim_slashes v == trim_slashes shard_url) (u ∷ us)
    then ok active
    else err (stale shard_url (u ∷ us))

rekor_result : Bool → String → LayerResult
rekor_result passed reason = layer "rekor" passed reason

module _ (r : RekorCrates) where
  -- The loop over the proof hashes, from index i.
  decode_hashes : ℕ → List String → Result String (List r.Hash)
  decode_hashes i [] = ok []
  decode_hashes i (h ∷ hs) = do
    hash ← map_err (λ e. "proof hash[" ++ show i ++ "] invalid: " ++ e) (r.from_hex h)
    rest ← decode_hashes (i + 1) hs
    ok (hash ∷ rest)

  non_negative : ℤ → Result String ℕ
  non_negative (pos n) = ok n
  non_negative (negsuc n) = err "inclusion proof has negative index/size"

  unfoldable pub decode_public_key : Bytes → Result String r.PublicKey
  decode_public_key pem_bytes = do
    text ← map_err (λ e. "shard key pem not utf-8: " ++ e) (r.from_utf8 pem_bytes)
    map_err (λ e. "shard key pem invalid: " ++ e) (r.from_pem text)

  -- Check 1: the root that the leaf is included under.
  check_inclusion : RekorAnchor → Result String r.Hash
  check_inclusion anchor = do
    let proof = anchor.inclusion_proof
    body ←
        map_err (λ e. "canonicalizedBody not base64: " ++ e)
          (r.decode_base64 anchor.canonicalized_body)
    root ← map_err (λ e. "inclusion proof rootHash invalid: " ++ e) (r.from_hex proof.root_hash)
    hashes ← decode_hashes 0 proof.hashes
    leaf_index ← non_negative proof.log_index
    tree_size ← non_negative proof.tree_size
    map_err (λ e. "merkle inclusion failed: " ++ e)
        (r.verify_inclusion_proof (r.hash_leaf body) leaf_index tree_size hashes root)
    ok root

  -- Check 2: the checkpoint commits to that root and is signed with the shard key.
  check_checkpoint : RekorAnchor → Bytes → r.Hash → Result String (Unit {0})
  check_checkpoint anchor pem_bytes root = do
    checkpoint ←
        map_err (λ e. "checkpoint parse failed: " ++ e)
          (r.from_text anchor.inclusion_proof.checkpoint)
    ensure (r.hash_eq (r.checkpoint_root checkpoint) root)
        "checkpoint root hash != inclusion proof root hash"
    public_key ← decode_public_key pem_bytes
    ensure
        (any (λ sig. r.verify_ed25519 public_key sig (r.signed_data checkpoint))
          (r.signatures checkpoint))
        "checkpoint signature invalid for configured shard key"

  report : Result String (Unit {0}) → LayerResult
  report (ok done) =
      rekor_result true
        "merkle inclusion ok; checkpoint signature verified against configured shard key"
  report (err reason) = rekor_result false reason

  verify_with : RekorAnchor → Option Bytes → LayerResult
  verify_with anchor none = rekor_result false ("log key unknown for logId " ++ anchor.log_id)
  verify_with anchor (some pem_bytes) =
      report (do root ← check_inclusion anchor; check_checkpoint anchor pem_bytes root)

  unfoldable pub verify_anchor : RekorAnchor → Option Bytes → LayerResult
  unfolding verify_with report check_inclusion check_checkpoint decode_hashes non_negative
      decode_public_key rekor_result
  verify_anchor anchor shard_key_pem = verify_with anchor shard_key_pem
