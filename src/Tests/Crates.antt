-- ===== src/Tests/Crates.antt =====
-- Small concrete instances of the timestamp, transparency-log and C2PA crates, and a build of them.
use apohara_sealchain.Prelude.{
  ◌≡◌, refl, ap, sym, String, Bytes, Bool, false, [], ◌∷◌, none, some, ◌==◌, eq_iff, contains,
  bytes_eq, into_bytes, Bool-cases, inl, inr, if◌then◌else◌,
}
use apohara_sealchain.Error.{c2pa, ok, err}
use apohara_sealchain.Json.{Value, null, get, get_field, get_str, as_str, unwrap_or}
use apohara_sealchain.Excluded.{is_excluded, strip_excluded}
use apohara_sealchain.Layers.C2pa.{MediaCrates, payload_hash_label, hash_assertion}
use apohara_sealchain.Layers.C2pa.Binding.{MediaLaws}
use apohara_sealchain.Layers.Tsa.{verified, hash_mismatch, TsaCrates}
use apohara_sealchain.Layers.Rekor.{ShardKey, RekorCrates}
use apohara_sealchain.Artifact.{Crates}
use apohara_sealchain.Sealing.{payload_of}
use apohara_sealchain.Tests.Toy.{toy_runs, toy, toy_encode, canonical}

-- A token is the stamped bytes themselves.
abbrev pub toy_tsa : TsaCrates
toy_tsa = record {
  Root = Unit;
  check =
      λ der to_stamp. if bytes_eq der to_stamp then verified "time" else hash_mismatch "differs";
  check_chain = λ der to_stamp roots. verified "time";
  from_utf8 = λ b. ok "text";
  parse_many = λ s. ok [];
}

-- A tree has one leaf, which is its root; a checkpoint's text is its root and its signature.
abbrev pub toy_rekor : RekorCrates
toy_rekor = record {
  Hash = Bytes;
  Checkpoint = Bytes;
  Signature = Bytes;
  PublicKey = Bytes;
  decode_base64 = λ s. ok (into_bytes s);
  from_hex = λ s. ok (into_bytes s);
  hash_eq = bytes_eq;
  hash_leaf = λ b. b;
  verify_inclusion_proof =
      λ leaf i n hashes root. if bytes_eq leaf root then ok tt else err "root differs";
  from_text = λ s. ok (into_bytes s);
  checkpoint_root = λ cp. cp;
  signed_data = λ cp. cp;
  signatures = λ cp. cp ∷ [];
  from_utf8 = λ b. ok "key";
  from_pem = λ s. ok (into_bytes s);
  verify_ed25519 = λ k sig body. bytes_eq sig body;
}

abbrev pub file_payload : Value
file_payload = payload_of "1101110" "a.txt" 1 "application/octet-stream"

-- The one hash that the toy signs a sidecar for: that of the test payload.
unfoldable pub sidecar_hash : String
unfolding toy_runs payload_of is_excluded contains strip_excluded
sidecar_hash = toy_encode (2 ∷ canonical (strip_excluded file_payload))

abbrev pub toy_media : MediaCrates toy
toy_media = record {
  context = ok tt;
  read_sidecar = λ b. ok (record {
    is_invalid = false;
    active_manifest = some (record {
      assertions = ("other", ok null) ∷ (payload_hash_label, ok (hash_assertion sidecar_hash)) ∷ [];
      cert_chain = none;
    });
  });
  read_stream = λ b format. ok (record {
    is_invalid = false;
    active_manifest = some (record { assertions = []; cert_chain = some "cert" });
  });
  sign_sidecar = λ k label v ai.
      if unwrap_or (get_str v "hash") "" == sidecar_hash
      then ok (1 ∷ [])
      else err (c2pa "not signed");
  sign_stream = λ k b format ai. ok (1 ∷ b);
  spki_from_cert = λ chain. some (5 ∷ []);
}

signed_hash :
    (hash : String) (ai : Bool) (jumbf : Bytes)
    → toy_media.sign_sidecar 5 payload_hash_label (hash_assertion hash) ai ≡ ok jumbf
    → sidecar_hash ≡ hash
unfolding hash_assertion get_str get get_field as_str
signed_hash hash ai jumbf h = elim (Bool-cases (hash == sidecar_hash)) [
  | inl same ↦ sym ((eq_iff hash sidecar_hash).0 same)
  | inr differs ↦ cc
]

pub toy_media_laws : MediaLaws toy toy_media
toy_media_laws = record {
  sidecar_reads = λ k hash ai jumbf h.
      let same = signed_hash hash ai jumbf h in
      (
        record {
          assertions =
              ("other", ok null) ∷ (payload_hash_label, ok (hash_assertion sidecar_hash)) ∷ [];
          cert_chain = none;
        },
        ("other", ok null) ∷ [],
        [],
        refl,
        ap (λ x. ("other", ok null) ∷ (payload_hash_label, ok (hash_assertion x)) ∷ []) same,
        (refl, tt),
      );
}

abbrev pub toy_shard : ShardKey
toy_shard = record { log_id = "log"; origin = "origin"; public_key_pem = "pem"; key_sha256 = "sha" }

abbrev pub toy_crates : Crates
toy_crates = record {
  crypto = toy;
  media = toy_media;
  tsa = toy_tsa;
  rekor = toy_rekor;
  shard_file = ok (toy_shard ∷ []);
}
