-- ===== src/Keystore/Operations/Vault.antt =====
-- The keystore as a vault: empty, in the clear, or locked under a passphrase.
pub mod Steps
pub mod Runs
use apohara_sealchain.Prelude.{
  ◌≡◌, refl, ap, ◌∙◌, arith, String, Bytes, List, Option, none, some, into_bytes, length,
}
use apohara_sealchain.Error.{Result, SealError, ok}
use apohara_sealchain.Crypto.{Crypto, CryptoLaws}
use apohara_sealchain.Sealing.{Keys}
use apohara_sealchain.Keystore.{
  KeystoreCrates, Secret, secret_of, from_parts, encrypt_secret, decrypt_secret,
}
use apohara_sealchain.Keystore.RoundTrip.{KeystoreLaws, decrypt_secret-encrypt_secret}
use apohara_sealchain.Keystore.Dir.{Files, Dir, no_faults, Host, M}
use apohara_sealchain.Keystore.Store.{
  Fresh, load_plaintext, load_encrypted, write_plaintext, write_encrypted,
}

pub data Vault (c : Crypto) : Type 0 where
  empty : Vault c
  plain : Keys c → Vault c
  locked : Keys c → String → Vault c

abbrev pub dir_of :
    (ed25519_pem hmac_key keystore_enc public_pem : Option Bytes) → List (String × Files) → Dir
dir_of ed25519_pem hmac_key keystore_enc public_pem archive = record {
  active = record {
    ed25519_pem = ed25519_pem;
    hmac_key = hmac_key;
    keystore_enc = keystore_enc;
    public_pem = public_pem;
  };
  archive = archive;
}

abbrev pub IsFresh : {c : Crypto} → Fresh c → Type 0
IsFresh fresh = (length fresh.salt ≡ 16) × (length fresh.nonce ≡ 24)

module _ (c : Crypto) (k : KeystoreCrates c) where
  -- The bytes are the PEM of a signing key.
  pub record IsPem (b : Bytes) (s : c.SigningKey) : Type 0 where
    pub pem : String
    pub is_text : k.from_utf8 b ≡ ok pem
    pub parses : k.from_pkcs8_pem pem ≡ ok s

  -- The blob opens under the passphrase to the bundle's material.
  pub record Opens (blob : Bytes) (pass : String) (keys : Keys c) : Type 0 where
    pub secret : Secret
    pub decrypts : decrypt_secret c k blob pass ≡ ok secret
    pub parses : k.from_pkcs8_pem secret.ed25519_pkcs8_pem ≡ ok keys.ed25519
    pub decodes : c.decode secret.hmac_hex ≡ ok keys.hmac

  abbrev pub IsBundle : Keys c → Type 0
  IsBundle keys = from_parts c k keys.hmac keys.ed25519 ≡ ok keys

  -- What the directory holds: in the clear both files and no blob; locked the blob and the public key,
  -- and neither file.
  abbrev pub Holds : Dir → Vault c → Type 0
  Holds d empty = (p : Option Bytes) × (a : List (String × Files)) × (d ≡ dir_of none none none p a)
  Holds d (plain keys) =
      (b : Bytes) × (p : Option Bytes) × (a : List (String × Files)) × (d
        ≡ dir_of (some b) (some keys.hmac) none p a)
      × IsPem b keys.ed25519
      × IsBundle keys
  Holds d (locked keys pass) =
      (blob : Bytes) × (public : Bytes) × (a : List (String × Files)) × (d
        ≡ dir_of none none (some blob) (some public) a)
      × (k.from_utf8 public ≡ ok keys.ed25519_public_pem)
      × Opens blob pass keys
      × IsBundle keys

  public_of :
      (keys : Keys c) (public : String)
      → IsBundle keys
      → c.to_public_key_pem (c.verifying_key keys.ed25519) ≡ ok public
      → public ≡ keys.ed25519_public_pem
  unfolding from_parts
  public_of keys public bundle e = ground arith

  module _ (host : Host) (dir : String) where
    pub load_plaintext_lem :
        (b : Bytes) (e p : Option Bytes) (a : List (String × Files)) (keys : Keys c)
        → IsPem b keys.ed25519
        → IsBundle keys
        → load_plaintext c k no_faults host dir (dir_of (some b) (some keys.hmac) e p a)
          ≡ (dir_of (some b) (some keys.hmac) e p a, ok keys)
    unfolding load_plaintext
    load_plaintext_lem b e p a keys pem bundle = rw (pem.is_text, pem.parses, bundle) refl

    pub load_encrypted_lem :
        (blob : Bytes) (ed hm p : Option Bytes) (a : List (String × Files)) (keys : Keys c)
        (pass : String)
        → Opens blob pass keys
        → IsBundle keys
        → load_encrypted c k no_faults host dir (some pass) (dir_of ed hm (some blob) p a)
          ≡ (dir_of ed hm (some blob) p a, ok keys)
    unfolding load_encrypted
    load_encrypted_lem blob ed hm p a keys pass o bundle =
        rw (o.decrypts, o.parses, o.decodes, bundle) refl

    module _ (cl : CryptoLaws c) (kl : KeystoreLaws c k) where
      pub write_plaintext_lem :
          (s : c.SigningKey) (hmac : Bytes) (ed hm e p : Option Bytes) (a : List (String × Files))
          → (b : Bytes) × IsPem b s
            × (write_plaintext c k no_faults host dir s hmac (dir_of ed hm e p a)
                ≡ (dir_of (some b) (some hmac) e p a, ok tt))
      unfolding write_plaintext
      write_plaintext_lem s hmac ed hm e p a =
          let (pem, e₁, e₂) = kl.pkcs8_reads s in
          (
            into_bytes pem,
            record { pem = pem; is_text = kl.private_utf8 s pem e₁; parses = e₂ },
            rw e₁ refl,
          )

      pub write_encrypted_lem :
          (keys : Keys c) (pass : String) (salt nonce : Bytes) (ed hm e p : Option Bytes)
          (a : List (String × Files))
          → length salt ≡ 16
          → length nonce ≡ 24
          → IsBundle keys
          → (blob : Bytes) × (public : Bytes) × Opens blob pass keys
            × (k.from_utf8 public ≡ ok keys.ed25519_public_pem)
            × (write_encrypted c k no_faults host dir keys.ed25519 keys.hmac pass salt nonce
                  (dir_of ed hm e p a)
                ≡ (dir_of ed hm (some blob) (some public) a, ok tt))
      unfolding write_encrypted
      write_encrypted_lem keys pass salt nonce ed hm e p a hs hn bundle =
          let (pem, e₁, e₂) = kl.pkcs8_reads keys.ed25519 in
          let (blob, e₃, e₄) =
            decrypt_secret-encrypt_secret c k cl kl keys.ed25519 pem pass keys.hmac salt nonce e₁ hs
              hn in
          let (public, e₅) = kl.public_pem_total (c.verifying_key keys.ed25519) in
          (
            blob,
            into_bytes public,
            record {
              secret = secret_of c pem keys.hmac;
              decrypts = e₄;
              parses = e₂;
              decodes = cl.decode-encode keys.hmac;
            },
            kl.public_utf8 (c.verifying_key keys.ed25519) public e₅
                ∙ ap ok (public_of keys public bundle e₅),
            rw (e₁, e₃, e₅) refl,
          )
