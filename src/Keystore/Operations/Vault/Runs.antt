-- ===== src/Keystore/Operations/Vault/Runs.antt =====
-- Sequences of operations on the keystore, against the vault.
use apohara_sealchain.Prelude.{◌≡◌, refl, String, List, [], ◌∷◌, Option, some}
use apohara_sealchain.Error.{ok}
use apohara_sealchain.Crypto.{Crypto, CryptoLaws}
use apohara_sealchain.Sealing.{Keys}
use apohara_sealchain.Keystore.{KeystoreCrates}
use apohara_sealchain.Keystore.RoundTrip.{KeystoreLaws}
use apohara_sealchain.Keystore.Dir.{
  Dir, Faults, no_faults, Host, resolve_config_dir, M, ◌>>=◌, done,
}
use apohara_sealchain.Keystore.Store.{Fresh}
use apohara_sealchain.Keystore.Operations.{
  load_or_generate_with_passphrase, encrypt_keystore, decrypt_keystore, rotate,
}
use apohara_sealchain.Keystore.Operations.Vault.{
  Vault, empty, plain, locked, IsFresh, IsBundle, Holds,
}
use apohara_sealchain.Keystore.Operations.Vault.Steps.{
  stored, bundle_of, Ends, load_plain, load_locked, generate_empty, encrypt_plain, decrypt_locked,
  rotate_plain, rotate_locked,
}

-- A call of the library, with what the operating system then supplies.
pub data Call (c : Crypto) : Type 0 where
  load : Option String → Fresh c → Call c
  encrypt : String → Fresh c → Call c
  decrypt_with : String → Call c
  rotate_at : String → Option String → Fresh c → Call c

module _ (c : Crypto) (k : KeystoreCrates c) where
  unfoldable pub call : Faults → Host → Call c → M (Keys c)
  call w host (load pass fresh) = load_or_generate_with_passphrase c k w host pass fresh
  call w host (encrypt pass fresh) = encrypt_keystore c k w host pass fresh
  call w host (decrypt_with pass) = decrypt_keystore c k w host pass
  call w host (rotate_at stamp pass fresh) = rotate c k w host stamp pass fresh

  -- The calls in order, as far as they succeed, with the keys that each returns.
  unfoldable pub calls : Faults → Host → List (Call c) → M (List (Keys c))
  unfolding call
  calls w host [] = done []
  calls w host (x ∷ xs) = do keys ← call w host x; rest ← calls w host xs; done (keys ∷ rest)

  -- What a call does to the vault, and the keys that it returns.
  pub data Step : Vault c → Call c → Keys c → Vault c → Type 0 where
    generated :
        (pass : Option String) (fresh : Fresh c) (pem : String)
        → IsFresh fresh
        → IsBundle c k (bundle_of fresh pem)
        → Step empty (load pass fresh) (bundle_of fresh pem) (stored pass (bundle_of fresh pem))
    loaded :
        (keys : Keys c) (pass : Option String) (fresh : Fresh c)
        → Step (plain keys) (load pass fresh) keys (plain keys)
    unlocked :
        (keys : Keys c) (pass : String) (fresh : Fresh c)
        → Step (locked keys pass) (load (some pass) fresh) keys (locked keys pass)
    encrypted :
        (keys : Keys c) (pass : String) (fresh : Fresh c)
        → IsFresh fresh
        → Step (plain keys) (encrypt pass fresh) keys (locked keys pass)
    decrypted :
        (keys : Keys c) (pass : String)
        → Step (locked keys pass) (decrypt_with pass) keys (plain keys)
    rotated :
        (keys : Keys c) (stamp : String) (pass : Option String) (fresh : Fresh c) (pem : String)
        → IsFresh fresh
        → IsBundle c k (bundle_of fresh pem)
        → Step
            (plain keys)
            (rotate_at stamp pass fresh)
            (bundle_of fresh pem)
            (plain (bundle_of fresh pem))
    rotated_locked :
        (keys : Keys c) (pass stamp new_pass : String) (fresh : Fresh c) (pem : String)
        → IsFresh fresh
        → IsBundle c k (bundle_of fresh pem)
        → Step
            (locked keys pass)
            (rotate_at stamp (some new_pass) fresh)
            (bundle_of fresh pem)
            (locked (bundle_of fresh pem) new_pass)

  pub data Run : Vault c → List (Call c) → List (Keys c) → Vault c → Type 0 where
    finished : {v : Vault c} → Run v [] [] v
    then_run :
        {v u t : Vault c} {x : Call c} {xs : List (Call c)} {keys : Keys c} {rest : List (Keys c)}
        → Step v x keys u
        → Run u xs rest t
        → Run v (x ∷ xs) (keys ∷ rest) t

module _ (c : Crypto) (k : KeystoreCrates c) (cl : CryptoLaws c) (kl : KeystoreLaws c k)
    (host : Host) (dir : String) (resolved : resolve_config_dir host ≡ ok dir) where
  one_call :
      {v u : Vault c} {x : Call c} {keys : Keys c}
      → Step c k v x keys u
      → (d : Dir) → Holds c k d v
      → Ends c k cl kl host dir resolved (call c k no_faults host x d) keys u
  unfolding call
  one_call (generated pass fresh pem h bundle) d holds =
      generate_empty c k cl kl host dir resolved d pass fresh pem h bundle holds
  one_call (loaded keys pass fresh) d holds =
      (d, load_plain c k cl kl host dir resolved d keys pass fresh holds, holds)
  one_call (unlocked keys pass fresh) d holds =
      (d, load_locked c k cl kl host dir resolved d keys pass fresh holds, holds)
  one_call (encrypted keys pass fresh h) d holds =
      encrypt_plain c k cl kl host dir resolved d keys pass fresh h holds
  one_call (decrypted keys pass) d holds =
      decrypt_locked c k cl kl host dir resolved d keys pass holds
  one_call (rotated keys stamp pass fresh pem h bundle) d holds =
      rotate_plain c k cl kl host dir resolved d keys stamp pass fresh pem h bundle holds
  one_call (rotated_locked keys pass stamp new_pass fresh pem h bundle) d holds =
      rotate_locked c k cl kl host dir resolved d keys pass stamp new_pass fresh pem h bundle holds

  -- When no access fails, every run of the vault is a run of the directory: the calls all succeed, return
  -- the keys of the run, and leave a directory that holds the vault that the run ends in.
  pub calls_refine :
      {v t : Vault c} {xs : List (Call c)} {keys : List (Keys c)}
      → Run c k v xs keys t
      → (d : Dir) → Holds c k d v
      → (d' : Dir) × (calls c k no_faults host xs d ≡ (d', ok keys)) × Holds c k d' t
  unfolding calls
  calls_refine finished d holds = (d, refl, holds)
  calls_refine (then_run step run) d holds =
      let (d₁, e₁, h₁) = one_call step d holds in
      let (d₂, e₂, h₂) = calls_refine run d₁ h₁ in (d₂, rw (e₁, e₂) refl, h₂)
