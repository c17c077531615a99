-- ===== src/TrustProfile.antt =====
-- crates/apohara-sealchain-core/src/trust_profile.rs: the named profiles and the qualified hosts, as
-- the embedded crates/apohara-sealchain-core/trust-profile.json parses. The proof matrix, the texts
-- and the layer one-liners of that document are not modelled.
use apohara_sealchain.Prelude.{
  ℕ, String, Bool, true, false, List, [], ◌∷◌, map, Option, none, some, ◌==◌, if◌then◌else◌,
}

pub record NamedProfile : Type 0 where
  pub title : String
  pub require_layers : List String
  pub min_layers : Option ℕ
  pub require_qualified_tsa : Bool

pub record TrustProfile : Type 0 where
  pub schema_version : String
  pub profiles : List (String × NamedProfile)
  pub known_qualified_tsa_hosts : List String

-- A map's entries stand in the order of its keys.
abbrev pub trust_profile : TrustProfile
trust_profile = record {
  schema_version = "apohara-trust-profile-v1";
  profiles =
      (
        "full",
        record {
          title = "Full five-layer";
          require_layers = "hmac" ∷ "ed25519" ∷ "c2pa" ∷ "tsa" ∷ "rekor" ∷ [];
          min_layers = some 5;
          require_qualified_tsa = false;
        },
      )
      ∷ (
        "legal-grade",
        record {
          title = "Legal-grade timestamp";
          require_layers = "ed25519" ∷ "tsa" ∷ [];
          min_layers = some 2;
          require_qualified_tsa = true;
        },
      )
      ∷ (
        "offline-basic",
        record {
          title = "Offline basic";
          require_layers = "hmac" ∷ "ed25519" ∷ "c2pa" ∷ [];
          min_layers = some 3;
          require_qualified_tsa = false;
        },
      )
      ∷ (
        "transparency",
        record {
          title = "Public transparency";
          require_layers = "ed25519" ∷ "rekor" ∷ [];
          min_layers = some 2;
          require_qualified_tsa = false;
        },
      )
      ∷ [];
  known_qualified_tsa_hosts = "timestamp.actalis.it" ∷ [];
}

unfoldable pub find_profile : List (String × NamedProfile) → String → Option NamedProfile
find_profile [] name = none
find_profile ((key, profile) ∷ rest) name =
    if key == name then some profile else find_profile rest name

unfoldable pub named_profile : String → Option NamedProfile
unfolding find_profile
named_profile name = find_profile trust_profile.profiles name

unfoldable pub profile_names : List String
profile_names = map (λ (entry : String × NamedProfile). entry.0) trust_profile.profiles

unfoldable pub known_qualified_tsa_hosts : List String
known_qualified_tsa_hosts = trust_profile.known_qualified_tsa_hosts
