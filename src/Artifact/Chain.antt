-- ===== src/Artifact/Chain.antt =====
-- crates/apohara-sealchain-core/src/artifact.rs, render_chain: the audit trail of a receipt.
use Prim.Native.String.{◌++◌}
use text.Mathlib.TextLemmas.{append_assoc}
use apohara_sealchain.Prelude.Int.{show_int}
use apohara_sealchain.Prelude.{
  ℕ, ◌≡◌, refl, ap, ◌∙◌, String, Bool, true, false, ◌||◌, ◌&&◌, List, [], ◌∷◌, Option, none, some,
  show, strip_prefix, strip_prefix-append,
}
use apohara_sealchain.Json.{
  Value, null, bool, number, string, array, object, positive, negative, float, get, get_str, as_i64,
  and_then, unwrap_or, is_some,
}
use apohara_sealchain.Schema.{Ed25519Layer, SealBlock, SealedRecord, map_option}
use apohara_sealchain.Index.{is_true, push_if, present_layers}
use apohara_sealchain.Index.Store.{starts_with}

-- `Value::as_u64`
as_u64 : Value → Option ℕ
as_u64 (number (positive n)) = some n
as_u64 (number (negative n)) = none
as_u64 (number (float bits)) = none
as_u64 null = none
as_u64 (bool b) = none
as_u64 (string s) = none
as_u64 (array xs) = none
as_u64 (object fs) = none

-- What is pushed, in order.
artifact_line : Value → Option String → List String
artifact_line payload none = []
artifact_line payload (some path) =
    let size = unwrap_or (map_option show (and_then (get payload "size") as_u64)) "?" in
    ("artifact: " ++ path ++ " (" ++ size ++ " bytes)\n") ∷ []

ed25519_line : Option Ed25519Layer → Option String → List String
ed25519_line none pem = []
ed25519_line (some ed) (some pem) = "  ed25519 (public key embedded)\n" ∷ []
ed25519_line (some ed) none = "  ed25519\n" ∷ []

c2pa_line : Bool → Option String → List String
c2pa_line true manifest = "  c2pa      (in-file embedded manifest)\n" ∷ []
c2pa_line false (some manifest) = "  c2pa      (sidecar JUMBF manifest)\n" ∷ []
c2pa_line false none = []

tsa_line : Option Value → List String
tsa_line none = []
tsa_line (some tsa) =
    ("  tsa       (RFC 3161, " ++ unwrap_or (get_str tsa "authority") "?" ++ ")\n") ∷ []

rekor_line : Option Value → List String
rekor_line none = []
rekor_line (some rekor) =
    let log_index = unwrap_or (map_option show_int (and_then (get rekor "logIndex") as_i64)) "?" in
    ("  rekor     (Sigstore v2, logIndex " ++ log_index ++ ")\n") ∷ []

hmac_line : String → String
hmac_line alg = "  hmac      [" ++ alg ++ "]\n"

abbrev append : List String → List String → List String
append [] ys = ys
append (x ∷ xs) ys = x ∷ append xs ys

layer_lines : SealBlock → List String
unfolding ed25519_line c2pa_line tsa_line rekor_line hmac_line
layer_lines s =
    hmac_line s.hmac.alg
    ∷ append (ed25519_line s.ed25519 s.ed25519_public_key) (
        append (c2pa_line (is_true s.c2pa_embedded) s.c2pa_manifest)
          (append (tsa_line s.tsa) (rekor_line s.rekor_anchor)))

pub concat : List String → String
concat [] = ""
concat (x ∷ xs) = x ++ concat xs

unfoldable pub render_chain : SealedRecord → String
unfolding artifact_line layer_lines concat as_u64
render_chain r = concat (
    ("method:   " ++ r.seal.method ++ "\n")
    ∷ ("sealedAt: " ++ r.seal.sealed_at ++ "\n")
    ∷ append (artifact_line r.payload (get_str r.payload "path"))
        ("layers:\n" ∷ layer_lines r.seal))

-- Each line begins with the name at its place, and there are as many.
abbrev name_lines : List String → List String → Bool
name_lines [] [] = true
name_lines [] (l ∷ ls) = false
name_lines (n ∷ ns) [] = false
name_lines (n ∷ ns) (l ∷ ls) = starts_with l ("  " ++ n) && name_lines ns ls

starts_lem : (p q s : String) → starts_with ((p ++ q) ++ s) p ≡ true
unfolding starts_with
starts_lem p q s =
    ap (λ t. is_some (strip_prefix p t)) (append_assoc p q s)
    ∙ ap is_some (strip_prefix-append p (q ++ s))

module _ (ns ls : List String) (rest : name_lines ns ls ≡ true) where
  names-ed25519_line :
      (ed : Option Ed25519Layer) (pem : Option String)
      → name_lines (push_if (is_some ed) "ed25519" ns) (append (ed25519_line ed pem) ls) ≡ true
  unfolding ed25519_line starts_with strip_prefix
  names-ed25519_line none pem = rest
  names-ed25519_line (some ed) none = rest
  names-ed25519_line (some ed) (some pem) = rest

  names-c2pa_line :
      (embedded : Option Bool) (manifest : Option String)
      → name_lines
          (push_if (is_some manifest || is_true embedded) "c2pa" ns)
          (append (c2pa_line (is_true embedded) manifest) ls)
        ≡ true
  unfolding c2pa_line starts_with strip_prefix
  names-c2pa_line none none = rest
  names-c2pa_line none (some m) = rest
  names-c2pa_line (some true) none = rest
  names-c2pa_line (some true) (some m) = rest
  names-c2pa_line (some false) none = rest
  names-c2pa_line (some false) (some m) = rest

  names-tsa_line :
      (tsa : Option Value)
      → name_lines (push_if (is_some tsa) "tsa" ns) (append (tsa_line tsa) ls) ≡ true
  unfolding tsa_line
  names-tsa_line none = rest
  names-tsa_line (some tsa) =
      rw
        (starts_lem "  tsa" "       (RFC 3161, " (unwrap_or (get_str tsa "authority") "?" ++ ")\n"))
        rest

names-rekor_line :
    (rekor : Option Value)
    → name_lines (push_if (is_some rekor) "rekor" []) (rekor_line rekor) ≡ true
unfolding rekor_line
names-rekor_line none = refl
names-rekor_line (some rekor) =
    rw
      (starts_lem "  rekor" "     (Sigstore v2, logIndex "
        (unwrap_or (map_option show_int (and_then (get rekor "logIndex") as_i64)) "?" ++ ")\n"))
      refl

-- The trail ends with the lines of the layers that the record carries, in their order and no other.
pub render_chain-present_layers :
    (r : SealedRecord)
    → (before : List String) × (lines : List String) × (render_chain r
        ≡ concat (append before ("layers:\n" ∷ lines)))
      × (name_lines (present_layers r) lines ≡ true)
unfolding render_chain layer_lines present_layers hmac_line
render_chain-present_layers r =
    let rekor = names-rekor_line r.seal.rekor_anchor in
    let tsa = names-tsa_line _ _ rekor r.seal.tsa in
    let c2pa = names-c2pa_line _ _ tsa r.seal.c2pa_embedded r.seal.c2pa_manifest in
    let ed25519 = names-ed25519_line _ _ c2pa r.seal.ed25519 r.seal.ed25519_public_key in
    (
      ("method:   " ++ r.seal.method ++ "\n")
          ∷ ("sealedAt: " ++ r.seal.sealed_at ++ "\n")
          ∷ artifact_line r.payload (get_str r.payload "path"),
      layer_lines r.seal,
      refl,
      rw (starts_lem "  hmac" "      [" (r.seal.hmac.alg ++ "]\n")) ed25519,
    )
