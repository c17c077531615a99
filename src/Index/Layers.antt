-- ===== src/Index/Layers.antt =====
-- The layers of a row are found by name.
use Prim.Native.Char.{code}
use Prim.Native.String.{◌++◌}
use text.Mathlib.TextLemmas.{nil-append, cons-append}
use apohara_sealchain.Prelude.{
  ◌≡◌, refl, ap, ◌∙◌, String, Bool, true, false, ◌&&◌, ◌||◌, not, List, [], ◌∷◌, any, all, ◌==◌,
  nat_eq, contains, arith,
}
use apohara_sealchain.Schema.{SealedRecord}
use apohara_sealchain.Json.{is_some}
use apohara_sealchain.Paths.{split_on}
use apohara_sealchain.Index.{is_true, push_if, present_layers, join_layers, index_record_from}

-- No character of the text is a comma.
unfoldable is_free : String → Bool
is_free String.[] = true
is_free (String.◌∷◌ c s) = not (nat_eq (code c) b',') && is_free s

split_comma : (s : String) → split_on b',' ("," ++ s) ≡ ("" ∷ split_on b',' s)
unfolding split_on
split_comma s = rw (cons-append "," "" s, nil-append s) refl

split-append :
    (a s : String) → is_free a ≡ true → split_on b',' (a ++ "," ++ s) ≡ (a ∷ split_on b',' s)
unfolding split_on is_free
split-append String.[] s h = rw (nil-append ("," ++ s)) (split_comma s)
split-append (String.◌∷◌ c a) s h =
    rw (cons-append c a ("," ++ s)) (ground (arith, split-append a s))

split_free : (a : String) → is_free a ≡ true → split_on b',' a ≡ (a ∷ [])
unfolding split_on is_free
split_free String.[] h = refl
split_free (String.◌∷◌ c a) h = ground (arith, split_free a)

split-join_layers :
    (l : String) (ls : List String)
    → all is_free (l ∷ ls) ≡ true
    → split_on b',' (join_layers (l ∷ ls)) ≡ (l ∷ ls)
unfolding join_layers
split-join_layers l [] h = split_free l (ground arith)
split-join_layers l (m ∷ ls) h =
    split-append l (join_layers (m ∷ ls)) (ground arith)
    ∙ ap (◌∷◌ l) (split-join_layers m ls (ground arith))

push_if_free :
    (b : Bool) (name : String) (ls : List String)
    → is_free name ≡ true
    → all is_free ls ≡ true
    → all is_free (push_if b name ls) ≡ true
push_if_free true name ls h k = ground arith
push_if_free false name ls h k = k

present_layers_free : (r : SealedRecord) → all is_free (present_layers r) ≡ true
unfolding present_layers is_free
present_layers_free r =
    let rekor = push_if (is_some r.seal.rekor_anchor) "rekor" [] in
    let tsa = push_if (is_some r.seal.tsa) "tsa" rekor in
    let has_c2pa = is_some r.seal.c2pa_manifest || is_true r.seal.c2pa_embedded in
    push_if_free (is_some r.seal.ed25519) "ed25519" (push_if has_c2pa "c2pa" tsa) refl (
      push_if_free has_c2pa "c2pa" tsa refl (
        push_if_free (is_some r.seal.tsa) "tsa" rekor refl
          (push_if_free (is_some r.seal.rekor_anchor) "rekor" [] refl refl)))

split-present_layers :
    (r : SealedRecord) → split_on b',' (join_layers (present_layers r)) ≡ present_layers r
unfolding present_layers
split-present_layers r = split-join_layers "hmac" _ (present_layers_free r)

any-contains : (ls : List String) (name : String) → any (λ l. l == name) ls ≡ contains ls name
unfolding contains
any-contains [] name = refl
any-contains (l ∷ ls) name = rw (any-contains ls name) refl

-- The row of a receipt keeps its layers: split at the commas, the column gives the layers that the record
-- carries, so that a search by a layer's name finds the row exactly when the record has that layer.
pub index_record_from-layers :
    (r : SealedRecord) (receipt_path now name : String)
    → (split_on b',' (index_record_from r receipt_path now).layers ≡ present_layers r)
      × (any (λ l. l == name) (split_on b',' (index_record_from r receipt_path now).layers)
          ≡ contains (present_layers r) name)
unfolding index_record_from
index_record_from-layers r receipt_path now name =
    let kept = split-present_layers r in
    (kept, ap (any (λ l. l == name)) kept ∙ any-contains (present_layers r) name)
