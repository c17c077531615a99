-- ===== src/Keystore/Dir.antt =====
-- crates/apohara-sealchain-core/src/keystore.rs: the directory of the keys. A read, a write, a
-- change of mode, a removal, a renaming or a creation may fail: which one does is a parameter, and
-- every operation leaves the files as they are where it stops.
use apohara_sealchain.Prelude.{
  ◌≡◌, refl, String, Bytes, Bool, not, List, [], ◌∷◌, Option, none, some, if◌then◌else◌, ◌==◌,
}
use apohara_sealchain.Error.{SealError, key_error, Result, ok, err}
use apohara_sealchain.Json.{is_some}

-- ED25519_FILE, HMAC_FILE, ENC_FILE and PUBLIC_FILE
pub data File : Type 0 where
  ed25519_file : File
  hmac_file : File
  enc_file : File
  public_file : File

abbrev pub name_of : File → String
name_of ed25519_file = "ed25519.pem"
name_of hmac_file = "hmac.key"
name_of enc_file = "keystore.enc"
name_of public_file = "ed25519.pub.pem"

-- The contents of the four files, in the directory or in one of its archives.
pub record Files : Type 0 where
  pub ed25519_pem : Option Bytes
  pub hmac_key : Option Bytes
  pub keystore_enc : Option Bytes
  pub public_pem : Option Bytes

abbrev pub no_files : Files
no_files = record { ed25519_pem = none; hmac_key = none; keystore_enc = none; public_pem = none }

abbrev pub get : File → Files → Option Bytes
get ed25519_file s = s.ed25519_pem
get hmac_file s = s.hmac_key
get enc_file s = s.keystore_enc
get public_file s = s.public_pem

abbrev pub set : File → Option Bytes → Files → Files
set ed25519_file b s = record s { ed25519_pem = b }
set hmac_file b s = record s { hmac_key = b }
set enc_file b s = record s { keystore_enc = b }
set public_file b s = record s { public_pem = b }

-- The directory, with the subdirectories of `archive/` by name.
pub record Dir : Type 0 where
  pub active : Files
  pub archive : List (String × Files)

abbrev pub archived : String → List (String × Files) → Option Files
archived stamp [] = none
archived stamp ((s, fs) ∷ rest) = if s == stamp then some fs else archived stamp rest

-- `create_dir_all` of a subdirectory leaves one that is there as it is.
unfoldable pub create_archive : String → List (String × Files) → List (String × Files)
create_archive stamp [] = (stamp, no_files) ∷ []
create_archive stamp ((s, fs) ∷ rest) =
    let later = create_archive stamp rest in if s == stamp then (s, fs) ∷ rest else (s, fs) ∷ later

-- The file `f` of a subdirectory becomes `b`, in place of what it was.
unfoldable pub put_archived :
    String → File → Option Bytes → List (String × Files) → List (String × Files)
put_archived stamp f b [] = []
put_archived stamp f b ((s, fs) ∷ rest) =
    let later = put_archived stamp f b rest in
    if s == stamp then (s, set f b fs) ∷ rest else (s, fs) ∷ later

pub data Access : Type 0 where
  reading : File → Access
  reading_archived : String → File → Access
  writing : File → Access
  restricting : File → Access
  removing : File → Access
  renaming : File → Access
  creating : Access
  creating_archive : Access
  listing : Access

-- Which accesses fail, and with what text; and what a failed write leaves in the file.
pub record Faults : Type 0 where
  pub fault : Access → Option String
  pub left : File → Option Bytes

abbrev pub no_faults : Faults
no_faults = record { fault = λ a. none; left = λ f. none }

abbrev pub M : Type 0 → Type 0
M A = Dir → Dir × Result SealError A

abbrev pub resume : {A B : Type 0} → Dir × Result SealError A → (A → M B) → Dir × Result SealError B
resume (d, ok a) f = f a d
resume (d, err e) f = (d, err e)

resume-eq-ok :
    {A B : Type 0} (r : Dir × Result SealError A) (f : A → M B) (d' : Dir) (b : B)
    → resume r f ≡ (d', ok b)
    → (a : A) × (d₁ : Dir) × (r ≡ (d₁, ok a)) × (f a d₁ ≡ (d', ok b))
resume-eq-ok (d₁, ok a) f d' b h = (a, d₁, refl, h)
resume-eq-ok (d₁, err e) f d' b h = cc

infixl 5 ◌>>=◌ ◌>>◌
abbrev pub ◌>>=◌ : {A B : Type 0} → M A → (A → M B) → M B
◌>>=◌ m f d = resume (m d) f

abbrev pub ◌>>◌ : {A B : Type 0} → M A → M B → M B
m >> n = m >>= λ _. n

-- What a successful `?` has seen.
pub >>=-eq-ok :
    {A B : Type 0} (m : M A) (f : A → M B) (d d' : Dir) (b : B)
    → (m >>= f) d ≡ (d', ok b)
    → (a : A) × (d₁ : Dir) × (m d ≡ (d₁, ok a)) × (f a d₁ ≡ (d', ok b))
>>=-eq-ok m f d d' b h = resume-eq-ok (m d) f d' b h

abbrev pub done : {A : Type 0} → A → M A
done a d = (d, ok a)

-- `r?`, for a computation that does not touch the directory
abbrev pub lift : {A : Type 0} → Result SealError A → M A
lift r d = (d, r)

abbrev pub is_file : File → M Bool
is_file f d = (d, ok (is_some (get f d.active)))

-- The environment: the argument `config_dir`, the two variables as `env::var_os` returns them,
-- `Path::join`, how `dir.join(name)` and `dir.join("archive").join(stamp)` are displayed, and the
-- text of a missing file.
pub record Host : Type 0 where
  pub config_dir : Option String
  pub xdg : Option String
  pub home : Option String
  pub join : String → String → String
  pub display : String → String → String
  pub archive_dir : String → String → String
  pub not_found : String

unfoldable pub resolve_config_dir : Host → Result SealError String
resolve_config_dir host = elim (host.config_dir) [
  | some dir ↦ ok dir
  | none ↦
      let from_home : Result SealError String = elim (host.home) [
        | some home ↦ ok (host.join (host.join home ".config") "apohara-sealchain")
        | none ↦ err (key_error "cannot resolve config dir: $HOME unset")
      ] in
      elim (host.xdg) [
        | some xdg ↦ if not (xdg == "") then ok (host.join xdg "apohara-sealchain") else from_home
        | none ↦ from_home
      ]
]

-- An access that may fail before it changes anything, and one that a change follows.
abbrev pub attempt : Option String → (String → SealError) → M (Unit {0})
attempt (some text) e d = (d, err (e text))
attempt none e d = (d, ok tt)

abbrev pub change : (Dir → Dir) → M (Unit {0})
change f d = (f d, ok tt)

abbrev pub put : File → Option Bytes → Dir → Dir
put f b d = record d { active = set f b d.active }
