-- ===== src/Paths.antt =====
-- `std::path::Path` as the program uses it, on Unix: the last component of a path and its extension.
pub mod Order
use Prim.Native.Char.{Char, code}
use apohara_sealchain.Prelude.{
  ℕ, String, ◌||◌, List, [], ◌∷◌, Option, none, some, ◌≡◌, refl, ◌==◌, nat_eq, if◌then◌else◌,
}

-- Put a character in front of the first part.
abbrev pub onto_first : Char → List String → List String
onto_first c [] = String.◌∷◌ c "" ∷ []
onto_first c (part ∷ parts) = String.◌∷◌ c part ∷ parts

-- `s.split(sep)`
unfoldable pub split_on : ℕ → String → List String
split_on sep String.[] = "" ∷ []
split_on sep (String.◌∷◌ c s) =
    let parts = split_on sep s in if nat_eq (code c) sep then "" ∷ parts else onto_first c parts

unfoldable pub split_slashes : String → List String
unfolding split_on
split_slashes s = split_on b'/' s

-- The last component that is neither empty nor `.`, or the one before.
unfoldable pub last_component : List String → Option String → Option String
last_component [] found = found
last_component (part ∷ parts) found =
    last_component parts (if part == "" || part == "." then found else some part)

unfoldable pub no_parent : Option String → Option String
no_parent none = none
no_parent (some name) = if name == ".." then none else some name

-- `path.file_name()`
unfoldable pub file_name : String → Option String
unfolding split_slashes last_component no_parent
file_name path = no_parent (last_component (split_slashes path) none)

-- What follows the last dot, if there is one.
unfoldable pub after_last_dot : String → Option String
after_last_dot String.[] = none
after_last_dot (String.◌∷◌ c s) =
    let later = after_last_dot s in
    elim later [ some ext ↦ some ext | none ↦ if nat_eq (code c) b'.' then some s else none ]

-- A dot in front of the whole name does not begin an extension.
name_extension : Option String → Option String
name_extension none = none
name_extension (some String.[]) = none
name_extension (some (String.◌∷◌ c s)) = after_last_dot s

-- `path.extension()`
unfoldable pub extension : String → Option String
unfolding file_name name_extension
extension path = name_extension (file_name path)

extension_test : extension "/a/b/photo.tar.JPG" ≡ some "JPG"
unfolding extension after_last_dot
extension_test = refl
