-- ===== src/Runtime/FsPath.antt =====
-- `Utf8PathBuf` of crates/runtime/src/caps.rs, on Unix. Paths are compared by their components, so a path
-- is the list of them: the root as "/", a leading dot, and the names.
use runloop.Prelude.{Bool, not, ◌||◌, List, [], ◌∷◌, if◌then◌else◌, ◌==◌, filter, nat_eq, list_eq}
use runloop.Runtime.Text.{Text, codes}

abbrev pub FsPath : Type 0
FsPath = List Text

-- the text between the slashes
unfoldable pub pieces : Text → List Text
pieces [] = [] ∷ []
pieces (c ∷ s) =
    let rest = pieces s in
    if c == b'/' then [] ∷ rest else (elim rest [ [] ↦ (c ∷ []) ∷ [] | p ∷ ps ↦ (c ∷ p) ∷ ps ])

abbrev is_dot : Text → Bool
is_dot p = p == codes "."

-- Empty pieces and dots say nothing behind the first place.
abbrev names : List Text → List Text
names = filter (λ p. not (p == [] || is_dot p))

unfoldable pub path_of : Text → FsPath
unfolding pieces
path_of [] = []
path_of (c ∷ s) =
    if c == b'/'
    then codes "/" ∷ names (pieces s)
    else (elim (pieces (c ∷ s)) [ [] ↦ [] | first ∷ rest ↦ first ∷ names rest ])
