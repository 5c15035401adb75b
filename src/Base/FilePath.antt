-- ===== src/Base/FilePath.antt =====
-- `std::path` on Unix, over paths that are valid texts: components, parent, file name, join.
use mathlib.Core.List.{reverse, get_last?}
use t_u_s_h_e_r.Base.{
  ℕ, Option, none, some, List, [], ◌∷◌, ◌++◌, ◌==◌, if◌then◌else◌, nat_eq, bytes_eq, Bool, true,
  false, Eq, bytes_discrete, ◌≡◌, ◌≢◌, refl, sym, ◌∙◌, arith, All,
}
use native.Mathlib.Decide.{ℕ_discrete}
use t_u_s_h_e_r.Base.Text.{Text, ascii, slash, dot}

pub data Component : Type 0 where
  root_dir : Component
  cur_dir : Component
  parent_dir : Component
  normal : Text → Component

push_piece : ℕ → List Text → List Text
push_piece c [] = (c ∷ []) ∷ []
push_piece c (p ∷ ps) = (c ∷ p) ∷ ps

-- The pieces between the slashes; the text "" is one empty piece.
unfoldable pub split_slash : Text → List Text
unfolding push_piece
split_slash [] = [] ∷ []
split_slash (c ∷ s) =
    let rest = split_slash s in if c == slash then [] ∷ rest else push_piece c rest

-- A piece behind the first: empty ones and "." are skipped.
unfoldable pub body_component : Text → List Component
body_component p =
    if p == []
    then []
    else if p == ascii "."
    then []
    else if p == ascii ".."
    then parent_dir ∷ []
    else normal p ∷ []

unfoldable pub body_components : List Text → List Component
unfolding body_component
body_components [] = []
body_components (p ∷ ps) = body_component p ++ body_components ps

first_component : Text → List Component
first_component p =
    if p == []
    then root_dir ∷ []
    else if p == ascii "."
    then cur_dir ∷ []
    else if p == ascii ".."
    then parent_dir ∷ []
    else normal p ∷ []

pieces_components : List Text → List Component
unfolding first_component body_components
pieces_components [] = []
pieces_components (p ∷ ps) = first_component p ++ body_components ps

-- `Path::components`
unfoldable pub components : Text → List Component
unfolding pieces_components split_slash
components [] = []
components (c ∷ s) = pieces_components (split_slash (c ∷ s))

-- `Path::file_name`
unfoldable pub file_name : Text → Option Text
unfolding components
file_name path = elim (get_last? (components path)) [
  | none ↦ none
  | some c ↦ elim c [ normal n ↦ some n | _ ↦ none ]
]

-- Drops the pieces at the front that are no components.
trim_pieces : List Text → List Text
trim_pieces [] = []
trim_pieces (p ∷ ps) =
    let rest = trim_pieces ps in if p == [] then rest else if p == ascii "." then rest else p ∷ ps

join_pieces : List Text → Text
join_pieces [] = []
join_pieces (p ∷ []) = p
join_pieces (p ∷ q ∷ ps) = p ++ (slash ∷ join_pieces (q ∷ ps))

-- From the first piece, and the others behind one another from the last.
parent_pieces : Text → List Text → Option Text
unfolding trim_pieces join_pieces
parent_pieces first [] = if first == [] then none else some []
parent_pieces first (last ∷ more) = elim (reverse (trim_pieces more)) [
  | [] ↦ if first == [] then some (slash ∷ []) else some first
  | p ∷ ps ↦ some (join_pieces (first ∷ p ∷ ps))
]

split_parent : List Text → Option Text
unfolding parent_pieces
split_parent [] = none
split_parent (first ∷ body) = parent_pieces first (trim_pieces (reverse body))

-- `Path::parent`
unfoldable pub parent : Text → Option Text
unfolding split_parent split_slash
parent path = split_parent (split_slash path)

-- Splits a text at its last dot.
rsplit_dot : Text → Option (Text × Text)
rsplit_dot [] = none
rsplit_dot (c ∷ s) = elim (rsplit_dot s) [
  | some (before, after) ↦ some (c ∷ before, after)
  | none ↦ if c == dot then some ([], s) else none
]

-- The stem and the extension of a file name. A leading dot begins no extension.
unfoldable pub split_file_at_dot : Text → Text × Option Text
unfolding rsplit_dot
split_file_at_dot file = if file == ascii ".." then (file, none) else elim (rsplit_dot file) [
  | none ↦ (file, none)
  | some (before, after) ↦ if before == [] then (file, none) else (before, some after)
]

-- `Path::file_stem`
unfoldable pub file_stem : Text → Option Text
unfolding file_name split_file_at_dot
file_stem path = elim (file_name path) [ none ↦ none | some n ↦ some (split_file_at_dot n).0 ]

-- `Path::extension`
unfoldable pub extension : Text → Option Text
unfolding file_name split_file_at_dot
extension path = elim (file_name path) [ none ↦ none | some n ↦ (split_file_at_dot n).1 ]

ends_with_slash : Text → Bool
ends_with_slash [] = true
ends_with_slash (c ∷ []) = c == slash
ends_with_slash (c ∷ d ∷ s) = ends_with_slash (d ∷ s)

-- `Path::join`. An absolute path replaces the base.
unfoldable pub join : Text → Text → Text
unfolding ends_with_slash
join base [] = if ends_with_slash base then base else base ++ (slash ∷ [])
join base (c ∷ s) =
    if c == slash
    then c ∷ s
    else if ends_with_slash base
    then base ++ (c ∷ s)
    else base ++ (slash ∷ c ∷ s)

Component-discrete : Discrete Component
unfolding bytes_discrete
Component-discrete = hlevel bytes_discrete

instance unfoldable pub component_eq : Eq Component
unfolding Component-discrete bytes_discrete ℕ_discrete
component_eq = record { dec = Component-discrete }

-- The components behind a prefix of them.
unfoldable pub strip_components : List Component → List Component → Option (List Component)
strip_components [] path = some path
strip_components (b ∷ base) [] = none
strip_components (b ∷ base) (c ∷ path) = if b == c then strip_components base path else none

-- `Path::strip_prefix`, as the components that are left.
unfoldable pub strip_prefix : Text → Text → Option (List Component)
unfolding strip_components components
strip_prefix base path = strip_components (components base) (components path)

-- `Path::starts_with`
unfoldable pub path_starts_with : Text → Text → Bool
unfolding strip_prefix
path_starts_with path base = elim (strip_prefix base path) [ none ↦ false | some _ ↦ true ]

-- The same components, which `==` on `PathBuf` compares.
unfoldable pub path_eq : Text → Text → Bool
unfolding strip_prefix
path_eq p q = elim (strip_prefix p q) [ some [] ↦ true | _ ↦ false ]

strip_components_self : (cs : List Component) → strip_components cs cs ≡ some []
unfolding strip_components
strip_components_self [] = refl
strip_components_self (c ∷ cs) = ground (arith, strip_components_self cs)

strip_components_whole :
    (base path : List Component) → strip_components base path ≡ some [] → base ≡ path
unfolding strip_components
strip_components_whole [] path h = ground arith
strip_components_whole (b ∷ base) [] h = cc
strip_components_whole (b ∷ base) (c ∷ path) h = ground (arith, strip_components_whole base path)

path_eq-components : (p q : Text) → path_eq p q ≡ true → components p ≡ components q
unfolding path_eq strip_prefix
path_eq-components p q h = strip_components_whole (components p) (components q) (ground arith)

path_eq_of_components : (p q : Text) → components p ≡ components q → path_eq p q ≡ true
unfolding path_eq strip_prefix
path_eq_of_components p q e = rw (e, path_eq) (ground (arith, strip_components_self (components q)))

-- Two paths that are equal to a third are equal.
pub path_eq_third : (p q r : Text) → path_eq p r ≡ true → path_eq q r ≡ true → path_eq p q ≡ true
path_eq_third p q r h h' =
    path_eq_of_components p q (path_eq-components p r h ∙ sym (path_eq-components q r h'))

-- Two paths that a path is equal to are equal.
pub path_eq_from : (p q r : Text) → path_eq r p ≡ true → path_eq r q ≡ true → path_eq p q ≡ true
path_eq_from p q r h h' =
    path_eq_of_components p q (sym (path_eq-components r p h) ∙ path_eq-components r q h')

pub path_eq_refl : (p : Text) → path_eq p p ≡ true
unfolding path_eq strip_prefix
path_eq_refl p = ground (arith, strip_components_self (components p))

split_slash_single : (s : Text) → All (λ c. c ≢ slash) s → split_slash s ≡ s ∷ []
unfolding split_slash push_piece
split_slash_single [] h = refl
split_slash_single (c ∷ s) (hc, h) = rw (split_slash_single s h) (ground arith)

-- A text without a slash is one normal component, unless it is empty, "." or "..".
pub components_single :
    (s : Text)
    → All (λ c. c ≢ slash) s
    → s ≢ []
    → s ≢ ascii "."
    → s ≢ ascii ".."
    → components s ≡ normal s ∷ []
unfolding components pieces_components first_component body_components
components_single [] h not_empty not_cur not_parent = absurd (not_empty refl)
components_single (c ∷ s) h not_empty not_cur not_parent =
    rw (split_slash_single (c ∷ s) h) (ground arith)

components_test :
    components (ascii "a/./b//../c")
    ≡ normal (ascii "a") ∷ normal (ascii "b") ∷ parent_dir ∷ normal (ascii "c") ∷ []
unfolding components bytes_eq nat_eq
components_test = refl

parent_test : parent (ascii "docs/x/notes.tar.gz") ≡ some (ascii "docs/x")
unfolding parent bytes_eq nat_eq
parent_test = refl

stem_test : file_stem (ascii "docs/x/notes.tar.gz") ≡ some (ascii "notes.tar")
unfolding file_stem bytes_eq nat_eq
stem_test = refl
