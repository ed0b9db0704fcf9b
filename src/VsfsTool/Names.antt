-- ===== src/VsfsTool/Names.antt =====
-- `validate_name`, `normalize_path` and `absolute_parent`.
use efiks_os.Prelude.{
  ℕ, Bool, true, false, ◌||◌, List, [], ◌∷◌, ◌++◌, Option, none, some, length, Result, ok, err, ltb,
  ◌==◌, if◌then◌else◌,
}
use efiks_os.Vfs.Mounts.{bytes_eq, root_path}
use efiks_os.VsfsTool.{ToolError, invalid_component, long_name, bad_root, bad_path, dotted_path}

abbrev pub dot : List ℕ
dot = b'.' ∷ []

abbrev pub dot_dot : List ℕ
dot_dot = b'.' ∷ b'.' ∷ []

-- `contains('/')`
abbrev pub has_slash : List ℕ → Bool
has_slash [] = false
has_slash (c ∷ cs) = c == b'/' || has_slash cs

unfoldable pub validate_name : List ℕ → Result ToolError (Unit {0})
validate_name name =
    if bytes_eq name dot || bytes_eq name dot_dot || has_slash name
    then err invalid_component
    else (if ltb 27 (length name) then err long_name else ok tt)

-- `rsplit_once('/')`
unfoldable pub rsplit_once : List ℕ → Option (List ℕ × List ℕ)
rsplit_once [] = none
rsplit_once (c ∷ cs) = elim (rsplit_once cs) [
  | some (parent, name) ↦ some (c ∷ parent, name)
  | none ↦ if c == b'/' then some ([], cs) else none
]

unfoldable pub absolute_parent : List ℕ → List ℕ
unfolding rsplit_once
absolute_parent path = elim (rsplit_once path) [
  | some ([], name) ↦ root_path
  | some (c ∷ cs, name) ↦ c ∷ cs
  | none ↦ []
]

-- `ends_with('/')`
abbrev pub ends_with_slash : List ℕ → Bool
ends_with_slash [] = false
ends_with_slash (c ∷ []) = c == b'/'
ends_with_slash (c ∷ d ∷ cs) = ends_with_slash (d ∷ cs)

-- `split('/').any(|component| component == "." || component == "..")`, `part` being what was read of a
-- component.
abbrev pub is_dots : List ℕ → Bool
is_dots part = bytes_eq part dot || bytes_eq part dot_dot

unfoldable pub has_dots : (part path : List ℕ) → Bool
has_dots part [] = is_dots part
has_dots part (c ∷ cs) =
    let next = has_dots [] cs in
    let longer = has_dots (part ++ (c ∷ [])) cs in
    if c == b'/' then is_dots part || next else longer

abbrev pub starts_with_slash : List ℕ → Bool
starts_with_slash [] = false
starts_with_slash (c ∷ cs) = c == b'/'

abbrev pub join : (parent_path raw_path : List ℕ) → List ℕ
join parent_path raw_path =
    if starts_with_slash raw_path
    then raw_path
    else (if bytes_eq parent_path root_path
        then b'/' ∷ raw_path
        else parent_path ++ (b'/' ∷ raw_path))

abbrev is_empty : List ℕ → Bool
is_empty [] = true
is_empty (c ∷ cs) = false

unfoldable pub normalize_path :
    (parent_path raw_path : List ℕ) (is_root : Bool) → Result ToolError (List ℕ)
unfolding has_dots
normalize_path parent_path raw_path true =
    if bytes_eq raw_path root_path then ok root_path else err bad_root
normalize_path parent_path raw_path false =
    if is_empty raw_path || ends_with_slash raw_path
    then err bad_path
    else (let path = join parent_path raw_path in
        if has_dots [] path then err dotted_path else ok path)
