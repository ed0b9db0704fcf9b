-- ===== src/VsfsTool/Json.antt =====
-- `layout_from_json`: the tree that a layout describes. Reading a source file is a parameter.
use efiks_os.Prelude.{
  ℕ, Bool, true, false, ◌||◌, ◌&&◌, not, List, [], ◌∷◌, Option, none, some, length, Result, ok, err,
  ◌>>=◌, ltb, if◌then◌else◌,
}
use efiks_os.Vfs.Mounts.{bytes_eq, root_path}
use efiks_os.VsfsTool.{
  ToolError, not_contained, long_name, duplicate_name, bad_type, bad_path, LayoutNode, LayoutNodes,
  layout_node, layout_directory, layout_file, no_layouts, more_layouts,
}
use efiks_os.VsfsTool.Names.{normalize_path, absolute_parent, rsplit_once, starts_with_slash}

mutual
  pub data JsonLayoutNode : Type 0 where
    json_node :
        (ty : List ℕ) (path : Option (List ℕ)) (contains : JsonNodes)
        (content contents source : Option (List ℕ))
        → JsonLayoutNode

  pub data JsonNodes : Type 0 where
    no_json : JsonNodes
    more_json : JsonLayoutNode → JsonNodes → JsonNodes

abbrev is_directory_type : List ℕ → Bool
is_directory_type ty =
    bytes_eq ty (b'd' ∷ b'i' ∷ b'r' ∷ [])
    || bytes_eq ty (b'd' ∷ b'i' ∷ b'r' ∷ b'e' ∷ b'c' ∷ b't' ∷ b'o' ∷ b'r' ∷ b'y' ∷ [])

abbrev is_file_type : List ℕ → Bool
is_file_type ty = bytes_eq ty (b'f' ∷ b'i' ∷ b'l' ∷ b'e' ∷ [])

abbrev raw_path_of : Option (List ℕ) → Bool → List ℕ
raw_path_of (some path) is_root = path
raw_path_of none true = root_path
raw_path_of none false = []

-- The last component of the path.
name_of : List ℕ → Result ToolError (List ℕ)
name_of path = elim (rsplit_once path) [
  | some (parent, []) ↦ err bad_path
  | some (parent, c ∷ cs) ↦ ok (c ∷ cs)
  | none ↦ elim path [ [] ↦ err bad_path | c ∷ cs ↦ ok (c ∷ cs) ]
]

-- The path and the name of a node.
unfoldable pub json_name :
    (path : Option (List ℕ)) (parent_path : List ℕ) (is_root : Bool)
    → Result ToolError (List ℕ × List ℕ)
unfolding normalize_path absolute_parent name_of
json_name raw parent_path is_root =
    let raw_path = raw_path_of raw is_root in
    normalize_path parent_path raw_path is_root >>= λ path.
    if not is_root
      && starts_with_slash raw_path
      && not (bytes_eq (absolute_parent path) parent_path)
    then err not_contained
    else ((if is_root then ok [] else name_of path) >>= λ name.
        if ltb 27 (length name) then err long_name else ok (path, name))

-- `names.insert` fails
abbrev pub is_among : List ℕ → List (List ℕ) → Bool
is_among name [] = false
is_among name (n ∷ names) = bytes_eq n name || is_among name names

abbrev pub name_of_layout : LayoutNode → List ℕ
name_of_layout (layout_node name kind) = name

module _ (read_source : List ℕ → Result ToolError (List ℕ)) where
  file_data : (content contents source : Option (List ℕ)) → Result ToolError (List ℕ)
  file_data (some content) contents source = ok content
  file_data none (some contents) source = ok contents
  file_data none none (some source) = read_source source
  file_data none none none = ok []

  unfoldable mutual
    unfolding json_name file_data

    pub layout_from_json :
        JsonLayoutNode → (parent_path : List ℕ) (is_root : Bool) → Result ToolError LayoutNode
    layout_from_json (json_node ty raw contains content contents source) parent_path is_root =
        json_name raw parent_path is_root >>= λ (path, name).
        let children = children_from_json contains path [] in
        if is_directory_type ty
        then (children >>= λ nodes. ok (layout_node name (layout_directory nodes)))
        else (if is_file_type ty
            then (file_data content contents source >>= λ bytes.
                ok (layout_node name (layout_file bytes)))
            else err bad_type)

    -- The loop over `contains`, with the names so far.
    pub children_from_json :
        JsonNodes → (path : List ℕ) → (names : List (List ℕ)) → Result ToolError LayoutNodes
    children_from_json no_json path names = ok no_layouts
    children_from_json (more_json json rest) path names =
        layout_from_json json path false >>= λ child.
        let name = name_of_layout child in
        let others = children_from_json rest path (name ∷ names) in
        if is_among name names
        then err duplicate_name
        else (others >>= λ nodes. ok (more_layouts child nodes))
