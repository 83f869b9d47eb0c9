-- ===== src/Aci/Paths.antt =====
-- internal/aci/pathguard.go: which paths of the workspace may be read and written. A path below the
-- root is the list of its parts; a part is a number, and so is a text that is not yet a path.
use mar.Prelude.{
  ℕ, Bool, true, false, ◌||◌, not, List, [], ◌∷◌, ◌++◌, Option, none, some, ◌==◌, if◌then◌else◌,
}
use mar.Text.{same_text}

pub data Node : Type 0 where
  regular : List ℕ → Node
  directory symlink special : Node

-- What Lstat finds below the root.
abbrev pub Tree : Type 0
Tree = List ℕ → Option Node

unfoldable pub put : List ℕ → Node → Tree → Tree
put path node tree q = if same_text path q then some node else tree q

pub data Error : Type 0 where
  not_relative escapes git_forbidden lstat_failed through_symlink : Error
  not_regular not_found bad_parent write_failed too_large bad_hash bad_search bad_count : Error
  no_replacement too_many already_exists missing_file : Error

pub data Result {ℓ} (A : Type ℓ) : Type ℓ where
  ok : A → Result A
  err : Error → Result A

-- strings.TrimSpace (a blank text is 0), filepath.IsAbs, filepath.Clean with strings.Split, and
-- strings.ToLower; and the parts ".", ".." and ".git".
pub record Names : Type 0 where
  pub trim : ℕ → ℕ
  pub is_abs : ℕ → Bool
  pub clean_parts : ℕ → List ℕ
  pub lower : ℕ → ℕ
  pub dot : ℕ
  pub dot_dot : ℕ
  pub git : ℕ

abbrev pub is_node_symlink : Node → Bool
is_node_symlink symlink = true
is_node_symlink _ = false

abbrev pub is_directory : Node → Bool
is_directory directory = true
is_directory _ = false

-- filepath.Dir
unfoldable pub parent : List ℕ → List ℕ
parent [] = []
parent (p ∷ []) = []
parent (p ∷ q ∷ ps) = p ∷ parent (q ∷ ps)

-- rejectSymlinkComponents, from `current` on; `none` is success.
unfoldable pub reject_symlink_components : Tree → List ℕ → List ℕ → Option Error
reject_symlink_components tree current [] = none
reject_symlink_components tree current (p ∷ ps) =
    let rest = reject_symlink_components tree (current ++ (p ∷ [])) ps in
    elim (tree (current ++ (p ∷ []))) [
      | none ↦ some lstat_failed
      | some node ↦ if is_node_symlink node then some through_symlink else rest
    ]

-- ensureParentDirectoriesNoSymlink, from `current` on: what is missing is made a directory.
unfoldable pub ensure_parents : Tree → List ℕ → List ℕ → Tree × Option Error
ensure_parents tree current [] = (tree, none)
ensure_parents tree current (p ∷ ps) =
    let next = current ++ (p ∷ []) in
    elim (tree next) [
      | none ↦ ensure_parents (put next directory tree) next ps
      | some node ↦
          if is_node_symlink node || not (is_directory node)
          then (tree, some bad_parent)
          else ensure_parents tree next ps
    ]

module _ (names : Names) where
  -- inside, of a path whose parts below the root are these
  unfoldable pub inside : List ℕ → Bool
  inside [] = true
  inside (p ∷ ps) = not (p == names.dot_dot)

  abbrev pub is_dot : List ℕ → Bool
  is_dot (p ∷ []) = p == names.dot
  is_dot _ = false

  abbrev pub first_lower : List ℕ → ℕ
  first_lower [] = 0
  first_lower (p ∷ ps) = names.lower p

  -- cleanRelative
  unfoldable pub clean_relative : ℕ → Result (List ℕ)
  clean_relative rel =
      let text = names.trim rel in
      let parts = names.clean_parts text in
      if text == 0 || names.is_abs text
      then err not_relative
      else if is_dot parts || not (inside parts)
      then err escapes
      else if first_lower parts == names.git
      then err git_forbidden
      else ok parts

  -- resolveExisting
  unfoldable pub resolve_existing : ℕ → Tree → Result (List ℕ)
  resolve_existing rel tree = elim (clean_relative rel) [
    | err e ↦ err e
    | ok parts ↦
        if not (inside parts) then err escapes else elim (reject_symlink_components tree [] parts) [
          | some e ↦ err e
          | none ↦ elim (tree parts) [ none ↦ err not_found | some node ↦ ok parts ]
        ]
  ]

  -- resolveExistingForWrite, with the content of the file
  unfoldable pub resolve_existing_for_write : ℕ → Tree → Result (List ℕ × List ℕ)
  resolve_existing_for_write rel tree = elim (clean_relative rel) [
    | err e ↦ err e
    | ok parts ↦ elim (reject_symlink_components tree [] parts) [
      | some e ↦ err e
      | none ↦ elim (tree parts) [
        | none ↦ err not_found
        | some (regular content) ↦ ok (parts, content)
        | some _ ↦ err not_regular
      ]
    ]
  ]

  -- The Lstat of resolveWriteTarget: no file, or a regular one and its content.
  abbrev pub target_at : List ℕ → Tree → Result (List ℕ × Option (List ℕ))
  target_at parts tree = elim (tree parts) [
    | none ↦ ok (parts, none)
    | some (regular content) ↦ ok (parts, some content)
    | some _ ↦ err not_regular
  ]

  abbrev pub target_after : List ℕ → Tree × Option Error → Tree × Result (List ℕ × Option (List ℕ))
  target_after parts (tree, some e) = (tree, err e)
  target_after parts (tree, none) = (tree, target_at parts tree)

  -- resolveWriteTarget: the directories that it makes stay, whatever it answers.
  unfoldable pub resolve_write_target : ℕ → Tree → Tree × Result (List ℕ × Option (List ℕ))
  resolve_write_target rel tree = elim (clean_relative rel) [
    | err e ↦ (tree, err e)
    | ok parts ↦
        if not (inside parts)
        then (tree, err escapes)
        else target_after parts (ensure_parents tree [] (parent parts))
  ]
