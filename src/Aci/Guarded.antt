-- ===== src/Aci/Guarded.antt =====
-- internal/aci: what a change of a file can reach, and what it leaves when it fails.
use mar.Prelude.{
  ℕ, ◌≤◌, ◌≡◌, ◌≢◌, refl, true, false, ◌||◌, not, List, [], ◌∷◌, ◌++◌, none, some, ◌==◌,
  if◌then◌else◌, ltb, arith, inl, inr, Bool-cases, Option-cases, length, is_empty,
}
use mar.Aci.Paths.{
  Node, regular, directory, symlink, special, Tree, put, Result, ok, err, Names, is_node_symlink,
  reject_symlink_components, inside, clean_relative, resolve_existing_for_write, is_dot,
  first_lower, not_relative, escapes, git_forbidden,
}
use mar.Aci.Files.{
  Runtime, ExactReplacement, ReplaceManyResult, read_for_write, replace_each, replace_many_exact,
  max_operations,
}
use mar.Aci.Edits.{
  Result-cases, Answers, Answers-if, Answers-ok, Edited, Edited-bounded, Receipts,
  replace_each-Edited,
}

-- Every part of the path, from `current` on, is there and is not a symbolic link.
abbrev pub Plain : Tree → List ℕ → List ℕ → Type 0
Plain tree current [] = Unit
Plain tree current (p ∷ ps) =
    ((node : Node) × (tree (current ++ (p ∷ [])) ≡ some node) × (is_node_symlink node ≡ false))
    × Plain tree (current ++ (p ∷ [])) ps

reject-Plain :
    (tree : Tree) (current ps : List ℕ)
    → reject_symlink_components tree current ps ≡ none
    → Plain tree current ps
unfolding reject_symlink_components
reject-Plain tree current [] e = tt
reject-Plain tree current (p ∷ ps) e = elim (Option-cases (tree (current ++ (p ∷ [])))) [
  | inl n ↦ let e' = rw (n, reject_symlink_components) at e in cc
  | inr (node, found) ↦ elim (Bool-cases (is_node_symlink node)) [
    | inl y ↦ let e' = rw (found, y, reject_symlink_components) at e in cc
    | inr m ↦
        let e' = rw (found, m, reject_symlink_components) at e in
        ((node, found, m), reject-Plain tree (current ++ (p ∷ [])) ps e')
  ]
]

-- The file that a call changes: a regular one, in the workspace, not behind a symbolic link, with
-- the content that the caller named by its hash.
pub record Readable (r : Runtime) (expected : ℕ) (tree : Tree) (path content : List ℕ)
    : Type 0 where
  pub plain : Plain tree [] path
  pub file : tree path ≡ some (regular content)
  pub below : inside r.names path ≡ true
  pub outside_git : first_lower r.names path ≢ r.names.git
  pub named : r.same_hash expected (r.sha content) ≡ true
  pub short : length content ≤ r.max_write_bytes

clean-inside :
    (names : Names) (rel : ℕ)
    → Answers
        (λ parts. (inside names parts ≡ true) × (first_lower names parts ≢ names.git))
        (clean_relative names rel)
unfolding clean_relative
clean-inside names rel =
    let text = names.trim rel in
    let parts = names.clean_parts text in
    let P =
      λ (parts : List ℕ). (inside names parts ≡ true) × (first_lower names parts ≢ names.git) in
    let last : Result (List ℕ) =
      if first_lower names parts == names.git then err git_forbidden else ok parts in
    let bad = is_dot names parts || not (inside names parts) in
    Answers-if P (text == 0 || names.is_abs text) (err not_relative)
      (if bad then err escapes else last) (λ _. tt)
      λ _.
        Answers-if P bad (err escapes) last (λ _. tt)
          λ fine.
            Answers-if P (first_lower names parts == names.git) (err git_forbidden) (ok parts)
              (λ _. tt) (λ n. (ground arith, ground arith))

read-Readable :
    (r : Runtime) (rel expected : ℕ) (tree : Tree)
    → Answers (λ x. Readable r expected tree x.0 x.1) (read_for_write r rel expected tree)
unfolding read_for_write resolve_existing_for_write
read-Readable r rel expected tree = elim (Result-cases (clean_relative r.names rel)) [
  | inl (x, c) ↦ rw (c, read_for_write, resolve_existing_for_write) tt
  | inr (parts, c) ↦
      let clean = Answers-ok _ (clean_relative r.names rel) (clean-inside r.names rel) c in
      elim (Option-cases (reject_symlink_components tree [] parts)) [
        | inr (x, j) ↦ rw (c, j, read_for_write, resolve_existing_for_write) tt
        | inl j ↦ elim (Option-cases (tree parts)) [
          | inl n ↦ rw (c, j, n, read_for_write, resolve_existing_for_write) tt
          | inr (directory, n) ↦ rw (c, j, n, read_for_write, resolve_existing_for_write) tt
          | inr (symlink, n) ↦ rw (c, j, n, read_for_write, resolve_existing_for_write) tt
          | inr (special, n) ↦ rw (c, j, n, read_for_write, resolve_existing_for_write) tt
          | inr (regular content, n) ↦
              rw (c, j, n, read_for_write, resolve_existing_for_write)
                (let P = λ (x : List ℕ × List ℕ). Readable r expected tree x.0 x.1 in
                  Answers-if P (ltb r.max_write_bytes (length content)) _ _ (λ _. tt)
                    λ short.
                      Answers-if P (not (r.same_hash expected (r.sha content))) _ _ (λ _. tt)
                        λ same. record {
                          plain = reject-Plain tree [] parts j;
                          file = n;
                          below = clean.0;
                          outside_git = clean.1;
                          named = ground arith;
                          short = ground arith;
                        })
        ]
      ]
]

-- What a batch of replacements did to the tree.
pub record Batch (r : Runtime) (expected : ℕ) (xs : List ExactReplacement) (tree tree' : Tree)
    (answer : ReplaceManyResult) : Type 0 where
  pub content : List ℕ
  pub text : List ℕ
  pub target : Readable r expected tree answer.path content
  pub written : tree' ≡ put answer.path (regular text) tree
  pub edited : Edited r.max_write_bytes xs content text
  pub bounded : length text ≤ r.max_write_bytes
  pub receipts : Receipts 0 xs answer.receipts

-- `P` of an answer and the tree after it; an error leaves the tree as it was.
abbrev pub AllOrNothing {ℓ} : {A : Type ℓ} → Tree → (Tree → A → Type 0) → Tree × Result A → Type 0
AllOrNothing tree P (tree', ok a) = P tree' a
AllOrNothing tree P (tree', err e) = tree' ≡ tree

-- A batch of replacements changes all or nothing. If it answers, the one file that changed is a
-- regular file of the workspace, outside .git, reached through no symbolic link, with the content
-- that the caller named; the new content comes of it by the replacements in order, each of exactly
-- the matches it expects, within the byte limit; and there is a receipt for each.
pub replace_many_exact-AllOrNothing :
    (r : Runtime) (rel expected : ℕ) (xs : List ExactReplacement) (tree : Tree)
    → AllOrNothing tree (Batch r expected xs tree) (replace_many_exact r rel expected xs tree)
unfolding replace_many_exact
replace_many_exact-AllOrNothing r rel expected xs tree = elim (Bool-cases (is_empty xs)) [
  | inl y ↦ rw (y, replace_many_exact) refl
  | inr n ↦ elim (Bool-cases (ltb max_operations (length xs))) [
    | inl y ↦ rw (n, y, replace_many_exact) refl
    | inr m ↦ elim (Result-cases (read_for_write r rel expected tree)) [
      | inl (x, e) ↦ rw (n, m, e, replace_many_exact) refl
      | inr ((path, content), e) ↦ elim (Result-cases (replace_each r 0 xs content)) [
        | inl (x, e') ↦ rw (n, m, e, e', replace_many_exact) refl
        | inr ((text, receipts), e') ↦ elim (Bool-cases (r.write_fails path text)) [
          | inl y ↦ rw (n, m, e, e', y, replace_many_exact) refl
          | inr k ↦
              let target = Answers-ok _ _ (read-Readable r rel expected tree) e in
              let made = Answers-ok _ _ (replace_each-Edited r 0 xs content) e' in
              rw (n, m, e, e', k, replace_many_exact)
                (record {
                  content = content;
                  text = text;
                  target = target;
                  written = refl;
                  edited = made.0;
                  bounded = Edited-bounded r.max_write_bytes xs content text made.0 target.short;
                  receipts = made.1;
                })
        ]
      ]
    ]
  ]
]
