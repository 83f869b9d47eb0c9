-- ===== src/Aci/Files.antt =====
-- internal/aci/runtime.go and replace_many.go: the changes of files. `sha` is SHA-256 in
-- hexadecimal, `same_hash` strings.EqualFold, and `absent` the text "ABSENT". atomicWrite renames a
-- finished file over the target, or fails and leaves it.
use mar.Prelude.{
  ℕ, suc, Bool, true, false, ◌||◌, not, List, [], ◌∷◌, Option, none, some, ◌==◌, if◌then◌else◌, ltb,
  length, is_empty,
}
use mar.Aci.Strings.{count, replace}
use mar.Aci.Paths.{
  regular, Tree, put, Error, too_large, bad_hash, bad_search, bad_count, no_replacement, too_many,
  already_exists, missing_file, write_failed, Result, ok, err, Names, resolve_existing_for_write,
  resolve_write_target,
}

pub record Runtime : Type 0 where
  pub names : Names
  pub max_write_bytes : ℕ
  pub sha : List ℕ → ℕ
  pub same_hash : ℕ → ℕ → Bool
  pub absent : ℕ
  pub write_fails : List ℕ → List ℕ → Bool

-- MaxReplaceManyExactOperations
abbrev pub max_operations : ℕ
max_operations = 16

pub record ExactReplacement : Type 0 where
  pub search : List ℕ
  pub replacement : List ℕ
  pub expected_count : ℕ

pub record ReplacementReceipt : Type 0 where
  pub index : ℕ
  pub expected_count : ℕ
  pub matched_count : ℕ

pub record MutationResult : Type 0 where
  pub path : List ℕ
  pub before_hash : ℕ
  pub after_hash : ℕ
  pub created : Bool

pub record ReplaceManyResult : Type 0 where
  pub path : List ℕ
  pub before_hash : ℕ
  pub final_hash : ℕ
  pub receipts : List ReplacementReceipt

-- A call: the tree after it, and its answer.
abbrev pub Call {ℓ} : Type ℓ → Type ℓ
Call A = Tree → Tree × Result A

module _ (r : Runtime) where
  -- atomicWrite, and what the caller answers after it
  abbrev pub atomic_write {ℓ} : {A : Type ℓ} → List ℕ → List ℕ → A → Call A
  atomic_write path content answer tree =
      if r.write_fails path content
      then (tree, err write_failed)
      else (put path (regular content) tree, ok answer)

  unfoldable pub expected_fits : ℕ → Option (List ℕ) → Option Error
  expected_fits expected none = if expected == r.absent then none else some missing_file
  expected_fits expected (some content) =
      if expected == r.absent
      then some already_exists
      else if not (r.same_hash expected (r.sha content))
      then some bad_hash
      else none

  abbrev pub is_absent : Option (List ℕ) → Bool
  is_absent none = true
  is_absent (some _) = false

  abbrev pub hash_of : Option (List ℕ) → ℕ
  hash_of none = 0
  hash_of (some content) = r.sha content

  abbrev pub write_checked : Option Error → List ℕ → List ℕ → Option (List ℕ) → Call MutationResult
  write_checked (some e) path content old tree = (tree, err e)
  write_checked none path content old tree =
      atomic_write path content
        (record {
          path = path;
          before_hash = hash_of old;
          after_hash = r.sha content;
          created = is_absent old;
        })
        tree

  abbrev pub write_resolved :
      ℕ → List ℕ → Tree × Result (List ℕ × Option (List ℕ)) → Tree × Result MutationResult
  write_resolved expected content (tree, err e) = (tree, err e)
  write_resolved expected content (tree, ok (path, old)) =
      write_checked (expected_fits expected old) path content old tree

  -- WriteFile
  unfoldable pub write_file : ℕ → ℕ → List ℕ → Call MutationResult
  write_file rel expected content tree =
      if ltb r.max_write_bytes (length content)
      then (tree, err too_large)
      else write_resolved expected content (resolve_write_target r.names rel tree)

  -- The file that both replacing calls read: its path and its content.
  unfoldable pub read_for_write : ℕ → ℕ → Tree → Result (List ℕ × List ℕ)
  read_for_write rel expected tree = elim (resolve_existing_for_write r.names rel tree) [
    | err e ↦ err e
    | ok (path, content) ↦
        if ltb r.max_write_bytes (length content)
        then err too_large
        else if not (r.same_hash expected (r.sha content))
        then err bad_hash
        else ok (path, content)
  ]

  -- One replacement in a text, within the byte limit.
  unfoldable pub replace_text : ExactReplacement → List ℕ → Result (List ℕ)
  replace_text x text =
      let new_text = replace text x.search x.replacement x.expected_count in
      if not (count text x.search == x.expected_count)
      then err bad_count
      else if ltb r.max_write_bytes (length new_text)
      then err too_large
      else ok new_text

  abbrev pub is_bad : ExactReplacement → Bool
  is_bad x = x.expected_count == 0 || is_empty x.search

  -- ReplaceExact
  unfoldable pub replace_exact : ℕ → ℕ → ExactReplacement → Call MutationResult
  replace_exact rel expected x tree =
      if is_bad x then (tree, err bad_search) else elim (read_for_write rel expected tree) [
        | err e ↦ (tree, err e)
        | ok (path, content) ↦ elim (replace_text x content) [
          | err e ↦ (tree, err e)
          | ok new_text ↦
              atomic_write path new_text
                (record {
                  path = path;
                  before_hash = r.sha content;
                  after_hash = r.sha new_text;
                  created = false;
                })
                tree
        ]
      ]

  abbrev receipt : ℕ → ExactReplacement → List ℕ → ReplacementReceipt
  receipt index x text = record {
    index = suc index;
    expected_count = x.expected_count;
    matched_count = count text x.search;
  }

  abbrev with_receipt :
      ReplacementReceipt
      → Result (List ℕ × List ReplacementReceipt)
      → Result (List ℕ × List ReplacementReceipt)
  with_receipt x (err e) = err e
  with_receipt x (ok (text, xs)) = ok (text, x ∷ xs)

  -- The loop of ReplaceManyExact, from `index` on.
  unfoldable pub replace_each :
      ℕ → List ExactReplacement → List ℕ → Result (List ℕ × List ReplacementReceipt)
  replace_each index [] text = ok (text, [])
  replace_each index (x ∷ xs) text =
      if is_bad x then err bad_search else elim (replace_text x text) [
        | err e ↦ err e
        | ok new_text ↦ with_receipt (receipt index x text) (replace_each (suc index) xs new_text)
      ]

  -- ReplaceManyExact
  unfoldable pub replace_many_exact : ℕ → ℕ → List ExactReplacement → Call ReplaceManyResult
  replace_many_exact rel expected xs tree =
      if is_empty xs
      then (tree, err no_replacement)
      else if ltb max_operations (length xs)
      then (tree, err too_many)
      else elim (read_for_write rel expected tree) [
        | err e ↦ (tree, err e)
        | ok (path, content) ↦ elim (replace_each 0 xs content) [
          | err e ↦ (tree, err e)
          | ok (text, receipts) ↦
              atomic_write path text
                (record {
                  path = path;
                  before_hash = r.sha content;
                  final_hash = r.sha text;
                  receipts = receipts;
                })
                tree
        ]
      ]
