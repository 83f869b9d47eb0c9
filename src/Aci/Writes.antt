-- ===== src/Aci/Writes.antt =====
-- internal/aci/runtime.go: what WriteFile leaves alone.
use mar.Prelude.{
  ℕ, ◌≡◌, refl, sym, subst, ◌⊎◌, ==_refl, Bool, true, false, ◌||◌, not, List, [], ◌∷◌, ◌++◌, Option,
  none, some, if◌then◌else◌, ltb, arith, inl, inr, Bool-cases, Option-cases, length,
}
use mar.Text.{same_text}
use mar.Aci.Paths.{
  Node, regular, directory, Tree, put, Error, write_failed, Result, ok, err, is_node_symlink,
  is_directory, ensure_parents, clean_relative, resolve_write_target, parent, target_after, inside,
}
use mar.Aci.Files.{
  Runtime, MutationResult, write_file, write_resolved, expected_fits, write_checked,
}
use mar.Aci.Edits.{Result-cases}

same_text_eq : (s t : List ℕ) → same_text s t ≡ true → s ≡ t
same_text_eq [] [] h = refl
same_text_eq [] (b ∷ t) h = cc
same_text_eq (a ∷ s) [] h = cc
same_text_eq (a ∷ s) (b ∷ t) h =
    let rest = same_text_eq s t (ground arith) in
    let first : a ≡ b = ground arith in rw (first, rest) refl

same_text_refl : (s : List ℕ) → same_text s s ≡ true
same_text_refl [] = refl
same_text_refl (a ∷ s) = let self = ==_refl a in ground (arith, same_text_refl s)

-- What may become of a path beside the one that is written: what stood there stands there still,
-- and where nothing was, there is nothing or a directory.
abbrev pub Stays : Option Node → Option Node → Type 0
Stays (some node) after = after ≡ some node
Stays none after = (after ≡ none) ⊎ (after ≡ some directory)

Stays-self : (o : Option Node) → Stays o o
Stays-self (some node) = refl
Stays-self none = inl refl

-- A directory that was made stays one.
Stays-made : (o after : Option Node) → o ≡ none → Stays (some directory) after → Stays o after
Stays-made none after n h = inr h
Stays-made (some node) after n h = cc

put-Stays :
    (tree : Tree) (next q : List ℕ) (after : Option Node)
    → tree next ≡ none
    → Stays (put next directory tree q) after
    → Stays (tree q) after
unfolding put
put-Stays tree next q after n h = elim (Bool-cases (same_text next q)) [
  | inr m ↦ rw m at h
  | inl y ↦
      let e = same_text_eq next q y in
      let n' = rw e at n in let h' = rw y at h in Stays-made (tree q) after n' h'
]

ensure_parents-Stays :
    (tree : Tree) (current ps q : List ℕ) → Stays (tree q) ((ensure_parents tree current ps).0 q)
unfolding ensure_parents put
ensure_parents-Stays tree current [] q = Stays-self (tree q)
ensure_parents-Stays tree current (p ∷ ps) q =
    let next = current ++ (p ∷ []) in
    elim (Option-cases (tree next)) [
      | inl n ↦
          rw (n, ensure_parents)
            (put-Stays tree next q _ n (ensure_parents-Stays (put next directory tree) next ps q))
      | inr (x, n) ↦ elim (Bool-cases (is_node_symlink x || not (is_directory x))) [
        | inl y ↦ rw (n, y, ensure_parents) (Stays-self (tree q))
        | inr m ↦ rw (n, m, ensure_parents) (ensure_parents-Stays tree next ps q)
      ]
    ]

-- Beside the path that the answer names, `q` is as Stays says, and the content stands at that path;
-- a call that fails writes no path.
abbrev pub Keeps : List ℕ → List ℕ → Option Node → Tree × Result MutationResult → Type 0
Keeps content q before (tree, ok a) =
    (same_text a.path q ≡ false → Stays before (tree q)) × (tree a.path ≡ some (regular content))
Keeps content q before (tree, err e) = Stays before (tree q)

module _ (r : Runtime) where
  target_after_tree :
      (parts : List ℕ) (t : Tree × Option Error) → (target_after r.names parts t).0 ≡ t.0
  target_after_tree parts (tree, some e) = refl
  target_after_tree parts (tree, none) = refl

  resolve_write_target-Stays :
      (rel : ℕ) (tree : Tree) (q : List ℕ)
      → Stays (tree q) ((resolve_write_target r.names rel tree).0 q)
  unfolding resolve_write_target
  resolve_write_target-Stays rel tree q = elim (Result-cases (clean_relative r.names rel)) [
    | inl (x, e) ↦ rw (e, resolve_write_target) (Stays-self (tree q))
    | inr (parts, e) ↦ elim (Bool-cases (inside r.names parts)) [
      | inr n ↦ rw (e, n, resolve_write_target) (Stays-self (tree q))
      | inl y ↦
          rw (e, y, resolve_write_target)
            (subst (λ t. Stays (tree q) (t q))
              (sym (target_after_tree parts (ensure_parents tree [] (parent parts))))
              (ensure_parents-Stays tree [] (parent parts) q))
    ]
  ]

  put-Keeps :
      (b : Bool) (content q : List ℕ) (before : Option Node) (answer : MutationResult) (tree : Tree)
      → Stays before (tree q)
      → Keeps content q before (
          if b
          then (tree, err write_failed)
          else (put answer.path (regular content) tree, ok answer))
  unfolding put
  put-Keeps true content q before answer tree h = h
  put-Keeps false content q before answer tree h =
      (λ other. rw other h, rw (same_text_refl answer.path) refl)

  write_checked-Keeps :
      (o : Option Error) (path content q : List ℕ) (before : Option Node) (old : Option (List ℕ))
      (tree : Tree)
      → Stays before (tree q)
      → Keeps content q before (write_checked r o path content old tree)
  write_checked-Keeps (some e) path content q before old tree h = h
  write_checked-Keeps none path content q before old tree h =
      put-Keeps (r.write_fails path content) content q before _ tree h

  write_resolved-Keeps :
      (expected : ℕ) (content q : List ℕ) (before : Option Node)
      (t : Tree × Result (List ℕ × Option (List ℕ)))
      → Stays before (t.0 q)
      → Keeps content q before (write_resolved r expected content t)
  write_resolved-Keeps expected content q before (tree, err e) h = h
  write_resolved-Keeps expected content q before (tree, ok (path, old)) h =
      write_checked-Keeps (expected_fits r expected old) path content q before old tree h

  -- WriteFile writes its content to the path that it answers. At every other path, and at every
  -- path if it fails, what stood there stays, and where nothing was there is nothing or a directory
  -- that it made.
  pub write_file-Keeps :
      (rel expected : ℕ) (content : List ℕ) (tree : Tree) (q : List ℕ)
      → Keeps content q (tree q) (write_file r rel expected content tree)
  unfolding write_file
  write_file-Keeps rel expected content tree q =
      elim (Bool-cases (ltb r.max_write_bytes (length content))) [
        | inl y ↦ rw (y, write_file) (Stays-self (tree q))
        | inr n ↦
            rw (n, write_file)
              (write_resolved-Keeps expected content q (tree q)
                (resolve_write_target r.names rel tree) (resolve_write_target-Stays rel tree q))
      ]
