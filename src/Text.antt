-- ===== src/Text.antt =====
-- What the Go code uses of the package strings. A text is the list of its code points.
use mar.Prelude.{
  ℕ, ◌-◌, Bool, true, false, ◌&&◌, ◌||◌, List, [], ◌∷◌, Option, none, some, ◌==◌, if◌then◌else◌,
  leb, contains, is_empty,
}

-- unicode.IsSpace
abbrev pub is_space : ℕ → Bool
is_space c =
    contains c
      (9 ∷ 10 ∷ 11 ∷ 12 ∷ 13 ∷ 32 ∷ 133 ∷ 160 ∷ 5760 ∷ 8232 ∷ 8233 ∷ 8239 ∷ 8287 ∷ 12288 ∷ [])
    || (leb 8192 c && leb c 8202)

abbrev pub trim_left : List ℕ → List ℕ
trim_left [] = []
trim_left (c ∷ cs) = let rest = trim_left cs in if is_space c then rest else c ∷ cs

abbrev pub add_unless_blank : ℕ → List ℕ → List ℕ
add_unless_blank c [] = if is_space c then [] else c ∷ []
add_unless_blank c (d ∷ ds) = c ∷ d ∷ ds

abbrev pub trim_right : List ℕ → List ℕ
trim_right [] = []
trim_right (c ∷ cs) = add_unless_blank c (trim_right cs)

-- strings.TrimSpace
abbrev pub trim_space : List ℕ → List ℕ
trim_space text = trim_right (trim_left text)

-- strings.ToUpper, as far as its result may be ASCII: the dotless i and the long s have capitals
-- in ASCII. Other letters beyond ASCII stay as they are here.
abbrev pub upper : ℕ → ℕ
upper c =
    if leb 97 c && leb c 122 then c - 32 else if c == 305 then 73 else if c == 383 then 83 else c

abbrev pub same_text : List ℕ → List ℕ → Bool
same_text [] [] = true
same_text (a ∷ s) (b ∷ t) = a == b && same_text s t
same_text _ _ = false

-- strings.TrimSpace(text) == ""
abbrev pub is_blank : List ℕ → Bool
is_blank text = is_empty (trim_space text)

-- strings.HasPrefix and strings.TrimPrefix: the rest after the prefix.
abbrev pub after_prefix : List ℕ → List ℕ → Option (List ℕ)
after_prefix [] text = some text
after_prefix (p ∷ ps) [] = none
after_prefix (p ∷ ps) (c ∷ cs) = let rest = after_prefix ps cs in if p == c then rest else none

abbrev pub before_first : ℕ → Option (List ℕ × List ℕ) → Option (List ℕ × List ℕ)
before_first c none = none
before_first c (some (first, second)) = some (c ∷ first, second)

-- strings.SplitN(text, ":", 2), where it has two parts.
abbrev pub split_colon : List ℕ → Option (List ℕ × List ℕ)
split_colon [] = none
split_colon (c ∷ cs) =
    let rest = split_colon cs in if c == 58 then some ([], cs) else before_first c rest
