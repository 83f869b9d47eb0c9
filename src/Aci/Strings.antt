-- ===== src/Aci/Strings.antt =====
-- strings.Count and strings.Replace, as internal/aci calls them, for a text that is not empty.
use mar.Prelude.{
  ℕ, zero, suc, ◌-◌, ◌≡◌, refl, ap, sym, ◌∙◌, Bool, true, false, ◌&&◌, List, [], ◌∷◌, ◌++◌, ◌==◌,
  ltb, arith, inl, inr, Bool-cases, length, is_empty,
}

-- strings.HasPrefix
unfoldable pub has_prefix : List ℕ → List ℕ → Bool
has_prefix [] s = true
has_prefix (p ∷ ps) [] = false
has_prefix (p ∷ ps) (c ∷ s) = p == c && has_prefix ps s

-- The matches that do not overlap, after `skip` bytes.
unfoldable pub count_from : List ℕ → ℕ → List ℕ → ℕ
count_from sub skip [] = 0
count_from sub (suc k) (c ∷ s) = count_from sub k s
count_from sub zero (c ∷ s) = elim (has_prefix sub (c ∷ s)) [
  | true ↦ suc (count_from sub (length sub - 1) s)
  | false ↦ count_from sub 0 s
]

-- strings.Count
abbrev pub count : List ℕ → List ℕ → ℕ
count s sub = count_from sub 0 s

-- The first `n` of those matches replaced; the skipped bytes are left out.
unfoldable pub replace_from : List ℕ → List ℕ → ℕ → ℕ → List ℕ → List ℕ
replace_from sub new skip n [] = []
replace_from sub new (suc k) n (c ∷ s) = replace_from sub new k n s
replace_from sub new zero n (c ∷ s) = elim (has_prefix sub (c ∷ s) && ltb 0 n) [
  | true ↦ new ++ replace_from sub new (length sub - 1) (n - 1) s
  | false ↦ c ∷ replace_from sub new 0 n s
]

-- strings.Replace
abbrev pub replace : List ℕ → List ℕ → List ℕ → ℕ → List ℕ
replace s old new n = replace_from old new 0 n s

-- A text that `sep` cuts into a first piece and others: strings.Join of the pieces.
abbrev pub tail_of : List ℕ → List (List ℕ) → List ℕ
tail_of sep [] = []
tail_of sep (p ∷ ps) = sep ++ (p ++ tail_of sep ps)

abbrev pub join : List ℕ → List ℕ × List (List ℕ) → List ℕ
join sep (first, rest) = first ++ tail_of sep rest

abbrev cut : List ℕ × List (List ℕ) → List ℕ × List (List ℕ)
cut (first, rest) = ([], first ∷ rest)

abbrev longer : ℕ → List ℕ × List (List ℕ) → List ℕ × List (List ℕ)
longer c (first, rest) = (c ∷ first, rest)

-- strings.Split
unfoldable pub split_from : List ℕ → ℕ → List ℕ → List ℕ × List (List ℕ)
split_from sub skip [] = ([], [])
split_from sub (suc k) (c ∷ s) = split_from sub k s
split_from sub zero (c ∷ s) = elim (has_prefix sub (c ∷ s)) [
  | true ↦ cut (split_from sub (length sub - 1) s)
  | false ↦ longer c (split_from sub 0 s)
]

unfoldable drop : ℕ → List ℕ → List ℕ
drop k [] = []
drop (suc k) (c ∷ s) = drop k s
drop zero (c ∷ s) = c ∷ s

prefix-drop : (p : List ℕ) (s : List ℕ) → has_prefix p s ≡ true → p ++ drop (length p) s ≡ s
unfolding has_prefix drop
prefix-drop [] [] h = refl
prefix-drop [] (c ∷ s) h = refl
prefix-drop (p ∷ ps) [] h = cc
prefix-drop (p ∷ ps) (c ∷ s) h =
    let rest = prefix-drop ps s (ground arith) in
    let same : p ≡ c = ground arith in rw (same, rest) refl

drop-zero : (s : List ℕ) → drop 0 s ≡ s
unfolding drop
drop-zero [] = refl
drop-zero (c ∷ s) = refl

prefix-drop-tail :
    (p : List ℕ) (c : ℕ) (s : List ℕ)
    → is_empty p ≡ false
    → has_prefix p (c ∷ s) ≡ true
    → p ++ drop (length p - 1) s ≡ c ∷ s
unfolding drop
prefix-drop-tail [] c s n h = cc
prefix-drop-tail (q ∷ qs) c s n h =
    let same : suc (length qs) - 1 ≡ length qs = omega arith in
    rw same (prefix-drop (q ∷ qs) (c ∷ s) h)

-- The pieces, put together with what they were cut at, are the text.
split-join :
    (sub : List ℕ) (k : ℕ) (s : List ℕ)
    → is_empty sub ≡ false
    → join sub (split_from sub k s) ≡ drop k s
unfolding split_from drop
split-join sub k [] n = refl
split-join sub (suc k) (c ∷ s) n = split-join sub k s n
split-join sub zero (c ∷ s) n = elim (Bool-cases (has_prefix sub (c ∷ s))) [
  | inl y ↦
      let rest = split-join sub (length sub - 1) s n in
      rw (y, split_from, rest) (prefix-drop-tail sub c s n y)
  | inr m ↦ rw (m, split_from) (ap (◌∷◌ c) (split-join sub 0 s n ∙ drop-zero s))
]

module _ (sub new : List ℕ) (c : ℕ) (s : List ℕ) where
  count_hit :
      has_prefix sub (c ∷ s) ≡ true
      → count_from sub 0 (c ∷ s) ≡ suc (count_from sub (length sub - 1) s)
  unfolding count_from
  count_hit y = rw (y, count_from) refl

  count_miss : has_prefix sub (c ∷ s) ≡ false → count_from sub 0 (c ∷ s) ≡ count_from sub 0 s
  unfolding count_from
  count_miss n = rw (n, count_from) refl

  replace_hit :
      (n : ℕ)
      → has_prefix sub (c ∷ s) ≡ true
      → replace_from sub new 0 (suc n) (c ∷ s) ≡ new ++ replace_from sub new (length sub - 1) n s
  unfolding replace_from
  replace_hit n y =
      let more : ltb 0 (suc n) ≡ true = ground arith in
      let less : suc n - 1 ≡ n = omega arith in rw (y, replace_from, more, less) refl

  replace_miss :
      (n : ℕ)
      → has_prefix sub (c ∷ s) ≡ false
      → replace_from sub new 0 n (c ∷ s) ≡ c ∷ replace_from sub new 0 n s
  unfolding replace_from
  replace_miss n y = rw (y, replace_from) refl

  join_hit :
      has_prefix sub (c ∷ s) ≡ true
      → join new (split_from sub 0 (c ∷ s)) ≡ new ++ join new (split_from sub (length sub - 1) s)
  unfolding split_from
  join_hit y = rw (y, split_from) refl

  join_miss :
      has_prefix sub (c ∷ s) ≡ false
      → join new (split_from sub 0 (c ∷ s)) ≡ c ∷ join new (split_from sub 0 s)
  unfolding split_from
  join_miss y = rw (y, split_from) refl

-- The pieces, put together with the replacement, are what all matches replaced leave.
replace-join :
    (sub new : List ℕ) (k : ℕ) (s : List ℕ)
    → replace_from sub new k (count_from sub k s) s ≡ join new (split_from sub k s)
unfolding split_from replace_from count_from
replace-join sub new k [] = refl
replace-join sub new (suc k) (c ∷ s) = replace-join sub new k s
replace-join sub new zero (c ∷ s) = elim (Bool-cases (has_prefix sub (c ∷ s))) [
  | inl y ↦
      ap (λ n. replace_from sub new 0 n (c ∷ s)) (count_hit sub new c s y)
      ∙ replace_hit sub new c s _ y
      ∙ ap (λ t. new ++ t) (replace-join sub new (length sub - 1) s)
      ∙ sym (join_hit sub new c s y)
  | inr m ↦
      ap (λ n. replace_from sub new 0 n (c ∷ s)) (count_miss sub new c s m)
      ∙ replace_miss sub new c s _ m
      ∙ ap (◌∷◌ c) (replace-join sub new 0 s)
      ∙ sym (join_miss sub new c s m)
]

count-split :
    (sub : List ℕ) (k : ℕ) (s : List ℕ) → length (split_from sub k s).1 ≡ count_from sub k s
unfolding split_from count_from
count-split sub k [] = refl
count-split sub (suc k) (c ∷ s) = count-split sub k s
count-split sub zero (c ∷ s) = elim (Bool-cases (has_prefix sub (c ∷ s))) [
  | inl y ↦ rw (y, split_from, count_from) (ap suc (count-split sub (length sub - 1) s))
  | inr m ↦ rw (m, split_from, count_from) (count-split sub 0 s)
]

-- `new_text` is `text` with `n` matches of `old` replaced by `new`: both are the same pieces, put
-- together with the one and with the other.
pub record Replaced (text old new : List ℕ) (n : ℕ) (new_text : List ℕ) : Type 0 where
  pub first : List ℕ
  pub rest : List (List ℕ)
  pub before : text ≡ join old (first, rest)
  pub after : new_text ≡ join new (first, rest)
  pub pieces : length rest ≡ n

-- All matches of a text that is not empty, replaced.
pub replace-Replaced :
    (text old new : List ℕ)
    → is_empty old ≡ false
    → Replaced text old new (count text old) (replace text old new (count text old))
replace-Replaced text old new n = record {
  first = (split_from old 0 text).0;
  rest = (split_from old 0 text).1;
  before = sym (split-join old 0 text n ∙ drop-zero text);
  after = replace-join old new 0 text;
  pieces = count-split old 0 text;
}
