-- ===== src/Aci/Tests.antt =====
-- internal/aci: a workspace with one file, and the theorems at concrete inputs.
use mar.Prelude.{◌≡◌, refl, false, [], ◌∷◌, none, some, ◌==◌, if◌then◌else◌}
use mar.Text.{same_text}
use mar.Aci.Strings.{count, replace, count_from, replace_from, has_prefix}
use mar.Aci.Paths.{regular, Tree, Names}
use mar.Aci.Files.{Runtime, ExactReplacement, replace_many_exact, write_file}
use mar.Aci.Guarded.{AllOrNothing, Batch, replace_many_exact-AllOrNothing}
use mar.Aci.Writes.{Keeps, write_file-Keeps}

-- "aXbXc" with "X" twice replaced by "YY"
replaced_twice :
    replace (97 ∷ 88 ∷ 98 ∷ 88 ∷ 99 ∷ []) (88 ∷ []) (89 ∷ 89 ∷ []) 2
    ≡ 97 ∷ 89 ∷ 89 ∷ 98 ∷ 89 ∷ 89 ∷ 99 ∷ []
unfolding replace_from has_prefix
replaced_twice = refl

-- "aaa" has one "aa" that does not overlap.
counted_once : count (97 ∷ 97 ∷ 97 ∷ []) (97 ∷ 97 ∷ []) ≡ 1
unfolding count_from has_prefix
counted_once = refl

abbrev plain_names : Names
plain_names = record {
  trim = λ t. t;
  is_abs = λ t. false;
  clean_parts = λ t. t ∷ [];
  lower = λ t. t;
  dot = 1;
  dot_dot = 2;
  git = 3;
}

abbrev plain_runtime : Runtime
plain_runtime = record {
  names = plain_names;
  max_write_bytes = 8;
  sha = λ content. 5;
  same_hash = λ a b. a == b;
  absent = 6;
  write_fails = λ path content. false;
}

abbrev one_file : Tree
one_file path = if same_text (10 ∷ []) path then some (regular (97 ∷ 88 ∷ [])) else none

abbrev swap : ExactReplacement
swap = record { search = 88 ∷ []; replacement = 89 ∷ 89 ∷ []; expected_count = 1 }

replace_many_exact-AllOrNothing_example :
    AllOrNothing one_file
      (Batch plain_runtime 5 (swap ∷ []) one_file)
      (replace_many_exact plain_runtime 10 5 (swap ∷ []) one_file)
replace_many_exact-AllOrNothing_example =
    replace_many_exact-AllOrNothing plain_runtime 10 5 (swap ∷ []) one_file

write_file-Keeps_example :
    Keeps
      (98 ∷ [])
      (10 ∷ [])
      (some (regular (97 ∷ 88 ∷ [])))
      (write_file plain_runtime 11 6 (98 ∷ []) one_file)
write_file-Keeps_example = write_file-Keeps plain_runtime 11 6 (98 ∷ []) one_file (10 ∷ [])
