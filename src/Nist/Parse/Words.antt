-- ===== src/Nist/Parse/Words.antt =====
-- The words that the splitter of parse_nist finds in a text: nist.ts, SPEC_SPLITTER.
use mathlib.Core.List.{append_assoc, append-nil}
use security_scan.Prelude.{
  ℕ, ◌≡◌, refl, sym, ap, ◌∙◌, Bool, true, false, ◌&&◌, inl, inr, List, [], ◌∷◌, ◌++◌, arith,
  Bool-cases, any, filter, is_empty, Text, is_space, trim, trim_start, trim_end,
}
use security_scan.Nist.Parse.{split_specs, is_spec_sep, non_empty}

-- The pieces of a text that are not empty.
abbrev pub words : Bool → Text → Text → List Text
words sep cur s = filter non_empty (split_specs sep cur s)

-- A sub-specifier that the parser cannot break: not empty, and free of separators.
pub record IsSpec (s : Text) : Type 0 where
  pub filled : non_empty s ≡ true
  pub whole : any is_spec_sep s ≡ false

words-sep :
    (cur : Text) (c : ℕ) (s : Text)
    → is_spec_sep c ≡ true
    → words false cur (c ∷ s) ≡ filter non_empty (cur ∷ []) ++ words true [] s
unfolding split_specs
words-sep cur c s h = ground arith

pub words-sep_again :
    (cur : Text) (c : ℕ) (s : Text)
    → is_spec_sep c ≡ true
    → words true cur (c ∷ s) ≡ words true cur s
unfolding split_specs
words-sep_again cur c s h = ground arith

words-unit :
    (sep : Bool) (cur : Text) (c : ℕ) (s : Text)
    → is_spec_sep c ≡ false
    → words sep cur (c ∷ s) ≡ words false (cur ++ c ∷ []) s
unfolding split_specs
words-unit sep cur c s h = ground arith

-- The units of a sub-specifier go to the current piece.
words-whole :
    (spec cur s : Text)
    → any is_spec_sep spec ≡ false
    → words false cur (spec ++ s) ≡ words false (cur ++ spec) s
words-whole [] cur s h = ap (λ t. words false t s) (sym (append-nil cur))
words-whole (c ∷ spec) cur s h =
    words-unit false cur c (spec ++ s) (ground arith)
    ∙ words-whole spec (cur ++ c ∷ []) s (ground arith)
    ∙ ap (λ t. words false t s) (append_assoc cur (c ∷ []) spec)

-- A sub-specifier behind a separator and before one is one word.
pub words-IsSpec :
    (spec s : Text) (c : ℕ)
    → IsSpec spec
    → is_spec_sep c ≡ true
    → words true [] (spec ++ c ∷ s) ≡ spec ∷ words true [] s
words-IsSpec [] s c v h = cc v.filled
words-IsSpec (d ∷ spec) s c v h =
    words-unit true [] d (spec ++ c ∷ s) (ground (arith, v.whole))
    ∙ words-whole spec (d ∷ []) (c ∷ s) (ground (arith, v.whole))
    ∙ words-sep (d ∷ spec) c s h

pub is_spec_sep_of-is_space : (c : ℕ) → is_space c ≡ true → is_spec_sep c ≡ true
unfolding is_spec_sep
is_spec_sep_of-is_space c h = rw h

is_empty-eq : (s : Text) → is_empty s ≡ true → s ≡ []
is_empty-eq [] h = refl
is_empty-eq (c ∷ s) h = cc

trim_end-cons-nil :
    (c : ℕ) (s : Text)
    → (is_empty (trim_end s) && is_space c) ≡ true
    → (trim_end (c ∷ s) ≡ []) × (trim_end s ≡ []) × (is_spec_sep c ≡ true)
unfolding trim_end
trim_end-cons-nil c s h =
    (rw h, is_empty-eq (trim_end s) (ground arith), is_spec_sep_of-is_space c (ground arith))

trim_end-cons :
    (c : ℕ) (s : Text)
    → (is_empty (trim_end s) && is_space c) ≡ false
    → trim_end (c ∷ s) ≡ c ∷ trim_end s
unfolding trim_end
trim_end-cons c s h = rw h

-- The words behind a first unit depend only on the words behind it.
words-cons_congr :
    (sep : Bool) (cur : Text) (c : ℕ) (s t : Text)
    → ((sep' : Bool) (cur' : Text) → words sep' cur' s ≡ words sep' cur' t)
    → words sep cur (c ∷ s) ≡ words sep cur (c ∷ t)
words-cons_congr sep cur c s t ih = elim (Bool-cases (is_spec_sep c)) [
  | inr e ↦ words-unit sep cur c s e ∙ ih false (cur ++ c ∷ []) ∙ sym (words-unit sep cur c t e)
  | inl e ↦ by_sep sep e
]
  where
    by_sep : (b : Bool) → is_spec_sep c ≡ true → words b cur (c ∷ s) ≡ words b cur (c ∷ t)
    by_sep true e = words-sep_again cur c s e ∙ ih true cur ∙ sym (words-sep_again cur c t e)
    by_sep false e =
        words-sep cur c s e
        ∙ ap (λ w. filter non_empty (cur ∷ []) ++ w) (ih true [])
        ∙ sym (words-sep cur c t e)

-- A separator with nothing behind it adds no word.
words-last_sep :
    (sep : Bool) (cur : Text) (c : ℕ)
    → is_spec_sep c ≡ true
    → words sep cur (c ∷ []) ≡ words sep cur []
unfolding split_specs
words-last_sep true cur c h = words-sep_again cur c [] h
words-last_sep false cur c h = words-sep cur c [] h ∙ append-nil _

-- Trimming the end changes no word.
words-trim_end : (s : Text) (sep : Bool) (cur : Text) → words sep cur (trim_end s) ≡ words sep cur s
words-trim_end [] sep cur = unfold trim_end in refl
words-trim_end (c ∷ s) sep cur = elim (Bool-cases (is_empty (trim_end s) && is_space c)) [
  | inl e ↦
      (let (all_gone, rest_gone, c_sep) = trim_end-cons-nil c s e in
        ap (words sep cur) all_gone
        ∙ sym (words-last_sep sep cur c c_sep)
        ∙ words-cons_congr sep cur c [] s
            (λ b t. ap (words b t) (sym rest_gone) ∙ words-trim_end s b t))
  | inr e ↦
      ap (words sep cur) (trim_end-cons c s e)
      ∙ words-cons_congr sep cur c (trim_end s) s (words-trim_end s)
]

trim_start-cons_space : (c : ℕ) (s : Text) → is_space c ≡ true → trim_start (c ∷ s) ≡ trim_start s
unfolding trim_start
trim_start-cons_space c s h = rw h

trim_start-cons : (c : ℕ) (s : Text) → is_space c ≡ false → trim_start (c ∷ s) ≡ c ∷ s
unfolding trim_start
trim_start-cons c s h = rw h

words-start : (c : ℕ) (s : Text) → words false [] (c ∷ s) ≡ words true [] (c ∷ s)
words-start c s = elim (Bool-cases (is_spec_sep c)) [
  | inl e ↦ words-sep [] c s e ∙ sym (words-sep_again [] c s e)
  | inr e ↦ words-unit false [] c s e ∙ sym (words-unit true [] c s e)
]

words-trim_start : (s : Text) → words false [] (trim_start s) ≡ words true [] s
words-trim_start [] = unfold trim_start split_specs in refl
words-trim_start (c ∷ s) = elim (Bool-cases (is_space c)) [
  | inl e ↦
      ap (words false []) (trim_start-cons_space c s e)
      ∙ words-trim_start s
      ∙ sym (words-sep_again [] c s (is_spec_sep_of-is_space c e))
  | inr e ↦ ap (words false []) (trim_start-cons c s e) ∙ words-start c s
]

-- The words of a text do not depend on the trimming.
pub words-trim : (s : Text) → words false [] (trim s) ≡ words true [] s
unfolding trim
words-trim s = words-trim_end (trim_start s) false [] ∙ words-trim_start s
