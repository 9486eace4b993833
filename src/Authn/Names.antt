-- ===== src/Authn/Names.antt =====
-- splitName of authn.service.ts.
use Prim.Native.Char.{Char, code}
use Prim.Native.String.{◌++◌ as text_append}
use text.Mathlib.TextLemmas.{append_assoc, cons-append, nil-append}
use text.Mathlib.TextEquality.{Char-path}
use security_scan.Prelude.{
  String, ◌≡◌, refl, sym, ap, ◌∙◌, ◌⊎◌, Bool, false, ◌||◌, List, [], ◌∷◌, arith, ◌==◌, Bool-cases,
  inl, inr, is_empty, ==_iff,
}
use security_scan.Authn.{push_char, split_spaces, join_spaces, all_but_last, last_word, split_name}

-- A space stands in the text.
abbrev pub has_space : String → Bool
has_space String.[] = false
has_space (String.◌∷◌ c s) = code c == b' ' || has_space s

split_spaces-ne-nil : (s : String) → is_empty (split_spaces s) ≡ false
unfolding split_spaces
split_spaces-ne-nil String.[] = refl
split_spaces-ne-nil (String.◌∷◌ c s) = elim (Bool-cases (code c == b' ')) [
  | inl e ↦ rw e refl
  | inr e ↦ rw e (pushed (split_spaces s))
]
  where
    pushed : (ws : List String) → is_empty (push_char c ws) ≡ false
    pushed [] = refl
    pushed (w ∷ ws) = refl

join-push_char :
    (c : Char) (ws : List String)
    → is_empty ws ≡ false
    → join_spaces (push_char c ws) ≡ String.◌∷◌ c (join_spaces ws)
join-push_char c [] h = cc
join-push_char c (w ∷ []) h = refl
join-push_char c (w ∷ v ∷ ws) h = cons-append c w (text_append " " (join_spaces (v ∷ ws)))

all_spaceless-push_char :
    (c : Char) (ws : List String)
    → (code c == b' ') ≡ false
    → has_space (last_word ws) ≡ false
    → has_space (last_word (push_char c ws)) ≡ false
all_spaceless-push_char c [] h k = ground (arith, h)
all_spaceless-push_char c (w ∷ []) h k = ground (arith, h, k)
all_spaceless-push_char c (w ∷ v ∷ ws) h k = k

abbrev space : Char
space = " "

space_join :
    (ws : List String)
    → is_empty ws ≡ false
    → join_spaces ("" ∷ ws) ≡ String.◌∷◌ space (join_spaces ws)
space_join [] h = cc
space_join (w ∷ ws) h =
    nil-append (text_append " " (join_spaces (w ∷ ws)))
    ∙ cons-append space "" (join_spaces (w ∷ ws))
    ∙ ap (String.◌∷◌ space) (nil-append (join_spaces (w ∷ ws)))

join-split_spaces : (s : String) → join_spaces (split_spaces s) ≡ s
unfolding split_spaces
join-split_spaces String.[] = refl
join-split_spaces (String.◌∷◌ c s) = elim (Bool-cases (code c == b' ')) [
  | inl e ↦ rw e (
      space_join (split_spaces s) (split_spaces-ne-nil s)
      ∙ ap (String.◌∷◌ space) (join-split_spaces s)
      ∙ ap (λ d. String.◌∷◌ d s) (sym (Char-path c space ((==_iff (code c) b' ').0 e))))
  | inr e ↦ rw e (
      join-push_char c (split_spaces s) (split_spaces-ne-nil s)
      ∙ ap (String.◌∷◌ c) (join-split_spaces s))
]

last_word-cons :
    (w : String) (ws : List String) → is_empty ws ≡ false → last_word (w ∷ ws) ≡ last_word ws
last_word-cons w [] h = cc
last_word-cons w (v ∷ ws) h = refl

last_word-split_spaces : (s : String) → has_space (last_word (split_spaces s)) ≡ false
unfolding split_spaces
last_word-split_spaces String.[] = refl
last_word-split_spaces (String.◌∷◌ c s) = elim (Bool-cases (code c == b' ')) [
  | inl e ↦ rw e (
      ap has_space (last_word-cons "" (split_spaces s) (split_spaces-ne-nil s))
      ∙ last_word-split_spaces s)
  | inr e ↦ rw e (all_spaceless-push_char c (split_spaces s) e (last_word-split_spaces s))
]

-- The words but the last, a space and the last word are the text.
join-last_word :
    (w v : String) (ws : List String)
    → join_spaces (w ∷ v ∷ ws)
      ≡ text_append
          (join_spaces (all_but_last (w ∷ v ∷ ws)))
          (text_append " " (last_word (w ∷ v ∷ ws)))
join-last_word w v [] = refl
join-last_word w v (u ∷ ws) =
    ap (λ r. text_append w (text_append " " r)) (join-last_word v u ws)
    ∙ ap (text_append w) (
        sym (
          append_assoc " " (join_spaces (all_but_last (v ∷ u ∷ ws)))
            (text_append " " (last_word (v ∷ u ∷ ws)))))
    ∙ sym (
        append_assoc w (text_append " " (join_spaces (all_but_last (v ∷ u ∷ ws))))
          (text_append " " (last_word (v ∷ u ∷ ws))))

halves :
    (ws : List String) (s : String)
    → join_spaces ws ≡ s
    → is_empty ws ≡ false
    → (text_append (join_spaces (all_but_last ws)) (text_append " " (last_word ws)) ≡ s)
      ⊎ ((join_spaces (all_but_last ws) ≡ "") × (last_word ws ≡ s))
halves [] s e h = cc
halves (w ∷ []) s e h = inr (refl, e)
halves (w ∷ v ∷ ws) s e h = inl (sym (join-last_word w v ws) ∙ e)

-- The first name, a space and the last name are the full name again, or the first name is empty and
-- the last name is the full name; and no space stands in the last name.
pub split_name-join :
    (full : String)
    → ((text_append (split_name full).first_name (text_append " " (split_name full).last_name)
          ≡ full)
        ⊎ (((split_name full).first_name ≡ "") × ((split_name full).last_name ≡ full)))
      × (has_space (split_name full).last_name ≡ false)
unfolding split_name
split_name-join full = (
  halves (split_spaces full) full (join-split_spaces full) (split_spaces-ne-nil full),
  last_word-split_spaces full,
)
