-- ===== src/Evaluations/Form.antt =====
-- The form of POST evaluations: create-evaluation-interceptor.ts.
use security_scan.Prelude.{
  ℕ, ◌≡◌, refl, sym, ap, ◌∙◌, inl, inr, true, false, not, some, List, [], ◌∷◌, arith, all, All,
  ◌==◌, Text, text_eq, codes, join, Bool-cases, ==_iff, is_empty,
}
use security_scan.Evaluations.{UploadForm, push_unit, split_commas, intercept, read_as}

-- No comma stands in the word.
abbrev pub IsWord : Text → Type 0
IsWord s = all (λ c. not (c == b',')) s ≡ true

abbrev pub comma : Text
comma = b',' ∷ []

split_commas-ne-nil : (s : Text) → is_empty (split_commas s) ≡ false
unfolding split_commas
split_commas-ne-nil [] = refl
split_commas-ne-nil (c ∷ s) = elim (Bool-cases (c == b',')) [
  | inl e ↦ rw e refl
  | inr e ↦ rw e (pushed (split_commas s))
]
  where
    pushed : (ws : List Text) → is_empty (push_unit c ws) ≡ false
    pushed [] = refl
    pushed (w ∷ ws) = refl

join-push_unit :
    (c : ℕ) (ws : List Text) → is_empty ws ≡ false → join comma (push_unit c ws) ≡ c ∷ join comma ws
join-push_unit c [] h = cc
join-push_unit c (w ∷ []) h = refl
join-push_unit c (w ∷ v ∷ ws) h = refl

join-nil : (ws : List Text) → is_empty ws ≡ false → join comma ([] ∷ ws) ≡ b',' ∷ join comma ws
join-nil [] h = cc
join-nil (w ∷ ws) h = refl

-- Splitting at the commas loses nothing.
pub join-split_commas : (s : Text) → join comma (split_commas s) ≡ s
unfolding split_commas
join-split_commas [] = refl
join-split_commas (c ∷ s) = elim (Bool-cases (c == b',')) [
  | inl e ↦ rw e (
      join-nil (split_commas s) (split_commas-ne-nil s)
      ∙ ap (λ r. b',' ∷ r) (join-split_commas s)
      ∙ ap (λ d. d ∷ s) (sym ((==_iff c b',').0 e)))
  | inr e ↦ rw e (
      join-push_unit c (split_commas s) (split_commas-ne-nil s)
      ∙ ap (λ r. c ∷ r) (join-split_commas s))
]

All-push_unit :
    (c : ℕ) (ws : List Text) → (c == b',') ≡ false → All IsWord ws → All IsWord (push_unit c ws)
All-push_unit c [] h v = (ground (arith, h), tt)
All-push_unit c (w ∷ ws) h (v, vs) = (ground (arith, h, v), vs)

pub split_commas-IsWord : (s : Text) → All IsWord (split_commas s)
unfolding split_commas
split_commas-IsWord [] = (refl, tt)
split_commas-IsWord (c ∷ s) = elim (Bool-cases (c == b',')) [
  | inl e ↦ rw e (refl, split_commas-IsWord s)
  | inr e ↦ rw e (All-push_unit c (split_commas s) e (split_commas-IsWord s))
]

-- Of a form whose three fields are filled, the tags and the groups are words without commas that
-- joined by commas give the field again, and the evaluation is public exactly if the field says
-- true.
pub intercept-join :
    (form : UploadForm) (c d e : ℕ) (tags groups flag : Text)
    → form.evaluation_tags ≡ some (c ∷ tags)
    → form.groups ≡ some (d ∷ groups)
    → form.is_public ≡ some (e ∷ flag)
    → (join comma (intercept form).evaluation_tags ≡ c ∷ tags)
      × All IsWord (intercept form).evaluation_tags
      × ((ids : List Text) × ((intercept form).groups ≡ some ids)
          × (join comma ids ≡ d ∷ groups)
          × All IsWord ids)
      × ((intercept form).is_public ≡ read_as (text_eq (e ∷ flag) (codes "true")))
unfolding intercept
intercept-join form c d e tags groups flag t g p =
    rw (t, g, p)
      (
        join-split_commas (c ∷ tags),
        split_commas-IsWord (c ∷ tags),
        (
          split_commas (d ∷ groups),
          refl,
          join-split_commas (d ∷ groups),
          split_commas-IsWord (d ∷ groups),
        ),
        refl,
      )
