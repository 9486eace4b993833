-- ===== src/Pipes/Runs.antt =====
-- The searches of the regular expressions find what they describe: password-complexity.pipe.ts.
use security_scan.Prelude.{
  ℕ, zero, suc, ◌≡◌, refl, ap, ◌↔◌, inl, inr, Bool, true, ◌&&◌, [], ◌∷◌, ◌++◌, arith, ◌==◌,
  Bool-cases, all, length, Text,
}
use security_scan.Pipes.{starts_run, has_run, has_repeat, is_dot}

-- Somewhere in the text stand `n` units of the class, one behind the other.
abbrev pub RunIn : (ℕ → Bool) → ℕ → Text → Type 0
RunIn p n s =
    (before : Text) × (run : Text) × (after : Text) × (s ≡ before ++ (run ++ after))
    × (all p run ≡ true)
    × (length run ≡ n)

StartsWith : (ℕ → Bool) → ℕ → Text → Type 0
StartsWith p n s =
    (run : Text) × (after : Text) × (s ≡ run ++ after) × (all p run ≡ true) × (length run ≡ n)

starts_run_sound : (p : ℕ → Bool) (n : ℕ) (s : Text) → starts_run p n s ≡ true → StartsWith p n s
unfolding starts_run StartsWith
starts_run_sound p zero s h = ([], s, refl, refl, refl)
starts_run_sound p (suc n) [] h = cc
starts_run_sound p (suc n) (c ∷ s) h =
    let (run, after, e, a, l) = starts_run_sound p n s (ground arith) in
    (c ∷ run, after, ap (λ t. c ∷ t) e, ground arith, ap suc l)

starts_run_complete :
    (p : ℕ → Bool) (run after : Text)
    → all p run ≡ true
    → starts_run p (length run) (run ++ after) ≡ true
unfolding starts_run
starts_run_complete p [] after h = refl
starts_run_complete p (c ∷ run) after h = ground (arith, starts_run_complete p run after)

has_run_sound : (p : ℕ → Bool) (n : ℕ) (s : Text) → has_run p n s ≡ true → RunIn p n s
unfolding has_run StartsWith
has_run_sound p n [] h =
    let (run, after, e, a, l) = starts_run_sound p n [] h in ([], run, after, e, a, l)
has_run_sound p n (c ∷ s) h = elim (Bool-cases (starts_run p n (c ∷ s))) [
  | inl here ↦
      (let (run, after, e, a, l) = starts_run_sound p n (c ∷ s) here in ([], run, after, e, a, l))
  | inr later ↦
      (let (before, run, after, e, a, l) = has_run_sound p n s (ground (arith, later, h)) in
        (c ∷ before, run, after, ap (λ t. c ∷ t) e, a, l))
]

has_run_complete :
    (p : ℕ → Bool) (before run after : Text)
    → all p run ≡ true
    → has_run p (length run) (before ++ (run ++ after)) ≡ true
unfolding has_run
has_run_complete p [] [] [] h = refl
has_run_complete p [] [] (c ∷ after) h = refl
has_run_complete p [] (c ∷ run) after h = ground (arith, starts_run_complete p (c ∷ run) after h)
has_run_complete p (c ∷ before) run after h = ground (arith, has_run_complete p before run after h)

-- The search for at least n units of a class in a row passes exactly when somewhere in the text
-- stand n units of the class in a row.
pub has_run_iff : (p : ℕ → Bool) (n : ℕ) (s : Text) → (has_run p n s ≡ true) ↔ RunIn p n s
has_run_iff p n s = (
  has_run_sound p n s,
  λ (before, run, after, e, a, l). rw (e, ← l) (has_run_complete p before run after a),
)

-- Somewhere in the text one unit, no line terminator, stands four times in a row.
abbrev pub RepeatIn : Text → Type 0
RepeatIn s =
    (before : Text) × (c : ℕ) × (after : Text) × (s ≡ before ++ (c ∷ c ∷ c ∷ c ∷ after))
    × (is_dot c ≡ true)

starts_repeat :
    (c : ℕ) (s : Text)
    → starts_run (λ d. d == c) 3 s ≡ true
    → (after : Text) × (s ≡ c ∷ c ∷ c ∷ after)
unfolding starts_run
starts_repeat c [] h = cc
starts_repeat c (d ∷ []) h = ground arith
starts_repeat c (d ∷ e ∷ []) h = ground arith
starts_repeat c (d ∷ e ∷ f ∷ s) h = (s, ground (arith, h))

starts_repeat_complete : (c : ℕ) (s : Text) → starts_run (λ d. d == c) 3 (c ∷ c ∷ c ∷ s) ≡ true
unfolding starts_run
starts_repeat_complete c s = ground arith

has_repeat_sound : (s : Text) → has_repeat s ≡ true → RepeatIn s
unfolding has_repeat
has_repeat_sound [] h = cc
has_repeat_sound (c ∷ s) h = elim (Bool-cases (is_dot c && starts_run (λ d. d == c) 3 s)) [
  | inl here ↦
      (let (after, e) = starts_repeat c s (ground (arith, here)) in
        ([], c, after, ap (λ t. c ∷ t) e, ground (arith, here)))
  | inr later ↦
      (let (before, d, after, e, dot) = has_repeat_sound s (ground (arith, later, h)) in
        (c ∷ before, d, after, ap (λ t. c ∷ t) e, dot))
]

has_repeat_complete :
    (before : Text) (c : ℕ) (after : Text)
    → is_dot c ≡ true
    → has_repeat (before ++ (c ∷ c ∷ c ∷ c ∷ after)) ≡ true
unfolding has_repeat
has_repeat_complete [] c after h = rw (h, starts_repeat_complete c after) refl
has_repeat_complete (d ∷ before) c after h = ground (arith, has_repeat_complete before c after h)

-- The search for a repeated unit passes exactly when a unit stands four times in a row.
pub has_repeat_iff : (s : Text) → (has_repeat s ≡ true) ↔ RepeatIn s
has_repeat_iff s = (
  has_repeat_sound s,
  λ (before, c, after, e, dot). rw e (has_repeat_complete before c after dot),
)
