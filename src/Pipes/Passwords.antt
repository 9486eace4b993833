-- ===== src/Pipes/Passwords.antt =====
-- Which bodies the pipes let through: password-complexity, passwords-match and password-change.
use security_scan.Prelude.Outcome.{Outcome, ok, throw, bad_request, ◌>>◌}
use security_scan.Prelude.{
  ℕ, ◌<◌, ◌≡◌, refl, sym, ◌∙◌, ◌↔◌, ◌≢◌, Bool, true, false, ◌&&◌, not, Option, none, some, arith,
  ltb, filter, is_empty, Text, text_eq_iff, is_upper, is_lower, is_digit, if◌then◌else◌,
}
use security_scan.Pipes.{
  PasswordBody, is_special, is_dot, has_run, has_repeat, has_classes, no_repeats, complexity_pipe,
  match_pipe, is_null, change_pipe, update_pipes, create_pipes, same_text, classes_changed,
}
use security_scan.Pipes.Runs.{RunIn, RepeatIn, has_run_iff, has_repeat_iff}

-- A password that the rules accept.
pub record IsComplex (s : Text) : Type 0 where
  pub lower : RunIn is_lower 1 s
  pub upper : RunIn is_upper 1 s
  pub digit : RunIn is_digit 1 s
  pub special : RunIn is_special 1 s
  pub long : RunIn is_dot 15 s
  pub no_repeat : ¬ RepeatIn s
  pub no_lower_run : ¬ RunIn is_lower 4 s
  pub no_upper_run : ¬ RunIn is_upper 4 s
  pub no_digit_run : ¬ RunIn is_digit 4 s
  pub no_special_run : ¬ RunIn is_special 4 s

has_classes_iff :
    (s : Text)
    → (has_classes s ≡ true) ↔ (
        (has_run is_lower 1 s ≡ true)
        × (has_run is_upper 1 s ≡ true)
        × (has_run is_digit 1 s ≡ true)
        × (has_run is_special 1 s ≡ true)
        × (has_run is_dot 15 s ≡ true))
unfolding has_classes
has_classes_iff s = ground arith

no_repeats_iff :
    (s : Text)
    → (no_repeats s ≡ true) ↔ (
        (has_repeat s ≢ true)
        × (has_run is_lower 4 s ≢ true)
        × (has_run is_upper 4 s ≢ true)
        × (has_run is_digit 4 s ≢ true)
        × (has_run is_special 4 s ≢ true))
unfolding no_repeats
no_repeats_iff s = ground arith

IsComplex-of_tests : (s : Text) → (has_classes s && no_repeats s) ≡ true → IsComplex s
IsComplex-of_tests s h =
    let (a, b, c, d, e) = (has_classes_iff s).0 (ground (arith, h)) in
    let (r, l, u, g, x) = (no_repeats_iff s).0 (ground (arith, h)) in
    record {
      lower = (has_run_iff is_lower 1 s).0 a;
      upper = (has_run_iff is_upper 1 s).0 b;
      digit = (has_run_iff is_digit 1 s).0 c;
      special = (has_run_iff is_special 1 s).0 d;
      long = (has_run_iff is_dot 15 s).0 e;
      no_repeat = λ p. r ((has_repeat_iff s).1 p);
      no_lower_run = λ p. l ((has_run_iff is_lower 4 s).1 p);
      no_upper_run = λ p. u ((has_run_iff is_upper 4 s).1 p);
      no_digit_run = λ p. g ((has_run_iff is_digit 4 s).1 p);
      no_special_run = λ p. x ((has_run_iff is_special 4 s).1 p);
    }

and_intro : (a b : Bool) → a ≡ true → b ≡ true → (a && b) ≡ true
and_intro a b h k = ground arith

tests_of_IsComplex : (s : Text) → IsComplex s → (has_classes s && no_repeats s) ≡ true
tests_of_IsComplex s v =
    and_intro (has_classes s) (no_repeats s)
      ((has_classes_iff s).1 (
        (has_run_iff is_lower 1 s).1 v.lower,
        (has_run_iff is_upper 1 s).1 v.upper,
        (has_run_iff is_digit 1 s).1 v.digit,
        (has_run_iff is_special 1 s).1 v.special,
        (has_run_iff is_dot 15 s).1 v.long,
      ))
      ((no_repeats_iff s).1 (
        (λ p. v.no_repeat ((has_repeat_iff s).0 p)),
        (λ p. v.no_lower_run ((has_run_iff is_lower 4 s).0 p)),
        (λ p. v.no_upper_run ((has_run_iff is_upper 4 s).0 p)),
        (λ p. v.no_digit_run ((has_run_iff is_digit 4 s).0 p)),
        (λ p. v.no_special_run ((has_run_iff is_special 4 s).0 p)),
      ))

same_text_iff : (s : Text) (c : Option Text) → (same_text (some s) c ≡ true) ↔ (c ≡ some s)
same_text_iff s none = ground arith
same_text_iff s (some t) = ground (arith, text_eq_iff s t)

ok_iff : (b : Bool) → ((if b then ok tt else throw bad_request) ≡ ok (tt {0})) ↔ (b ≡ true)
ok_iff true = ((λ h. refl), (λ h. refl))
ok_iff false = ((λ h. cc), (λ h. cc))

-- Two steps both let a value through exactly when each does.
both_ok : (m n : Outcome (Unit {0})) → ((m >> n) ≡ ok tt) ↔ ((m ≡ ok tt) × (n ≡ ok tt))
both_ok (ok tt) n = ((λ h. (refl, h)), (λ h. h.1))
both_ok (throw e) n = ((λ h. cc), (λ h. cc (h.0)))

abbrev verdict : Bool → Outcome (Unit {0})
verdict b = if b then ok tt else throw bad_request

skip_and_false : (b : Bool) (x y : Outcome (Unit {0})) → (if b && false then x else y) ≡ y
skip_and_false true x y = refl
skip_and_false false x y = refl

module _ (value : PasswordBody) (s : Text) (p : value.password ≡ some s)
    (filled : is_empty s ≡ false) where
  match_pipe_test : match_pipe value ≡ verdict (same_text (some s) value.password_confirmation)
  unfolding match_pipe
  match_pipe_test = rw p (skip_and_false (not (is_null value.current_password)) _ _)

  match_pipe_iff : (match_pipe value ≡ ok tt) ↔ (value.password_confirmation ≡ some s)
  match_pipe_iff = (
    (λ h. (same_text_iff s _).0 ((ok_iff _).0 (sym match_pipe_test ∙ h))),
    (λ h. match_pipe_test ∙ (ok_iff _).1 ((same_text_iff s _).1 h)),
  )

  complexity_pipe_test : complexity_pipe value ≡ verdict (has_classes s && no_repeats s)
  unfolding complexity_pipe
  complexity_pipe_test = rw (p, filled) refl

  complexity_pipe_iff : (complexity_pipe value ≡ ok tt) ↔ IsComplex s
  complexity_pipe_iff = (
    (λ h. IsComplex-of_tests s ((ok_iff _).0 (sym complexity_pipe_test ∙ h))),
    (λ h. complexity_pipe_test ∙ (ok_iff _).1 (tests_of_IsComplex s h)),
  )

-- A body of POST users with a password that is not empty passes the pipes exactly when the
-- confirmation is the same text and the password has a lower-case letter, a capital, a digit, a
-- special unit and fifteen units in one line, no unit four times in a row, and no four lower-case
-- letters, capitals, digits or special units in a row.
pub create_pipes_iff :
    (value : PasswordBody) (s : Text)
    → value.password ≡ some s
    → is_empty s ≡ false
    → (create_pipes value ≡ ok tt) ↔ ((value.password_confirmation ≡ some s) × IsComplex s)
unfolding create_pipes
create_pipes_iff value s p filled =
    let (to, from) = both_ok (match_pipe value) (complexity_pipe value) in
    let (same, same') = match_pipe_iff value s p filled in
    let (complex, complex') = complexity_pipe_iff value s p filled in
    ((λ h. (same (to h).0, complex (to h).1)), (λ (e, v). from (same' e, complex' v)))

-- The two passwords differ in the units of every class.
abbrev pub DiffersIn : (ℕ → Bool) → Text → Text → Type 0
DiffersIn p s t = filter p s ≢ filter p t

classes_changed_iff :
    (future current : Text)
    → (classes_changed future current ≡ true) ↔ (
        DiffersIn is_lower current future
        × DiffersIn is_upper current future
        × DiffersIn is_digit current future
        × DiffersIn is_special current future)
unfolding classes_changed
classes_changed_iff future current = ground (
  arith,
  text_eq_iff (filter is_lower current) (filter is_lower future),
  text_eq_iff (filter is_upper current) (filter is_upper future),
  text_eq_iff (filter is_digit current) (filter is_digit future),
  text_eq_iff (filter is_special current) (filter is_special future),
)

module _ (levenshtein : Text → Text → ℕ) where
  change_pipe_test :
      (value : PasswordBody) (future current : Text)
      → value.password ≡ some future
      → value.current_password ≡ some current
      → is_empty future ≡ false
      → is_empty current ≡ false
      → change_pipe levenshtein value
        ≡ verdict (ltb 8 (levenshtein future current) && classes_changed future current)
  unfolding change_pipe
  change_pipe_test value future current p q filled held = rw (p, q, filled, held) refl

  far_iff : (n : ℕ) (b : Bool) → ((ltb 8 n && b) ≡ true) ↔ ((8 < n) × (b ≡ true))
  far_iff n b = ground arith

  -- A body of PUT users/:id with both passwords passes the pipes exactly when the confirmation is
  -- the same text, the new password is more than eight edits away from the current one and differs
  -- from it in the units of each of the four classes, and it is complex.
  pub update_pipes_iff :
      (value : PasswordBody) (future current : Text)
      → value.password ≡ some future
      → value.current_password ≡ some current
      → is_empty future ≡ false
      → is_empty current ≡ false
      → (update_pipes levenshtein value ≡ ok tt) ↔ (
          (value.password_confirmation ≡ some future)
          × (8 < levenshtein future current)
          × (DiffersIn is_lower current future
              × DiffersIn is_upper current future
              × DiffersIn is_digit current future
              × DiffersIn is_special current future)
          × IsComplex future)
  unfolding update_pipes
  update_pipes_iff value future current p q filled held =
      let (to, from) =
        both_ok (match_pipe value) (change_pipe levenshtein value >> complexity_pipe value) in
      let (to', from') = both_ok (change_pipe levenshtein value) (complexity_pipe value) in
      let (same, same') = match_pipe_iff value future p filled in
      let (complex, complex') = complexity_pipe_iff value future p filled in
      let test = change_pipe_test value future current p q filled held in
      let (far, far') = far_iff (levenshtein future current) (classes_changed future current) in
      let (differs, differs') = classes_changed_iff future current in
      (
        (λ h.
            (let (m, k) = to h in
              let (c, x) = to' k in
              let (f, d) = far ((ok_iff _).0 (sym test ∙ c)) in (same m, f, differs d, complex x))),
        (λ (e, f, d, v).
            from (same' e, from' (test ∙ (ok_iff _).1 (far' (f, differs' d)), complex' v))),
      )
