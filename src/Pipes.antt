-- ===== src/Pipes.antt =====
-- heimdall2-master/apps/backend/src/pipes: password-complexity.pipe.ts, passwords-match.pipe.ts and
-- password-change.pipe.ts. Each regular expression is written out as the search that it stands
-- for. A text is its list of UTF-16 code units; the distance of two texts is that of js-levenshtein,
-- a parameter. A value that a pipe lets through is returned unchanged, so a pipe gives `ok tt`.
pub mod Runs
pub mod Passwords
use security_scan.Prelude.Outcome.{Outcome, ok, throw, bad_request, ◌>>◌}
use security_scan.Prelude.{
  ℕ, zero, suc, Bool, true, false, ◌&&◌, ◌||◌, not, Option, none, some, List, [], ◌∷◌, ltb, ◌==◌,
  if◌then◌else◌, any, all, filter, length, is_empty, Text, text_eq, is_upper, is_lower, is_digit,
  is_space, is_line_end,
}

-- the fields of the body that the pipes read
pub record PasswordBody : Type 0 where
  pub current_password : Option Text
  pub password : Option Text
  pub password_confirmation : Option Text

-- [^\w\s]
unfoldable pub is_special : ℕ → Bool
unfolding is_space
is_special c = not (is_lower c || (is_upper c || (is_digit c || c == b'_'))) && not (is_space c)

-- .
abbrev pub is_dot : ℕ → Bool
is_dot c = not (is_line_end c)

-- The text begins with `n` units of the class.
unfoldable pub starts_run : (ℕ → Bool) → ℕ → Text → Bool
starts_run p zero s = true
starts_run p (suc n) [] = false
starts_run p (suc n) (c ∷ s) = p c && starts_run p n s

-- `test` of `[p]{n,}`
unfoldable pub has_run : (ℕ → Bool) → ℕ → Text → Bool
unfolding starts_run
has_run p n [] = starts_run p n []
has_run p n (c ∷ s) = starts_run p n (c ∷ s) || has_run p n s

-- `test` of /(.)\1{3,}/
unfoldable pub has_repeat : Text → Bool
unfolding starts_run
has_repeat [] = false
has_repeat (c ∷ s) = (is_dot c && starts_run (λ d. d == c) 3 s) || has_repeat s

-- The tests that pass are as many as there are tests.
unfoldable pub has_classes : Text → Bool
has_classes password =
    let tests =
      has_run is_lower 1 password
      ∷ has_run is_upper 1 password
      ∷ has_run is_digit 1 password
      ∷ has_run is_special 1 password
      ∷ has_run is_dot 15 password
      ∷ [] in
    length (filter (λ t. t) tests) == length tests

-- No test passes.
unfoldable pub no_repeats : Text → Bool
no_repeats password =
    let tests =
      has_repeat password
      ∷ has_run is_lower 4 password
      ∷ has_run is_upper 4 password
      ∷ has_run is_digit 4 password
      ∷ has_run is_special 4 password
      ∷ [] in
    length (filter (λ t. t) tests) == 0

-- a text that may be missing, as a condition
abbrev pub is_truthy : Option Text → Bool
is_truthy none = false
is_truthy (some s) = not (is_empty s)

abbrev pub complex_enough : Option Text → Bool
complex_enough none = false
complex_enough (some s) = has_classes s && no_repeats s

-- PasswordComplexityPipe.transform
unfoldable pub complexity_pipe : PasswordBody → Outcome (Unit {0})
complexity_pipe value =
    if not (is_truthy value.password) && not (is_truthy value.password_confirmation)
    then ok tt
    else if complex_enough value.password
    then ok tt
    else throw bad_request

-- `===` on texts that may be missing
abbrev pub same_text : Option Text → Option Text → Bool
same_text none none = true
same_text none (some t) = false
same_text (some s) none = false
same_text (some s) (some t) = text_eq s t

abbrev pub is_null : Option Text → Bool
is_null none = true
is_null (some s) = false

-- PasswordsMatchPipe.transform
unfoldable pub match_pipe : PasswordBody → Outcome (Unit {0})
match_pipe value =
    if not (is_null value.current_password)
      && (is_null value.password && is_null value.password_confirmation)
    then ok tt
    else if same_text value.password value.password_confirmation
    then ok tt
    else throw bad_request

-- One round of classesChanged: the two texts have the same units of the class, in the same order.
abbrev pub same_matches : (ℕ → Bool) → Text → Text → Bool
same_matches p current future = text_eq (filter p current) (filter p future)

unfoldable pub classes_changed : Text → Text → Bool
classes_changed future current =
    not
      (any (λ p. same_matches p current future) (is_lower ∷ is_upper ∷ is_digit ∷ is_special ∷ []))

module _ (levenshtein : Text → Text → ℕ) where
  abbrev pub changed_enough : Option Text → Option Text → Bool
  changed_enough none current = false
  changed_enough (some future) none = false
  changed_enough (some future) (some current) =
      ltb 8 (levenshtein future current) && classes_changed future current

  -- PasswordChangePipe.transform
  unfoldable pub change_pipe : PasswordBody → Outcome (Unit {0})
  change_pipe value =
      if (not (is_truthy value.password) && not (is_truthy value.password_confirmation))
        || not (is_truthy value.current_password)
      then ok tt
      else if changed_enough value.password value.current_password
      then ok tt
      else throw bad_request

  -- The pipes of PUT users/:id, in their order.
  unfoldable pub update_pipes : PasswordBody → Outcome (Unit {0})
  update_pipes value = do match_pipe value; change_pipe value; complexity_pipe value

-- The pipes of POST users, in their order.
unfoldable pub create_pipes : PasswordBody → Outcome (Unit {0})
create_pipes value = do match_pipe value; complexity_pipe value
