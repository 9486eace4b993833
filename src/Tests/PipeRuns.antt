-- ===== src/Tests/PipeRuns.antt =====
-- Runs of the pipes of passwords at concrete bodies.
use security_scan.Prelude.Outcome.{ok, throw, bad_request}
use security_scan.Prelude.{
  if◌then◌else◌, ℕ, ◌≡◌, ◌<◌, refl, ◌↔◌, some, Text, codes, is_lower, is_upper, is_digit, is_space,
  text_eq,
}
use security_scan.Pipes.{
  PasswordBody, is_special, starts_run, has_run, has_repeat, has_classes, no_repeats,
  complexity_pipe, match_pipe, create_pipes, update_pipes,
}
use security_scan.Pipes.Passwords.{IsComplex, DiffersIn, create_pipes_iff, update_pipes_iff}

abbrev new_password : Text
new_password = codes "Ab1!Cd2@Ef3#Gh4"

abbrev old_password : Text
old_password = codes "Xy9%Zw8^Vu7&Ts6"

abbrev body : PasswordBody
body = record {
  current_password = some old_password;
  password = some new_password;
  password_confirmation = some new_password;
}

-- A distance that only the lengths decide.
abbrev far_apart : Text → Text → ℕ
far_apart s t = if text_eq s t then 0 else 15

create_run : create_pipes body ≡ ok tt
unfolding create_pipes match_pipe complexity_pipe has_classes no_repeats has_run has_repeat
    starts_run is_special is_space text_eq
create_run = refl

-- Four lower-case letters in a row are refused.
four_run :
    complexity_pipe (record body { password = some (codes "Abcde1!Cd2@Ef3#Gh4") })
    ≡ throw bad_request
unfolding complexity_pipe has_classes no_repeats has_run has_repeat starts_run is_special is_space
four_run = refl

create_pipes_iff_example :
    (create_pipes body ≡ ok tt)
    ↔ ((body.password_confirmation ≡ some new_password) × IsComplex new_password)
create_pipes_iff_example = create_pipes_iff body new_password refl refl

update_pipes_iff_example : (update_pipes far_apart body ≡ ok tt) ↔ (
    (body.password_confirmation ≡ some new_password)
    × (8 < far_apart new_password old_password)
    × (DiffersIn is_lower old_password new_password
        × DiffersIn is_upper old_password new_password
        × DiffersIn is_digit old_password new_password
        × DiffersIn is_special old_password new_password)
    × IsComplex new_password)
update_pipes_iff_example =
    update_pipes_iff far_apart body new_password old_password refl refl refl refl
