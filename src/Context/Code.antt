-- ===== src/Context/Code.antt =====
-- The getters root, is_redundant and full_code of context.ts. They follow extendsFrom on fuel.
use security_scan.Prelude.{
  ℕ, zero, suc, Bool, true, false, ◌&&◌, ◌||◌, not, Option, none, some, [], ◌∷◌, ◌++◌, str_eq,
  String, is_empty, Text, codes, trim,
}
use security_scan.Report.{Nullable, given, null, undefined, printed}
use security_scan.Context.{Extends, ContextualizedControl, control_code}

-- get root
unfoldable pub root :
    Extends ContextualizedControl → ℕ → ContextualizedControl → Option ContextualizedControl
root g zero c = none
root g (suc fuel) c = elim (g.extends_from c.place) [
  | [] ↦ some c
  | base ∷ others ↦ root g fuel base
]

-- What `trim` and `===` read of a code, character by character.
abbrev pub code_of : ContextualizedControl → Text
code_of c = codes (printed (control_code c.data_of))

abbrev pub has_code : Nullable String → Bool
has_code (given s) = not (is_empty (trim (codes s)))
has_code null = false
has_code undefined = false

abbrev pub same_code : Nullable String → Nullable String → Bool
same_code (given s) (given t) = str_eq s t
same_code null null = true
same_code undefined undefined = true
same_code _ _ = false

-- get is_redundant
unfoldable pub is_redundant :
    Extends ContextualizedControl → ContextualizedControl → ContextualizedControl → Bool
unfolding trim
is_redundant g root c =
    not (has_code (control_code c.data_of))
    || (not (is_empty (g.extends_from c.place))
        && same_code (control_code c.data_of) (control_code root.data_of))

abbrev rule : Text
rule = codes "========================================================="

abbrev line_feed : Text
line_feed = 10 ∷ []

-- The name of the profile between two rules, an empty line and the code.
abbrev pub banner : ContextualizedControl → Text
banner c =
    rule
    ++ (line_feed
        ++ (codes "# Profile name: "
            ++ (codes c.sourced_from.data_of.name
                ++ (line_feed ++ (rule ++ (line_feed ++ (line_feed ++ code_of c)))))))

abbrev pub over_code : ContextualizedControl → Bool → Option Text → Option Text
over_code c true rest = rest
over_code c false none = none
over_code c false (some t) = some (trim (banner c ++ (line_feed ++ (line_feed ++ t))))

-- get full_code
unfoldable pub full_code : Extends ContextualizedControl → ℕ → ContextualizedControl → Option Text
unfolding root is_redundant trim
full_code g zero c = none
full_code g (suc fuel) c = elim (g.extends_from c.place) [
  | [] ↦ some (trim (banner c))
  | base ∷ others ↦ elim (root g (suc fuel) c) [
    | none ↦ none
    | some r ↦ (let rest = full_code g fuel base in over_code c (is_redundant g r c) rest)
  ]
]
