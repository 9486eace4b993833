-- ===== src/Delta.antt =====
-- heimdall2-master/apps/frontend/src/utilities/delta_util.ts: the differences between runs of a control
-- and the pairing of the controls of several files. An object that is used as a map is its list of
-- entries. A control id that every object has as a property (constructor) is not told apart
-- from others.
pub mod Changes
pub mod Pairings
use security_scan.Prelude.{
  ℕ, suc, ◌+◌, String, Bool, true, false, ◌&&◌, not, Option, none, some, List, [], ◌∷◌, map,
  put_key, get_key, str_eq, any, filter, is_empty, if◌then◌else◌, Text, text_eq, codes, join,
}
use security_scan.Report.{Severity, no_severity, low, medium, high, critical}
use security_scan.Context.{ContextualizedControl, ContextualizedEvaluation, control_id}

abbrev pub not_selected : Text
not_selected = codes "not selected"

pub record ControlChange : Type 0 where
  pub name : Text
  pub values : List Text

-- The first loop: the first selected value, with those behind it.
unfoldable pub first_selected : List Text → Option (Text × List Text)
first_selected [] = none
first_selected (v ∷ vs) =
    let rest = first_selected vs in if not (text_eq v not_selected) then some (v, vs) else rest

-- get valid, with the second loop as a search
unfoldable pub valid : ControlChange → Bool
unfolding first_selected
valid c = elim (first_selected c.values) [
  | none ↦ false
  | some (v, rest) ↦ any (λ w. not (text_eq w v) && not (text_eq w not_selected)) rest
]

pub record ControlChangeGroup : Type 0 where
  pub name : Text
  pub changes : List ControlChange

-- get any
abbrev pub any_change : ControlChangeGroup → Bool
any_change g = not (is_empty g.changes)

unfoldable pub clean : ControlChangeGroup → ControlChangeGroup
unfolding valid
clean g = record g { changes = filter valid g.changes }

pub record ControlDelta : Type 0 where
  pub controls : List ContextualizedControl
  pub controls_and_null : List (Option ContextualizedControl)
  pub num_null : ℕ

abbrev non_null : List (Option ContextualizedControl) → List ContextualizedControl
non_null [] = []
non_null (none ∷ os) = non_null os
non_null (some c ∷ os) = c ∷ non_null os

abbrev count_null : List (Option ContextualizedControl) → ℕ
count_null [] = 0
count_null (none ∷ os) = suc (count_null os)
count_null (some c ∷ os) = count_null os

-- the constructor of ControlDelta
unfoldable pub control_delta : List (Option ContextualizedControl) → ControlDelta
control_delta controls = record {
  controls = non_null controls;
  controls_and_null = controls;
  num_null = count_null controls;
}

abbrev pub severity_text : Severity → Text
severity_text no_severity = codes "none"
severity_text low = codes "low"
severity_text medium = codes "medium"
severity_text high = codes "high"
severity_text critical = codes "critical"

abbrev pub or_not_selected : (ContextualizedControl → Text) → Option ContextualizedControl → Text
or_not_selected f none = not_selected
or_not_selected f (some c) = f c

-- get headerChanges
unfoldable pub header_changes : ControlDelta → ControlChangeGroup
unfolding clean
header_changes d = clean (record {
  name = codes "Control Details";
  changes =
      record {
        name = codes "ID";
        values = map (or_not_selected (λ c. codes (control_id c.data_of))) d.controls_and_null;
      }
      ∷ record {
        name = codes "Severity";
        values = map (or_not_selected (λ c. severity_text c.hdf.severity)) d.controls_and_null;
      }
      ∷ record {
        name = codes "NIST Tags";
        values =
            map (or_not_selected (λ c. join (codes ", ") c.hdf.raw_nist_tags)) d.controls_and_null;
      }
      ∷ [];
})

-- The time of a report: of the first result of the first control with results; a control whose
-- results are undefined throws.
pub data StartTime : Type 0 where
  throws no_time : StartTime
  starts : String → StartTime

unfoldable pub eval_start_time : List ContextualizedControl → StartTime
eval_start_time [] = no_time
eval_start_time (c ∷ cs) =
    let rest = eval_start_time cs in
    elim c.hdf.segments [
      | none ↦ throws
      | some l ↦ elim l [ [] ↦ rest | s ∷ r ↦ starts s.start_time ]
    ]

-- A report with the identifier of the file it is from.
pub record SourcedEvaluation : Type 0 where
  pub unique_id : String
  pub evaluation : ContextualizedEvaluation

pub record ResultControls : Type 0 where
  pub unique_id : String
  pub controls : List ContextualizedControl

unfoldable pub extract_top_level_controls : SourcedEvaluation → ResultControls
extract_top_level_controls exec = record {
  unique_id = exec.unique_id;
  controls =
      filter (λ c. is_empty (exec.evaluation.control_links.extended_by c.place))
        exec.evaluation.controls;
}

abbrev pub ControlSeries : Type 0
ControlSeries = List (String × ContextualizedControl)

abbrev pub ControlSeriesLookup : Type 0
ControlSeriesLookup = List (String × ControlSeries)

abbrev pub or_empty : Option ControlSeries → ControlSeries
or_empty none = []
or_empty (some m) = m

-- The body of the inner loop: the group of the id is made, and the control put in it.
unfoldable pub group_control :
    String → ContextualizedControl → ControlSeriesLookup → ControlSeriesLookup
unfolding put_key get_key
group_control unique_id c acc =
    let id = control_id c.data_of in
    put_key id (put_key unique_id c (or_empty (get_key id acc))) acc

unfoldable pub group_controls :
    String → List ContextualizedControl → ControlSeriesLookup → ControlSeriesLookup
unfolding group_control
group_controls unique_id [] acc = acc
group_controls unique_id (c ∷ cs) acc = group_controls unique_id cs (group_control unique_id c acc)

unfoldable pub match_controls : List ResultControls → ControlSeriesLookup → ControlSeriesLookup
unfolding group_controls
match_controls [] acc = acc
match_controls (r ∷ rs) acc = match_controls rs (group_controls r.unique_id r.controls acc)

-- the constructor of ComparisonContext
unfoldable pub pairings : List SourcedEvaluation → ControlSeriesLookup
unfolding extract_top_level_controls match_controls
pairings executions = match_controls (map extract_top_level_controls executions) []
