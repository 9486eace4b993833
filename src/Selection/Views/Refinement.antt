-- ===== src/Selection/Views/Refinement.antt =====
-- The actions of the interface on the stores of data_store.ts and data_filters.ts, as steps on the view.
use security_scan.Selection.{Store}
use security_scan.Selection.Views.{evaluations, profiles, ViewStep}

-- The two views after a step, with what it made of the lists of one kind.
abbrev To : Store → Store → Type 0
To s t = ViewStep (evaluations s) (profiles s) (evaluations t) (profiles t)
