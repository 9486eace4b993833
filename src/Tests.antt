-- ===== src/Tests.antt =====
-- Runs of the code at concrete inputs, and instances of the theorems there.
mod Instances
mod NistRuns
mod HdfRuns
mod PipeRuns
mod AuthzRuns
mod UserRuns
mod GroupRuns
mod FilterRuns
mod SelectionRuns
mod EvaluationRows
mod EvaluationRuns
mod AuthnRuns
mod ContextRuns
mod DeltaRuns
mod ServerListRuns
mod HierarchyRuns
mod ConvertRuns
mod SplunkRuns
mod TreemapRuns
mod SessionRuns
