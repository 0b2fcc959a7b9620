-- ===== src/Tests.antt =====
-- Runs of the model and the theorems at concrete inputs, over small services of which the laws hold.
pub mod Fakes
mod ThresholdExamples
mod IngestExamples
mod ConfigExamples
mod LoadtestExamples
mod ReportExamples
mod EfficiencyExamples
mod GithubExamples
mod MigrateExamples
mod UsageExamples
mod EngineerExamples
mod DetectorExamples
mod RollupExamples
mod HttpExamples
mod CollectExamples
mod BaselineExamples
