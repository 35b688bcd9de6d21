-- ===== src/Tests.antt =====
-- Runs of the model and instances of its theorems at concrete inputs, over whole-number floats.
mod GuardCases
mod DetectorCases
mod ChainCases
mod ShifterCases
mod SuppressorCases
mod ReverbCases
mod PredictorCases
mod CancellerCases
mod PemCases
mod Data
