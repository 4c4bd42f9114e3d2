-- ===== src/Scenarios.antt =====
-- Runs of the definitions on concrete inputs, each of which applies one of the theorems.
mod Interviews
mod Plans
mod Proctoring
mod Scores
mod Links
mod Resumes
mod Runs
mod Calls
mod People
mod Generation
mod Stops
mod Stills
mod Deliveries
