-- ===== src/Examples.antt =====
-- Tests of the definitions, and the theorems at inputs that meet their hypotheses.
mod Toys
mod Trees
mod Sessions
mod Codecs
mod Storage
mod Failures
mod Crashes
mod Snapshots
mod Batching
mod Server
mod Answers
mod Executions
mod Archives
mod Enterprise
mod Cli
