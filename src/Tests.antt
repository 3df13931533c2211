-- ===== src/Tests.antt =====
-- The theorems at concrete inputs, and tests of the definitions.
mod Sample
mod Terms
mod ResultsPage
mod BuiltPage
mod DirectoryTree
mod DocsMenu
mod Folding
mod BallCommands
mod BallList
mod TaskQueue
mod ServerEvents
mod WorkerRounds
mod ServerRuns
mod SearchPanel
mod SearchData
