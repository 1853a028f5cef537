-- ===== src/Tests.antt =====
-- Runs of the modelled code on small inputs.
mod Texts
mod Conflicts
mod ChangeSets
mod Ids
mod Commits
mod Writes
mod Paths
mod InlineWrites
mod Columns
mod Sessions
