-- ===== src/Tests.antt =====
-- Runs of the modelled code on concrete input, and each theorem applied where its conditions hold.
mod Names
mod Filters
mod Objects
mod Entries
mod Mutexes
mod Directory
mod Moves
mod Losses
mod Groups
mod Catalogs
mod Conformance
