-- ===== src/Fake.antt =====
-- adcorefake/, the in-memory directory: its store, its operations, and what they keep.
pub mod Objects
pub mod Actions
pub mod Lookup
pub mod Moving
pub mod Classes
pub mod Units
pub mod Groups
pub mod Users
pub mod Computers
pub mod Accounts
pub mod Members
pub mod Numbering
pub mod Invariant
pub mod Outcomes
pub mod Relocating
pub mod Carrying
pub mod Subtree
pub mod Renaming
pub mod Creating
pub mod Updating
pub mod Directory
pub mod Backend
pub mod Naming
pub mod Conforming
pub mod Reachable
pub mod View
pub mod Contract
pub mod Deleting
pub mod Losing
pub mod Walking
pub mod Nesting
pub mod Membership
pub mod Searching
pub mod Passwords
pub mod Schemas
pub mod Entries
pub mod Granting
