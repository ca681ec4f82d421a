-- ===== src/KeyMap.antt =====
-- src/access/open_pg_tde_tdemap.c: the key file of each database, "<oid>_keys", which holds the
-- signed description of the principal key and the encrypted key of each relation.
-- Files are read and written through exclusive or shared locks, so each function here is one step.
-- Failing system calls (open, pwrite, fsync) are not modelled; a missing file, an empty one and a
-- torn header are. A file holds whole entries.
pub mod Layout
pub mod Entry
pub mod File
pub mod Save
pub mod Lookup
pub mod Rotate
pub mod Slots
pub mod Found
pub mod Stored
pub mod Saved
pub mod Existing
pub mod Created
pub mod Freed
pub mod Resealed
pub mod RotateLoop
pub mod Rotated
pub mod Keeps
pub mod Old
pub mod MigrateSafe
pub mod OldKeys
pub mod Migrated
