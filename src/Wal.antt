-- ===== src/Wal.antt =====
-- src/include/access/open_pg_tde_xlog_keys.h and src/access/open_pg_tde_xlog_keys.c: the ranges of
-- the WAL and their keys, in the WAL key file and in the cache of a process, and
-- CalcXLogPageIVPrefix of src/access/open_pg_tde_xlog_smgr.c.
-- The WAL key file is taken as opened: its entries are the state. The context that a cached key
-- carries for OpenSSL is not part of the cache here.
pub mod Range
pub mod Ranges
pub mod Entry
pub mod Cached
pub mod Created
pub mod Location
pub mod Prefix
pub mod Crypt
pub mod Segments
pub mod File
