-- ===== src/Examples.antt =====
-- Concrete instances of OpenSSL's ciphers, small files and keys, on which the definitions run.
mod Toy
mod Blocks
mod KeyFiles
mod Migration
mod Wals
mod Providers
mod Segments
mod WalFiles
mod Restarted
mod Principals
