-- ===== src/Parsebat.antt =====
-- The system call of kernel/parsebat.c, which takes the MAC addresses from the output of `batctl n`.
pub mod Reader
pub mod Parse
pub mod Flat
