-- ===== src/Libc.antt =====
-- lib/libc/libc.c: the string, memory and number routines.
pub mod Strings
pub mod Memory
pub mod Numbers
pub mod Arithmetic
pub mod Wide
