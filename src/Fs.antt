-- ===== src/Fs.antt =====
-- The package fs: paths, and the embedded standard library.
pub mod Path
pub mod Clean
pub mod Inside
pub mod Stdlib
pub mod Host
pub mod Below
