-- ===== src/Go.antt =====
-- The functions of Go's standard library that the program's logic rests on, and the ones that it
-- takes as they are.
pub mod Strings
pub mod Strconv
pub mod Sort
pub mod Fold
pub mod Library
