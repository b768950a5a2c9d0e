-- ===== src/Tests.antt =====
-- Tests of the definitions, and the theorems at concrete inputs.
mod Tables
mod Sheets
mod Files
mod Programs
mod Sorting
mod Types
mod Transforms
mod Books
mod Interpreter
mod Texts
