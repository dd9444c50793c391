-- ===== src/Capl.antt =====
-- subProj 4 CAPL Converter/capl_parser.py: from a CAPL program to a python-can script.
pub mod Patterns
pub mod Blocks
pub mod Comments
pub mod Translate
pub mod Forms
pub mod Matches
pub mod Names
pub mod Statements
pub mod Starts
pub mod Refusal
pub mod Scans
pub mod Generate
mod Tests
