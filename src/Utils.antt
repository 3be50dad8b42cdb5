-- ===== src/Utils.antt =====
-- utils.c: the log's levels and lines, and the replacement of a text. Logging writes texts to places outside.
pub mod Log
pub mod Lines
pub mod Replace
pub mod Replaced
