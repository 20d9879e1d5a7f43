-- ===== src/Tests.antt =====
-- Test runs of the definitions and the theorems at concrete inputs.
pub mod Codec
pub mod Lists
pub mod Events
pub mod Tables
pub mod Parsing
pub mod Resources
pub mod Xml
pub mod Http
