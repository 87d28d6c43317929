-- ===== src/Yapper/ModParser.antt =====
-- yapper/src/mod_parser.rs: what is read from the metadata of a mod's jar file.
pub mod Toml
pub mod Range
pub mod Parse
pub mod RoundTrip
pub mod Dependencies
