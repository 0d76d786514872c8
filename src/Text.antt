-- ===== src/Text.antt =====
-- Package internal/text: detection, assignment of pseudonyms and rewriting of texts.
pub mod Numbering
pub mod Pools
pub mod Strategy
pub mod Token
pub mod Components
pub mod Filters
pub mod Assign
pub mod Races
pub mod Replacer
pub mod Holdback
pub mod Handler
pub mod Units
pub mod NerCache
pub mod Denylist
pub mod Detector
