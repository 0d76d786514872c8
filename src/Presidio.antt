-- ===== src/Presidio.antt =====
-- internal/presidio/analyzer.go: the type of a detection.
pub mod ImageRedactor
pub mod Analyzer
pub mod Placed
use palena_litellm_pseudonym.Base.{ℕ}
use palena_litellm_pseudonym.GoLib.Strings.{Str}

-- `start` and `end` are offsets, in characters on the wire and in bytes afterwards. An empty text
-- is one that the server left out. A score is a number in fixed-point units.
pub record Detection : Type 0 where
  pub entity_type : Str
  pub start : ℕ
  pub end : ℕ
  pub score : ℕ
  pub text : Str
