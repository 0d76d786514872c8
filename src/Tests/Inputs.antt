-- ===== src/Tests/Inputs.antt =====
-- Session ids and the windows of a line at concrete inputs.
use palena_litellm_pseudonym.Base.{
  ℕ, zero, suc, ◌+◌, ◌%◌, ◌≤◌, ◌<◌, ◌≡◌, refl, ap, true, List, [], ◌∷◌, ◌++◌, map, none, arith,
  length, In, All,
}
use palena_litellm_pseudonym.GoLib.Strings.{Str, codes, byte_len, text_eq}
use palena_litellm_pseudonym.GoLib.Dict.{get}
use palena_litellm_pseudonym.GoLib.Unicode.{trim_left, trim_right, trim}
use palena_litellm_pseudonym.Session.{
  text, object, source_trace_id, Input, Hash, is_printable, sanitize, message_id, newest_id,
  default_metadata_key, first_source, candidates, derive,
}
use palena_litellm_pseudonym.Session.Printable.{derive-printable}
use palena_litellm_pseudonym.Text.Units.{
  TextUnit, sentence_cut, space_cut, cut_at, word_start, window_end, next_start, windows, piece_at,
  fitting_overlap, window_line,
}
use palena_litellm_pseudonym.Text.Units.Windows.{window_line-covers}
use palena_litellm_pseudonym.Tests.Samples.{ascii}

pub copies : ℕ → ℕ → List ℕ
copies zero b = []
copies (suc n) b = b ∷ copies n b

pub length-copies : (n b : ℕ) → length (copies n b) ≡ n
unfolding copies
length-copies zero b = refl
length-copies (suc n) b = ap suc (length-copies n b)

pub All-copies : (n b : ℕ) → b < 256 → All (λ c. c < 256) (copies n b)
unfolding copies
All-copies zero b h = tt
All-copies (suc n) b h = (h, All-copies n b h)

-- The digest is the length of the text, thirty-two times.
abbrev pub length_hash : Hash
length_hash = record {
  sum = λ s. copies 32 (length s % 256);
  length-sum = λ s. length-copies 32 (length s % 256);
  sum-bytes = λ s. All-copies 32 (length s % 256) (omega arith);
}

abbrev traced : Input
traced = record {
  structured_messages =
      ((codes "metadata", object ((codes "session_id", text (codes " ")) ∷ [])) ∷ []) ∷ [];
  end_user_id = [];
  trace_id = codes " t1 ";
  call_id = codes "c1";
  metadata_key = [];
}

derive-run : derive ascii length_hash none traced ≡ (codes "t1", source_trace_id)
unfolding derive candidates newest_id message_id get text_eq default_metadata_key trim trim_left
    trim_right first_source sanitize is_printable
derive-run = refl

derive-printable_example : is_printable (derive ascii length_hash none traced).0 ≡ true
derive-printable_example = derive-printable ascii length_hash none traced tt

-- Windows of eight characters: the first is cut behind the sentence.
abbrev line : Str
line = codes "Hi Max. So it is."

window_line-run :
    map (λ w. w.text) (window_line ascii line 8 2)
    ≡ codes "Hi Max. " ∷ codes "So it is" ∷ codes "is." ∷ []
unfolding window_line fitting_overlap windows window_end cut_at sentence_cut space_cut next_start
    word_start piece_at
window_line-run = refl

window_line-covers_example :
    (w : TextUnit) × (before : Str) × (after : Str) × In w (window_line ascii line 8 2)
    × (line ≡ before ++ (w.text ++ after))
    × (w.offset ≡ byte_len before)
    × (length before ≤ 8)
    × (8 < length before + length w.text)
window_line-covers_example = window_line-covers ascii line 8 2 8 (omega arith)
