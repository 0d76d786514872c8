-- ===== src/Ner.antt =====
-- internal/ner/client.go: the client of the NER service. The server is the parameter `post`, which gets
-- the texts, the labels and the threshold; decoding the JSON of its answers is the parameter `decode`.
pub mod Batches
use palena_litellm_pseudonym.Base.{
  ℕ, zero, suc, ◌+◌, ◌-◌, ◌*◌, ◌/◌, ◌%◌, ◌^◌, ◌≤◌, ◌<◌, ◌≡◌, ◌≢◌, ◌↔◌, ◌⊎◌, inl, inr, refl, sym, ap,
  subst, ◌∙◌, Bool, true, false, ◌&&◌, ◌||◌, not, List, [], ◌∷◌, ◌++◌, map, append_assoc,
  append-nil, Option, none, some, arith, ltb, leb, ◌==◌, if◌then◌else◌, Bool-cases, Option-cases,
  &&-eq-true, ||-eq-true, ||-eq-false, bool_ext, ==_iff, ==_refl, leb→le, ltb→lt, lt→ltb, length,
  take, drop, get_elem?, all, any, keep, length-append, take-append-drop, length-take, length-drop,
  take_all, take-append, drop-append, length-keep-le, length-map, In, Distinct, All, In-append_left,
  In-append_right, All-In, pigeonhole, In-map,
}
use palena_litellm_pseudonym.GoLib.Strings.{
  Str, codes, raw_byte, replacement_char, width, byte_len, is_empty, text_eq, text_eq_iff,
  text_eq_refl, text_eq-false, starts_with, contains, elem, elem_iff, infixes, In-infixes,
  width_pos, byte_len-append,
}
use palena_litellm_pseudonym.Errs.{
  Error, Result, ok, err, Task, ◌>>=◌, return, ner_unavailable, ner_malformed, send_failure,
}
use palena_litellm_pseudonym.GoLib.Http.{Reply, lost, replied}
use palena_litellm_pseudonym.GoLib.Int.{ℤ, pos, negsuc}

-- Offsets in characters.
pub record Span : Type 0 where
  pub label : Str
  pub start : ℤ
  pub end : ℤ
  pub score : ℕ

pub record Config : Type 0 where
  pub batch_size : ℤ

-- New: the batch size.
unfoldable pub new_batch_size : Config → ℕ
new_batch_size cfg = elim cfg.batch_size [ pos n ↦ if n == 0 then 16 else n | negsuc n ↦ 16 ]

unfoldable pub detect_reply :
    (List ℕ → Option (List (List Span))) → ℕ → Reply → Result (List (List Span))
detect_reply decode asked (lost e) = err (send_failure e ner_unavailable)
detect_reply decode asked (replied status body) =
    if ltb status 200 || leb 300 status then err ner_unavailable else elim body [
      | none ↦ err ner_malformed
      | some bytes ↦ elim (decode bytes) [
        | none ↦ err ner_malformed
        | some results ↦ if length results == asked then ok results else err ner_malformed
      ]
    ]

-- Ping: the error, if there is one.
unfoldable pub ping_reply : Reply → Option Error
ping_reply (lost e) = some (send_failure e ner_unavailable)
ping_reply (replied status body) = if status == 200 then none else some ner_unavailable

module _ {S : Type 0} (decode : List ℕ → Option (List (List Span)))
    (post : List Str → List Str → ℕ → S → S × Reply) where
  unfoldable pub detect_batch : List Str → List Str → ℕ → Task S (List (List Span))
  unfolding detect_reply
  detect_batch texts labels threshold s =
      let (s', reply) = post texts labels threshold s in
      (s', detect_reply decode (length texts) reply)

  -- The loop of Detect. The fuel is the number of texts: each round takes one or more.
  unfoldable pub detect_batches : ℕ → ℕ → List Str → List Str → ℕ → Task S (List (List Span))
  detect_batches batch_size zero texts labels threshold = return []
  detect_batches batch_size (suc fuel) [] labels threshold = return []
  detect_batches batch_size (suc fuel) (t ∷ texts) labels threshold =
      detect_batch (take batch_size (t ∷ texts)) labels threshold >>= λ batch.
      detect_batches batch_size fuel (drop batch_size (t ∷ texts)) labels threshold >>= λ later.
      return (batch ++ later)

  unfoldable pub detect : Config → List Str → List Str → ℕ → Task S (List (List Span))
  unfolding new_batch_size detect_batches
  detect cfg texts labels threshold =
      detect_batches (new_batch_size cfg) (length texts) texts labels threshold
