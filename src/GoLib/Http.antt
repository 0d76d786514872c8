-- ===== src/GoLib/Http.antt =====
-- What the clients see of net/http: no answer, or a status and the bytes of the body, none if the
-- body cannot be read.
use palena_litellm_pseudonym.Base.{ℕ, List, Option}
use palena_litellm_pseudonym.Errs.{SendError}

pub data Reply : Type 0 where
  lost : SendError → Reply
  replied : ℕ → Option (List ℕ) → Reply
