-- ===== src/Api/Sessions.antt =====
-- internal/httpapi/sessions.go and router.go: the erasure of a session, and readiness. Comparing keys
-- (crypto/subtle) is a parameter.
use palena_litellm_pseudonym.Base.{
  ℕ, ◌≡◌, inl, inr, ap, subst, Bool, true, false, not, List, [], ◌∷◌, Option, none, some, ◌==◌,
  if◌then◌else◌, Bool-cases, length,
}
use palena_litellm_pseudonym.GoLib.Strings.{Str, codes, is_empty}
use palena_litellm_pseudonym.GoLib.Dict.{put}
use palena_litellm_pseudonym.Errs.{Result, ok, err, Error, Task}
use palena_litellm_pseudonym.Api.{ErrorResponse, write_error}
use palena_litellm_pseudonym.Mapping.{RedisStore, delete}
use palena_litellm_pseudonym.Mapping.Interface.{Redis, Json}
use palena_litellm_pseudonym.Mapping.Laws.{mapping_of, delete_lem}

unfoldable pub api_key_valid : (List ℕ → List ℕ → Bool) → List ℕ → List ℕ → Bool
api_key_valid compare_bytes got want =
    if is_empty want
    then true
    else if not (length got == length want)
    then false
    else compare_bytes got want

-- 200 with whether a mapping existed, or an error.
pub data DeleteAnswer : Type 0 where
  deleted : Bool → DeleteAnswer
  not_deleted : ErrorResponse → DeleteAnswer

unfoldable pub delete_answer : {S : Type 0} → S × Result Bool → S × DeleteAnswer
delete_answer (s, ok existed) = (s, deleted existed)
delete_answer (s, err e) = (s, not_deleted (write_error 502 (codes "mapping_store_unavailable")))

-- SessionsHandler.Delete for the value of x-api-key and the session id of the path.
unfoldable pub delete_session :
    {S : Type 0}
    → (List ℕ → List ℕ → Bool)
    → (Str → Task S Bool)
    → List ℕ
    → List ℕ
    → Str
    → S
    → S × DeleteAnswer
unfolding api_key_valid delete_answer
delete_session compare_bytes store_delete api_key key session_id s =
    if not (api_key_valid compare_bytes key api_key)
    then (s, not_deleted (write_error 401 (codes "unauthorized")))
    else if is_empty session_id
    then (s, not_deleted (write_error 400 (codes "missing_session_id")))
    else delete_answer (store_delete session_id s)

-- The dependencies of /readyz that are configured, with the error of their ping.
pub record Readiness : Type 0 where
  pub ready : Bool
  pub deps : List (Str × Str)

unfoldable pub check_pings : List (Str × Option Error) → Readiness → Readiness
check_pings [] out = out
check_pings ((name, none) ∷ rest) out =
    check_pings rest (record { ready = out.ready; deps = put name (codes "ok") out.deps })
check_pings ((name, some e) ∷ rest) out =
    check_pings rest (record { ready = false; deps = put name (codes "unreachable") out.deps })

-- /readyz: the status with the body.
unfoldable pub readyz : List (Str × Option Error) → ℕ × Readiness
unfolding check_pings
readyz pings =
    let out = check_pings pings (record { ready = true; deps = [] }) in
    (if out.ready then 200 else 503, out)

-- Once an erasure is answered with 200, the session has no mapping in the store any more.
pub delete_session-erases :
    (r : Redis) (j : Json) (st : RedisStore) (compare_bytes : List ℕ → List ℕ → Bool)
    (api_key key : List ℕ) (session_id : Str) (s s' : r.Server) (existed : Bool)
    → delete_session compare_bytes (delete r j st) api_key key session_id s ≡ (s', deleted existed)
    → mapping_of r j st session_id s' ≡ []
unfolding delete_session delete_answer delete
delete_session-erases r j st compare_bytes api_key key session_id s s' existed e =
    elim (Bool-cases (api_key_valid compare_bytes key api_key)) [
      | inr wrong ↦
          absurd (let h = rw (wrong, delete_session) at e in let k = ap (λ x. x.1) h in cc)
      | inl right ↦ elim (Bool-cases (is_empty session_id)) [
        | inl void ↦
            absurd (let h = rw (right, void, delete_session) at e in let k = ap (λ x. x.1) h in cc)
        | inr named ↦ elim (Bool-cases (r.reachable s)) [
          | inr down ↦ absurd (
              let h = rw (right, named, down, delete_session) at e in let k = ap (λ x. x.1) h in cc)
          | inl up ↦
              let h = rw (right, named, up, delete_session) at e in
              let gone = rw up at (delete_lem r j st session_id s up).0 in
              subst (λ x. mapping_of r j st session_id x ≡ []) (ap (λ x. x.0) h) gone
        ]
      ]
    ]
