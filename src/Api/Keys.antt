-- ===== src/Api/Keys.antt =====
-- internal/httpapi: the shared secret (checkAPIKey, apiKeyValid, checkAPIKeyWaeg). Header values and the
-- key are bytes here.
use palena_litellm_pseudonym.Base.{
  ℕ, ◌≡◌, ◌↔◌, ◌⊎◌, inl, inr, refl, ap, ◌∙◌, Bool, true, false, not, List, [], ◌∷◌, none, some,
  arith, ◌==◌, if◌then◌else◌, Bool-cases, Option-cases, ==_iff, ==_refl, length,
}
use palena_litellm_pseudonym.GoLib.Strings.{codes, is_empty}
use palena_litellm_pseudonym.GoLib.Bits.{bit_or-zero, bit_xor-zero, bit_xor_self}
use palena_litellm_pseudonym.GoLib.Cuts.{after_prefix}
use Prim.Native.Nat.{bit_or, bit_xor}

-- diff |= got[i] ^ want[i]
unfoldable pub difference : ℕ → List ℕ → List ℕ → ℕ
difference diff [] want = diff
difference diff (g ∷ got) [] = diff
difference diff (g ∷ got) (w ∷ want) = difference (bit_or diff (bit_xor g w)) got want

-- checkAPIKey on the header x-api-key, and apiKeyValid.
unfoldable pub check_api_key : List ℕ → List ℕ → Bool
unfolding difference
check_api_key api_key got =
    if is_empty api_key
    then true
    else if not (length got == length api_key)
    then false
    else difference 0 got api_key == 0

-- checkAPIKeyWaeg: the header x-api-key, or a bearer token; `trim` is strings.TrimSpace on bytes.
unfoldable pub check_api_key_waeg : (List ℕ → List ℕ) → List ℕ → List ℕ → List ℕ → Bool
unfolding check_api_key
check_api_key_waeg trim_bytes api_key got authorization =
    if is_empty api_key
    then true
    else if check_api_key api_key got
    then true
    else elim (after_prefix (codes "Bearer ") authorization) [
      | none ↦ false
      | some token ↦
          if not (length (trim_bytes token) == length api_key)
          then false
          else difference 0 (trim_bytes token) api_key == 0
    ]

difference-zero :
    (diff : ℕ) (got want : List ℕ)
    → length got ≡ length want
    → difference diff got want ≡ 0
    → (diff ≡ 0) × (got ≡ want)
unfolding difference
difference-zero diff [] [] long e = (e, refl)
difference-zero diff [] (w ∷ want) long e = absurd (omega (arith, long))
difference-zero diff (g ∷ got) [] long e = absurd (omega (arith, long))
difference-zero diff (g ∷ got) (w ∷ want) long e =
    let (acc, same) =
      difference-zero (bit_or diff (bit_xor g w)) got want (omega (arith, long)) e in
    let (before, here) = bit_or-zero diff (bit_xor g w) acc in
    (before, ap (λ x. x ∷ got) (bit_xor-zero g w here) ∙ ap (◌∷◌ w) same)

difference_self : (want : List ℕ) → difference 0 want want ≡ 0
unfolding difference
difference_self [] = refl
difference_self (w ∷ want) = rw (bit_xor_self w) (difference_self want)

-- The comparison of equal length accepts the key itself and nothing else.
pub same_length_iff :
    (api_key got : List ℕ)
    → ((if not (length got == length api_key) then false else difference 0 got api_key == 0) ≡ true)
      ↔ (got ≡ api_key)
same_length_iff api_key got =
    (accepted, λ same. rw (same, ==_refl (length api_key), difference_self api_key) refl)
  where
    accepted :
        (if not (length got == length api_key) then false else difference 0 got api_key == 0) ≡ true
        → got ≡ api_key
    accepted h = elim (Bool-cases (length got == length api_key)) [
      | inl long ↦
          let k = rw long at h in
          (difference-zero 0 got api_key ((==_iff (length got) (length api_key)).0 long)
            ((==_iff (difference 0 got api_key) 0).0 k)).1
      | inr short ↦ absurd (let k = rw short at h in cc)
    ]

-- A request passes the key check exactly if no key is configured or its header is the key, byte for
-- byte.
pub check_api_key_lem :
    (api_key got : List ℕ) → (check_api_key api_key got ≡ true) ↔ ((api_key ≡ []) ⊎ (got ≡ api_key))
unfolding check_api_key
check_api_key_lem [] got = (λ _. inl refl, λ _. refl)
check_api_key_lem (k ∷ api_key) got =
    let rest = same_length_iff (k ∷ api_key) got in
    (λ h. inr (rest.0 h), λ m. elim m [ inl void ↦ absurd (cc) | inr same ↦ rest.1 same ])

-- For the other gateway the key may also be the token of the header Authorization, up to spaces
-- around it.
check_api_key_waeg_lem :
    (trim_bytes : List ℕ → List ℕ) (api_key got authorization : List ℕ)
    → (check_api_key_waeg trim_bytes api_key got authorization ≡ true) ↔ (
        (api_key ≡ [])
        ⊎ ((got ≡ api_key)
            ⊎ ((token : List ℕ) × (after_prefix (codes "Bearer ") authorization ≡ some token)
                × (trim_bytes token ≡ api_key))))
unfolding check_api_key_waeg
check_api_key_waeg_lem trim_bytes [] got authorization = (λ _. inl refl, λ _. refl)
check_api_key_waeg_lem trim_bytes (k ∷ api_key) got authorization = (accepted, accepts)
  where
    key : List ℕ
    key = k ∷ api_key

    accepted :
        check_api_key_waeg trim_bytes key got authorization ≡ true
        → (key ≡ [])
          ⊎ ((got ≡ key)
              ⊎ ((token : List ℕ) × (after_prefix (codes "Bearer ") authorization ≡ some token)
                  × (trim_bytes token ≡ key)))
    accepted h = elim (Bool-cases (check_api_key key got)) [
      | inl direct ↦ inr (elim ((check_api_key_lem key got).0 direct) [
        | inl void ↦ absurd (cc)
        | inr same ↦ inl same
      ])
      | inr other_header ↦ elim (Option-cases (after_prefix (codes "Bearer ") authorization)) [
        | inl missing ↦ absurd (let x = rw (other_header, missing) at h in cc)
        | inr (token, e) ↦
            let x = rw (other_header, e) at h in
            inr (inr (token, e, (same_length_iff key (trim_bytes token)).0 x))
      ]
    ]

    accepts :
        (key ≡ [])
          ⊎ ((got ≡ key)
              ⊎ ((token : List ℕ) × (after_prefix (codes "Bearer ") authorization ≡ some token)
                  × (trim_bytes token ≡ key)))
        → check_api_key_waeg trim_bytes key got authorization ≡ true
    accepts (inl void) = absurd (cc)
    accepts (inr (inl same)) = rw ((check_api_key_lem key got).1 (inr same)) refl
    accepts (inr (inr (token, e, same))) = elim (Bool-cases (check_api_key key got)) [
      | inl direct ↦ rw direct refl
      | inr other_header ↦ rw (other_header, e) ((same_length_iff key (trim_bytes token)).1 same)
    ]
