-- ===== src/Mapping/Interface.antt =====
-- What the mapping store uses of Redis and of JSON. Whether a command gets through is the server's
-- `reachable`, about which nothing is assumed.
use palena_litellm_pseudonym.Base.{ℕ, ◌<◌, ◌≡◌, ◌≢◌, Bool, true, List, [], Option, none, some}
use palena_litellm_pseudonym.GoLib.Strings.{Str}
use palena_litellm_pseudonym.GoLib.Dict.{get, put, has}

pub record Redis : Type 1 where
  pub Server : Type 0
  pub reachable : Server → Bool
  pub hget : Str → Str → Server → Option Str
  pub hset : Str → Str → Str → Server → Server
  -- EXPIRE with whole seconds; none is a deletion.
  pub expire : Str → ℕ → Server → Server
  -- The client's Expire with a duration in milliseconds, which may fail to take effect.
  pub refresh : Str → ℕ → Server → Server
  pub del : Str → Server → Server
  pub holds : Str → Server → Bool
  pub hget-hset_self : (k f v : Str) (s : Server) → hget k f (hset k f v s) ≡ some v
  pub hget-hset_ne :
      (k k' f f' v : Str) (s : Server) → k ≢ k' → hget k' f' (hset k f v s) ≡ hget k' f' s
  pub hget-expire_pos :
      (k k' f : Str) (n : ℕ) (s : Server) → 0 < n → hget k' f (expire k n s) ≡ hget k' f s
  pub hget-expire_zero : (k f : Str) (s : Server) → hget k f (expire k 0 s) ≡ none
  pub hget-expire_ne :
      (k k' f : Str) (n : ℕ) (s : Server) → k ≢ k' → hget k' f (expire k n s) ≡ hget k' f s
  pub hget-refresh :
      (k k' f : Str) (n : ℕ) (s : Server) → 0 < n → hget k' f (refresh k n s) ≡ hget k' f s
  pub hget-del_self : (k f : Str) (s : Server) → hget k f (del k s) ≡ none
  pub hget-del_ne : (k k' f : Str) (s : Server) → k ≢ k' → hget k' f (del k s) ≡ hget k' f s
  pub holds_of_hget : (k f v : Str) (s : Server) → hget k f s ≡ some v → holds k s ≡ true

-- The payloads, which are texts of valid UTF-8: `decode` is json.Unmarshal into a map[string]string,
-- and the rest is cjson and Lua, whose tables may hold more than strings. `cjson_decode` answers none
-- where it raises and where the value is no table; `cjson_encode` writes an empty table as `{}`, as the
-- script does. `is_set` is merged[k] ~= nil, and `assign` is merged[k] = v.
pub record Json : Type 1 where
  pub decode : Str → Option (List (Str × Str))
  pub Table : Type 0
  pub no_table : Table
  pub cjson_decode : Str → Option Table
  pub cjson_encode : Table → Str
  pub is_set : Str → Table → Bool
  pub assign : Str → Str → Table → Table
  -- A table that encoding/json reads as a map from strings has the keys of that map, and with a
  -- string assigned it is read as that map with the entry.
  pub decode-no_table : decode (cjson_encode no_table) ≡ some []
  pub is_set-decode :
      (k : Str) (t : Table) (m : List (Str × Str))
      → decode (cjson_encode t) ≡ some m
      → is_set k t ≡ has k m
  pub decode-assign :
      (k v : Str) (t : Table) (m : List (Str × Str))
      → decode (cjson_encode t) ≡ some m
      → (m' : List (Str × Str)) × (decode (cjson_encode (assign k v t)) ≡ some m')
        × ((i : Str) → get i m' ≡ get i (put k v m))
  -- What both read, they read alike; what encoding/json reads an entry in, cjson reads too.
  pub decode-alike :
      (raw : Str) (t : Table) (m : List (Str × Str))
      → cjson_decode raw ≡ some t
      → decode raw ≡ some m
      → (m' : List (Str × Str)) × (decode (cjson_encode t) ≡ some m')
        × ((i : Str) → get i m' ≡ get i m)
  pub cjson_decode_of_get :
      (raw k v : Str) (m : List (Str × Str))
      → decode raw ≡ some m
      → get k m ≡ some v
      → (t : Table) × (cjson_decode raw ≡ some t)
