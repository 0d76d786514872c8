-- ===== src/Image/Stored.antt =====
-- internal/image/handler.go: what the session maps after shareWithMapping, over the store of
-- internal/mapping/redis.go.
use palena_litellm_pseudonym.GoLib.Unicode.{Unicode}
use palena_litellm_pseudonym.Mapping.Interface.{Redis}
use palena_litellm_pseudonym.Mapping.Merge.{Mapping}
