-- ===== src/Lib.antt =====
-- The pseudonymization guardrail of palena-litellm-pseudonymizer, a service between a gateway and a
-- language model. A request's texts have their names replaced by pseudonyms, and the model's answer
-- has the pseudonyms replaced by the names again. What a name is called is kept per session in Redis.
--
-- The program's parts, and the files that model them:
-- - internal/text/pools.go, strategy.go: the choice of a pseudonym. Text/Pools (Pools, NewPools,
--   Assign, AssignDeterministic, syntheticFallback, hmacIndex, titleCase), Text/Token (tokenRE,
--   tokenPrefix, nextToken), Text/Strategy (Strategizer, StrategyFor, Assign), Text/Numbering (the
--   searches for a free number). What they guarantee is in Pools/Fresh, Token/RoundTrip and
--   Strategy/Fresh.
-- - internal/text/components.go, allowlist.go: Text/Components (ComponentMappings), Text/Filters
--   (AllowListed, filterImplausible, and the filters of handler.go).
-- - internal/text/handler.go: Text/Assign (assignNew, one definition for each step of its loops),
--   Text/Handler (Pseudonymize, Reverse, ReverseStream). Proofs in Assign/Known, Assign/Grows,
--   Assign/Dedup, Assign/Covers, Assign/Injective, Handler/Laws; Text/Races runs two requests against each other.
-- - internal/text/replacer.go, holdback.go: Text/Replacer (Replace, matchCase, the boundary checks)
--   with Replacer/Casing, Replacer/Pieces and Replacer/Rewrites, and Text/Holdback (ComputeHoldback).
-- - internal/mapping/redis.go, store.go: Mapping (RedisStore, its operations and its Lua script),
--   Mapping/Merge (the reverse mapping, and the merge that the script's loop amounts to),
--   Mapping/Interface (Redis, encoding/json, and cjson with its tables),
--   Mapping/Laws, Mapping/Reverse, and Mapping/Reach for the operations of several clients in any
--   order. Text/Handler/Redis makes it the store of the handlers.
-- - internal/pseudonymizer/orchestrator.go: Pseudonymizer (Handle, handleRequest, handleResponse) with
--   Pseudonymizer/Requests and Pseudonymizer/Responses.
-- - internal/httpapi: Api (mapError and the body of an answer), Api/Guardrail (ServeHTTP and its helpers
--   of handler.go), Api/Waeg (waeg.go), Api/Sessions (Delete of sessions.go and /readyz of router.go).
--   Api/Keys and Api/Answers prove what they answer.
-- - internal/image/handler.go, dataurl.go: Image/DataUrl (DecodeDataURL, EncodeDataURL, FetchURL),
--   Image/Handler (the configuration, filterDetections, the new entries of shareWithMapping) and
--   Image/Process (resolveInput, shareWithMapping, processOne, ProcessAll), with Image/Shared,
--   Image/Stored, Image/Safety, Image/Loop and Image/Laws.
-- - internal/presidio/analyzer.go, image_redactor.go: Presidio/Analyzer and Presidio/ImageRedactor, with
--   Presidio/Placed; Presidio has the type of a detection.
-- - internal/ner/client.go: Ner (Detect with its batches, Ping) with Ner/Batches.
-- - internal/language/detector.go: Language (Parse and New).
-- - internal/text/denylist.go: Text/Denylist (NewDenyMatcher, Find) with Denylist/Words,
--   Denylist/Coverage and Denylist/Laws.
-- - internal/text/detector.go: Text/Detector (spansFor, detectNames, Detect, NERLabelsFor) with
--   Detector/Names and Detector/Asking.
-- - internal/config/config.go: Config (the tables and Validate) with Config/Laws. cmd/server/main.go:
--   Server (redactRedisURL and the thresholds of the NER types).
-- - internal/errs, internal/audit: Errs and Audit (the errors and the counters).
-- - internal/text/units.go: Text/Units (splitUnits, windowLine, cutAt, charToByte) with Units/Windows.
-- - internal/text/nercache.go: Text/NerCache (get and put over the list and its index) with
--   NerCache/Sound, NerCache/Index, NerCache/Agreement and NerCache/Bounded.
-- - internal/session/derive.go: Session (Derive, sanitize) with Session/Printable.
-- GoLib has what the code uses of Go's standard library (GoLib/Int is the type int, GoLib/Float the
-- float64 of the configuration, GoLib/Http an exchange with a server), and Base the shared lists and
-- tests.
--
-- Representation. A string is a list of code points; an undecodable byte b is the number 0x110000 + b.
-- A map is an association list, in the order in which a run ranges over it. A score is a number in
-- fixed-point units, of which only the order matters, and in the configuration and the deny list a
-- number of millionths. Durations are milliseconds, and nanoseconds in the configuration and in the
-- cache of lines. A call that can fail passes the state of the world on and returns a value or an
-- error. Counters and offsets that the code computes are natural numbers, and those it reads from
-- outside, which may be negative, are the type ℤ of GoLib/Int; the index of a token and the expiry of
-- a cached line wrap around as an int64 does, and what needs that they do not says so
-- (Strategy.Fresh.HasRoom). A payload of Redis is read by encoding/json and by cjson, which need not
-- read the same.
--
-- Parameters: the tables of package unicode with three facts about them (GoLib/Unicode), HMAC-SHA256,
-- SHA-256 and random bytes, the Redis server and the two JSON libraries with the laws that their
-- documentation gives (Mapping/Interface), the answers of the HTTP servers and what a JSON decoder
-- makes of them, base64, the parsing of URLs and numbers, the language classifier and its list of
-- codes, and the clock. The detector and the image pipeline are parameters of the handlers that call
-- them, and Text/Detector and Image/Process are what the server puts there. Tests/Samples and the
-- other modules of Tests have an instance of each, and Tests runs the model.
--
-- Bounds. The loops that look for a free number run on fuel, one more than the number of names that
-- can be in the way: the used names and the infixes of the reserved text. The matcher's fuel is the
-- length of the text, since every match is nonempty; that of the windows is the length of the line,
-- since each starts behind the one before; that of the eviction is the number of entries. The search
-- of a deny-listed term has the length of the text, since every match is nonempty, and the loop over
-- the batches the number of texts, since a batch has at least one.
--
-- Not modelled: the reading of the environment (Load), routing and middleware, logging, metrics and
-- the dialling of Redis, since they are calls of libraries; the statistics of the cache of lines; the
-- wiring, listening and shutdown of main; charts, container files and documents.
pub mod Base
pub mod GoLib
pub mod Errs
pub mod Presidio
pub mod Mapping
pub mod Text
pub mod Audit
pub mod Api
pub mod Pseudonymizer
pub mod Session
pub mod Image
pub mod Ner
pub mod Server
pub mod Config
pub mod Language
mod Tests
