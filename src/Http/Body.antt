-- ===== src/Http/Body.antt =====
-- A request's body, and packages io and net/http on readers. An error comes in a read of its own, after
-- the bytes; without one the body ends there.
use mathlib.Core.List.{◌++◌}
use ratelimiter_redis.Base.{
  ℕ, String, Option, none, some, List, [], length, ltb, leb, take, drop, if◌then◌else◌,
}
use ratelimiter_redis.Http.{Call, Request}

pub record Body : Type 0 where
  pub bytes : List ℕ
  pub failure : Option String

-- Of a request with its body, `none` for nil.
abbrev pub BodyHandler : Type 0 → Type 0
BodyHandler S = Request → Option Body → S → List Call × S

-- What io.ReadAll gets of a reader: the bytes, the error, and what is left to read.
pub record Outcome : Type 0 where
  pub got : List ℕ
  pub error : Option String
  pub rest : Body

-- io.ReadAll(io.LimitReader(b, n))
abbrev pub read_limited : ℕ → Body → Outcome
read_limited n b =
    if ltb (length b.bytes) n
    then record { got = b.bytes; error = b.failure; rest = record b { bytes = [] } }
    else record { got = take n b.bytes; error = none; rest = record b { bytes = drop n b.bytes } }

-- io.MultiReader(bytes.NewReader(got), b)
abbrev pub multi_reader : List ℕ → Body → Body
multi_reader got b = record b { bytes = got ++ b.bytes }

-- http.MaxBytesReader
abbrev pub max_bytes_reader : ℕ → Body → Body
max_bytes_reader n b =
    if leb (length b.bytes) n
    then b
    else record { bytes = take n b.bytes; failure = some "http: request body too large" }
