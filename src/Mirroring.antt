-- ===== src/Mirroring.antt =====
-- request_mirroring.go. The goroutine that mirrors a request and the handler read one body: a schedule
-- says who reads each byte, and what it leaves is the handler's. The server closes the body when the
-- handler has returned; whether that comes before the goroutine has read to the end is an argument,
-- `closed`. The requests that are sent are the state of the client; what it replies is not looked at.
pub mod Splitting
mod Tests
use Prim.Native.String.{◌++◌}
use ratelimiter_redis.Base.{
  ℕ, String, Bool, true, false, Option, none, some, List, [], ◌∷◌, if◌then◌else◌, str_eq,
}
use ratelimiter_redis.Http.{Call, Request, Header, header_set}
use ratelimiter_redis.Http.Body.{Body, BodyHandler}

pub record MirrorRequest : Type 0 where
  pub method : String
  pub url : String
  pub header : Header
  pub body : List ℕ

-- The client is left out of the record.
pub record MirrorConfig : Type 0 where
  pub should_mirror : Option (Request → Bool)
  pub mirror_target : String

-- The bytes that the goroutine reads, and those that are left to the handler.
unfoldable pub split_reads : List Bool → List ℕ → List ℕ × List ℕ
split_reads sched [] = ([], [])
split_reads [] (b ∷ bs) = ([], b ∷ bs)
split_reads (true ∷ sched) (b ∷ bs) = let (m, h) = split_reads sched bs in (b ∷ m, h)
split_reads (false ∷ sched) (b ∷ bs) = let (m, h) = split_reads sched bs in (m, b ∷ h)

-- mirrorRequest, of the bytes that it reads: it sends nothing where the body fails. The header is copied
-- value for value, and http.NewRequest does not fail.
unfoldable pub mirror_request :
    (Request → String)
    → MirrorConfig
    → Request
    → Option String
    → List ℕ
    → List MirrorRequest
    → List MirrorRequest
unfolding header_set
mirror_request request_uri cfg r (some e) read sent = sent
mirror_request request_uri cfg r none read sent =
    record {
      method = r.method;
      url = cfg.mirror_target ++ request_uri r;
      header = header_set "X-Mirrored-Request" "true" r.header;
      body = read;
    }
    ∷ sent

abbrev mirrors : Option (Request → Bool) → Request → Bool
mirrors none r = true
mirrors (some f) r = f r

-- The error that ends the goroutine's reading.
abbrev pub read_error : Bool → Body → Option String
read_error closed b = if closed then some "http: invalid Read on closed Body" else b.failure

-- A mirrored request: without a body the goroutine reads nothing.
abbrev serve_mirrored :
    {S : Type 0}
    → (Request → String)
    → List Bool
    → Bool
    → MirrorConfig
    → BodyHandler S
    → Request
    → Option Body
    → List MirrorRequest × S
    → List Call × (List MirrorRequest × S)
unfolding mirror_request split_reads
serve_mirrored request_uri sched closed cfg next r none (sent, s) =
    let (calls, s') = next r none s in (calls, (mirror_request request_uri cfg r none [] sent, s'))
serve_mirrored request_uri sched closed cfg next r (some b) (sent, s) =
    let (read, rest) = split_reads sched b.bytes in
    let (calls, s') = next r (some (record b { bytes = rest })) s in
    (calls, (mirror_request request_uri cfg r (read_error closed b) read sent, s'))

-- The handler that `WithRequestMirroring` returns; `request_uri` is the field RequestURI.
unfoldable pub mirror_handler :
    {S : Type 0}
    → (Request → String)
    → List Bool
    → Bool
    → MirrorConfig
    → BodyHandler S
    → BodyHandler (List MirrorRequest × S)
unfolding serve_mirrored
mirror_handler request_uri sched closed cfg next r b (sent, s) =
    let (calls, s') = next r b s in
    if mirrors cfg.should_mirror r
    then serve_mirrored request_uri sched closed cfg next r b (sent, s)
    else (calls, (sent, s'))

-- WithRequestMirroring: it panics without a target.
abbrev pub with_request_mirroring :
    {S : Type 0}
    → (Request → String)
    → List Bool
    → Bool
    → MirrorConfig
    → Option (BodyHandler S → BodyHandler (List MirrorRequest × S))
with_request_mirroring request_uri sched closed cfg =
    if str_eq cfg.mirror_target "" then none else some (mirror_handler request_uri sched closed cfg)
