-- ===== src/SizeLimit.antt =====
-- request_size_limit.go.
pub mod Bounded
mod Tests
use ratelimiter_redis.Base.{ℕ, String, Option, none, some, List, [], ◌∷◌, if◌then◌else◌}
use ratelimiter_redis.Base.Int.{ℤ, pos, pos_part, leb_ℤ, ltb_ℤ}
use ratelimiter_redis.Http.{Call, set_header, write_header, write, Request}
use ratelimiter_redis.Http.Body.{Body, BodyHandler, max_bytes_reader}

pub record RequestSizeLimitConfig (S : Type 0) : Type 0 where
  pub max_bytes : ℤ
  pub on_limit_exceeded : BodyHandler S

abbrev pub RequestSizeLimitOption : Type 0 → Type 0
RequestSizeLimitOption S = RequestSizeLimitConfig S → RequestSizeLimitConfig S

-- r.Body = http.MaxBytesReader(w, r.Body, n); it wraps nil too.
abbrev pub limit_body : ℕ → Option Body → Option Body
limit_body n none = none
limit_body n (some b) = some (max_bytes_reader n b)

module _ {S : Type 0} where
  abbrev pub default_size_limit_exceeded_handler : BodyHandler S
  default_size_limit_exceeded_handler r b s = (
    set_header "Content-Type" "text/plain; charset=utf-8"
        ∷ write_header 413
        ∷ write "request body too large"
        ∷ [],
    s,
  )

  -- It ignores nil.
  abbrev pub with_size_limit_handler : Option (BodyHandler S) → RequestSizeLimitOption S
  with_size_limit_handler none cfg = cfg
  with_size_limit_handler (some h) cfg = record cfg { on_limit_exceeded = h }

  abbrev pub with_max_bytes : ℤ → RequestSizeLimitOption S
  with_max_bytes max_bytes cfg = record cfg { max_bytes = max_bytes }

  abbrev apply_options :
      List (RequestSizeLimitOption S) → RequestSizeLimitConfig S → RequestSizeLimitConfig S
  apply_options [] cfg = cfg
  apply_options (o ∷ opts) cfg = apply_options opts (o cfg)

  abbrev pub size_limit_config : ℤ → List (RequestSizeLimitOption S) → RequestSizeLimitConfig S
  size_limit_config max_bytes opts =
      apply_options opts
        (record { max_bytes = max_bytes; on_limit_exceeded = default_size_limit_exceeded_handler })

  -- The handler that `WithRequestSizeLimit` returns.
  unfoldable pub with_request_size_limit :
      ℤ → List (RequestSizeLimitOption S) → BodyHandler S → BodyHandler S
  with_request_size_limit max_bytes opts next r b s =
      let cfg = size_limit_config max_bytes opts in
      if leb_ℤ cfg.max_bytes (pos 0)
      then next r b s
      else if ltb_ℤ cfg.max_bytes r.content_length
      then cfg.on_limit_exceeded r b s
      else next r (limit_body (pos_part cfg.max_bytes) b) s
