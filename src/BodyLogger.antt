-- ===== src/BodyLogger.antt =====
-- request_body_logger.go.
pub mod Restoring
mod Tests
use ratelimiter_redis.Base.{
  ℕ, String, Option, none, some, List, [], ◌∷◌, length, if◌then◌else◌, str_eq,
}
use ratelimiter_redis.Base.Int.{ℤ, pos, pos_part}
use ratelimiter_redis.Http.{Call, set_header, Request}
use ratelimiter_redis.Http.Body.{Body, BodyHandler, Outcome, read_limited, multi_reader}
use ratelimiter_redis.Adaptive.{adaptive_itoa}

-- `log_func` acts on the state of the handlers.
pub record BodyLoggerConfig (S : Type 0) : Type 0 where
  pub max_bytes : ℤ
  pub log_func : Request → List ℕ → S → S
  pub header : String

abbrev pub BodyLoggerOption : Type 0 → Type 0
BodyLoggerOption S = BodyLoggerConfig S → BodyLoggerConfig S

-- if err != nil { captured = nil }
abbrev pub captured : Outcome → List ℕ
captured out = elim out.error [ none ↦ out.got | some e ↦ [] ]

abbrev pub echo : String → List ℕ → List Call → List Call
echo header got calls =
    if str_eq header "" then calls else set_header header (adaptive_itoa (pos (length got))) ∷ calls

module _ {S : Type 0} where
  abbrev pub default_body_log_func : Request → List ℕ → S → S
  default_body_log_func r body s = s

  abbrev pub with_body_log_max_bytes : ℤ → BodyLoggerOption S
  with_body_log_max_bytes n c = record c { max_bytes = n }

  -- It ignores nil.
  abbrev pub with_body_log_func : Option (Request → List ℕ → S → S) → BodyLoggerOption S
  with_body_log_func none c = c
  with_body_log_func (some fn) c = record c { log_func = fn }

  abbrev pub with_body_log_header : String → BodyLoggerOption S
  with_body_log_header header c = record c { header = header }

  abbrev apply_options : List (BodyLoggerOption S) → BodyLoggerConfig S → BodyLoggerConfig S
  apply_options [] c = c
  apply_options (o ∷ opts) c = apply_options opts (o c)

  abbrev pub body_logger_config : List (BodyLoggerOption S) → BodyLoggerConfig S
  body_logger_config opts =
      apply_options opts
        (record { max_bytes = pos 4096; log_func = default_body_log_func; header = "" })

  -- With a body; a limit below 0 reads nothing.
  abbrev pub log_body : BodyLoggerConfig S → BodyHandler S → Request → Body → S → List Call × S
  log_body cfg next r b s =
      let out = read_limited (pos_part cfg.max_bytes) b in
      let got = captured out in
      let (calls, s') = next r (some (multi_reader got out.rest)) (cfg.log_func r got s) in
      (echo cfg.header got calls, s')

  -- The handler that `WithRequestBodyLogger` returns.
  unfoldable pub with_request_body_logger :
      List (BodyLoggerOption S) → BodyHandler S → BodyHandler S
  with_request_body_logger opts next r none s = next r none s
  with_request_body_logger opts next r (some b) s = log_body (body_logger_config opts) next r b s
