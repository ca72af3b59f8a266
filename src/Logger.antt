-- ===== src/Logger.antt =====
-- request_logger.go and request_logger_option.go. What the callback does is a change of the handlers'
-- state; Go's standard logger is an argument, and so is time.Since(start). The key function returns a
-- key alone, as `KeyFunc` of ratelimiter.go says.
pub mod Entry
mod Tests
use Prim.Native.String.{◌++◌}
use ratelimiter_redis.Base.Text.{itoa}
use ratelimiter_redis.Base.{
  ℕ, String, Bool, not, Option, none, some, List, [], ◌∷◌, ◌==◌, if◌then◌else◌, str_eq,
}
use ratelimiter_redis.Base.Int.{ℤ, pos}
use ratelimiter_redis.Base.Clock.{Duration}
use ratelimiter_redis.Base.Scan.{scan_int}
use ratelimiter_redis.RateLimiter.{or_default}
use ratelimiter_redis.Http.{
  Call, write_header, Request, Handler, Wrapper, relay, header_after, first_value,
}

pub record LogEntry : Type 0 where
  pub key : String
  pub path : String
  pub method : String
  pub allowed : Bool
  pub remaining : ℤ
  pub latency : Duration

-- Package log's printing of a line, and how a `%s` writes a duration.
pub record StandardLogger (S : Type 0) : Type 0 where
  pub print : String → S → S
  pub show : Duration → String

unfoldable pub log_line : (Duration → String) → LogEntry → String
unfolding itoa
log_line show e =
    "[ratelimiter] "
    ++ e.method
    ++ " "
    ++ e.path
    ++ " key="
    ++ e.key
    ++ " status="
    ++ (if e.allowed then "allowed" else "blocked")
    ++ " remaining="
    ++ itoa e.remaining
    ++ " latency="
    ++ show e.latency

abbrev pub default_log_func : {S : Type 0} → StandardLogger S → LogEntry → S → S
default_log_func log e = log.print (log_line log.show e)

-- The writer, whose field `statusCode` is the state.
abbrev pub logger_writer : Wrapper ℕ
logger_writer code (write_header c) = (c, write_header c ∷ [])
logger_writer code call = (code, call ∷ [])

-- What Sscanf leaves in a variable that is 0.
unfoldable pub remaining_of : String → ℤ
unfolding scan_int
remaining_of v = if str_eq v "" then pos 0 else or_default (pos 0) (scan_int v)

-- WithRequestLogger; the writer's header is empty at first.
unfoldable pub with_request_logger :
    {S : Type 0}
    → StandardLogger S
    → (Request → String)
    → Duration
    → Handler S
    → Option (Request → String)
    → Option (LogEntry → S → S)
    → Handler S
unfolding remaining_of
with_request_logger log default_key_func latency next key_func log_func r s =
    let (calls, s') = next r s in
    let (code, out) = relay logger_writer 200 calls in
    let entry : LogEntry = record {
      key = or_default default_key_func key_func r;
      path = r.path;
      method = r.method;
      allowed = not (code == 429);
      remaining = remaining_of (first_value (header_after "X-RateLimit-Remaining" [] calls));
      latency = latency;
    } in
    (out, or_default (default_log_func log) log_func entry s')

pub record LoggerConfig (S : Type 0) : Type 0 where
  pub key_func : Option (Request → String)
  pub log_func : Option (LogEntry → S → S)

abbrev pub LoggerOption : Type 0 → Type 0
LoggerOption S = LoggerConfig S → LoggerConfig S

module _ {S : Type 0} where
  abbrev pub with_log_key_func : Option (Request → String) → LoggerOption S
  with_log_key_func kf c = record c { key_func = kf }

  abbrev pub with_log_func : Option (LogEntry → S → S) → LoggerOption S
  with_log_func fn c = record c { log_func = fn }

  abbrev apply_options : List (LoggerOption S) → LoggerConfig S → LoggerConfig S
  apply_options [] c = c
  apply_options (o ∷ opts) c = apply_options opts (o c)

  abbrev pub new_request_logger :
      StandardLogger S
      → (Request → String)
      → Duration
      → Handler S
      → List (LoggerOption S)
      → Handler S
  new_request_logger log default_key_func latency next opts =
      let cfg = apply_options opts (record { key_func = none; log_func = none }) in
      with_request_logger log default_key_func latency next cfg.key_func cfg.log_func
