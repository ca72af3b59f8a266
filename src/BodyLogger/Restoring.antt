-- ===== src/BodyLogger/Restoring.antt =====
-- What the handler below can still read of the body.
use ratelimiter_redis.Base.{
  arith, take_all, ℕ, String, ◌≡◌, refl, Bool, true, false, ◌&&◌, Option, none, some, List, [],
  length, if◌then◌else◌, ltb, take, take-drop, append_nil, Bool-cases, inl, inr,
}
use ratelimiter_redis.Base.Int.{pos_part}
use ratelimiter_redis.Http.{Request}
use ratelimiter_redis.Http.Body.{Body, BodyHandler}
use ratelimiter_redis.BodyLogger.{
  BodyLoggerOption, BodyLoggerConfig, body_logger_config, with_request_body_logger, log_body, echo,
}

abbrev pub fails : Body → Bool
fails b = elim b.failure [ none ↦ false | some e ↦ true ]

-- The body fails before the limit.
abbrev pub cut_short : ℕ → Body → Bool
cut_short n b = ltb (length b.bytes) n && fails b

abbrev pub logged : ℕ → Body → List ℕ
logged n b = if cut_short n b then [] else take n b.bytes

abbrev pub passed_on : ℕ → Body → Body
passed_on n b = if cut_short n b then record b { bytes = [] } else b

log-passed_on :
    {S : Type 0} (cfg : BodyLoggerConfig S) (next : BodyHandler S) (r : Request) (bytes : List ℕ)
    (failure : Option String) (s : S)
    → let n = pos_part cfg.max_bytes in
      let b : Body = record { bytes = bytes; failure = failure } in
      let (calls, s') = next r (some (passed_on n b)) (cfg.log_func r (logged n b) s) in
      log_body cfg next r b s ≡ (echo cfg.header (logged n b) calls, s')
log-passed_on cfg next r bytes none s =
    elim (Bool-cases (ltb (length bytes) (pos_part cfg.max_bytes))) [
      | inl short ↦
          rw
            (
              short,
              append_nil bytes,
              take_all (pos_part cfg.max_bytes) bytes (ground (arith, short)),
            )
            refl
      | inr long ↦ rw (long, take-drop (pos_part cfg.max_bytes) bytes) refl
    ]
log-passed_on cfg next r bytes (some e) s =
    elim (Bool-cases (ltb (length bytes) (pos_part cfg.max_bytes))) [
      | inl short ↦ rw short refl
      | inr long ↦ rw (long, take-drop (pos_part cfg.max_bytes) bytes) refl
    ]

-- The handler below can read the body as it came, and the callback gets as many of its bytes as the limit
-- allows; but where reading fails before the limit, the callback gets none, and the handler only the
-- failure: what was read until then is lost to it.
pub body_restored :
    {S : Type 0} (opts : List (BodyLoggerOption S)) (next : BodyHandler S) (r : Request) (b : Body)
    (s : S)
    → let cfg = body_logger_config opts in
      let n = pos_part cfg.max_bytes in
      let (calls, s') = next r (some (passed_on n b)) (cfg.log_func r (logged n b) s) in
      with_request_body_logger opts next r (some b) s ≡ (echo cfg.header (logged n b) calls, s')
unfolding with_request_body_logger
body_restored opts next r b s =
    let cfg = body_logger_config opts in log-passed_on cfg next r b.bytes b.failure s
