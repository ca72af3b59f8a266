-- ===== src/Sampling.antt =====
-- request_sampling.go. float64 and the generator of random numbers are parameters; the generator's state
-- is a part of the handler's. Concurrent requests would share the generator without a lock.
pub mod Extremes
mod Tests
use ratelimiter_redis.Base.{Bool, Option, none, some, List, [], ◌∷◌, if◌then◌else◌}
use ratelimiter_redis.Http.{Call, write_header, Request, Handler}

-- The numbers 0 and 1, and the order.
pub record RateFloat (F : Type 0) : Type 0 where
  pub zero : F
  pub one : F
  pub lt : F → F → Bool

-- The key function is never used; the source is an argument of the handler.
pub record SamplingConfig (F S : Type 0) : Type 0 where
  pub rate : F
  pub rejected_handler : Option (Handler S)

abbrev pub default_sampling_rejected_handler : {S : Type 0} → Handler S
default_sampling_rejected_handler r s = (write_header 429 ∷ [], s)

abbrev rejected_or : {S : Type 0} → Option (Handler S) → Handler S
rejected_or none = default_sampling_rejected_handler
rejected_or (some h) = h

module _ {F G : Type 0} (float : RateFloat F) (float64 : G → F × G) where
  -- The rate that is used.
  unfoldable pub clamp : F → F
  clamp rate =
      let rate' = if float.lt rate float.zero then float.zero else rate in
      if float.lt float.one rate' then float.one else rate'

  -- The handler that `WithRequestSampling` returns; `float64` is the generator's.
  unfoldable pub with_request_sampling :
      {S : Type 0} → SamplingConfig F S → Handler S → Handler (G × S)
  with_request_sampling cfg next r (g, s) =
      let (x, g') = float64 g in
      let (calls, s') =
        (if float.lt x (clamp cfg.rate) then next else rejected_or cfg.rejected_handler) r s in
      (calls, (g', s'))
