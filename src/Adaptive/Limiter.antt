-- ===== src/Adaptive/Limiter.antt =====
-- adaptive_limit.go: the limiter and its middleware. float64 is a parameter; a call of `LoadFunc` returns
-- the load that is an argument. `Recalculate` and `CurrentLimit` each run under the mutex; between the two
-- of a request no other request recalculates here.
use ratelimiter_redis.Base.{Bool, Option, none, some, ◌∷◌, if◌then◌else◌}
use ratelimiter_redis.Base.Int.{ℤ, pos, leb_ℤ, sub64, add64}
use ratelimiter_redis.Http.{set_header, Handler}
use ratelimiter_redis.Adaptive.{adaptive_itoa}

-- The operations of float64, `int(x)`, and the constants 0.8 and 0.4.
pub record LoadFloat (F : Type 0) : Type 0 where
  pub eight_tenths : F
  pub four_tenths : F
  pub is_zero : F → Bool
  pub le : F → F → Bool
  pub sub : F → F → F
  pub div : F → F → F
  pub mul : F → F → F
  pub of_int : ℤ → F
  pub to_int : F → ℤ

-- The load function is left out of the record.
pub record AdaptiveConfig (F : Type 0) : Type 0 where
  pub base_limit : ℤ
  pub min_limit : ℤ
  pub max_limit : ℤ
  pub high_load_mark : F
  pub low_load_mark : F

pub record AdaptiveLimiter (F : Type 0) : Type 0 where
  pub cfg : AdaptiveConfig F
  pub current_limit : ℤ

module _ {F : Type 0} (float : LoadFloat F) where
  -- The configuration with its defaults; cfg.BaseLimit * 2 wraps like the sum.
  unfoldable pub with_defaults : AdaptiveConfig F → AdaptiveConfig F
  with_defaults cfg = record {
    base_limit = cfg.base_limit;
    min_limit = if leb_ℤ cfg.min_limit (pos 0) then pos 1 else cfg.min_limit;
    max_limit =
        if leb_ℤ cfg.max_limit (pos 0) then add64 cfg.base_limit cfg.base_limit else cfg.max_limit;
    high_load_mark =
        if float.is_zero cfg.high_load_mark then float.eight_tenths else cfg.high_load_mark;
    low_load_mark =
        if float.is_zero cfg.low_load_mark then float.four_tenths else cfg.low_load_mark;
  }

  abbrev pub new_adaptive_limiter : AdaptiveConfig F → AdaptiveLimiter F
  new_adaptive_limiter cfg = record { cfg = with_defaults cfg; current_limit = cfg.base_limit }

  -- int(ratio*span)
  unfoldable pub reduction : AdaptiveConfig F → F → ℤ
  reduction cfg load =
      let range_ = float.sub cfg.high_load_mark cfg.low_load_mark in
      let ratio = float.div (float.sub load cfg.low_load_mark) range_ in
      float.to_int (float.mul ratio (float.of_int (sub64 cfg.max_limit cfg.min_limit)))

  unfoldable pub limit_at : AdaptiveConfig F → F → ℤ
  limit_at cfg load =
      if float.le cfg.high_load_mark load
      then cfg.min_limit
      else if float.le load cfg.low_load_mark
      then cfg.max_limit
      else sub64 cfg.max_limit (reduction cfg load)

  -- Recalculate: `none` where there is no load function.
  abbrev pub recalculate : Option F → AdaptiveLimiter F → AdaptiveLimiter F
  recalculate none a = a
  recalculate (some load) a = record a { current_limit = limit_at a.cfg load }

  -- The handler that `WithAdaptiveLimit` returns.
  unfoldable pub with_adaptive_limit :
      {S : Type 0} → Option F → Handler S → Handler (AdaptiveLimiter F × S)
  with_adaptive_limit load next r (a, s) =
      let a' = recalculate load a in
      let (calls, s') = next r s in
      (set_header "X-RateLimit-Adaptive-Limit" (adaptive_itoa a'.current_limit) ∷ calls, (a', s'))
