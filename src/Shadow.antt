-- ===== src/Shadow.antt =====
-- request_shadow.go and request_shadow_option.go. The limiter and the handler run at once, on one request
-- with one body: either may write to its header and read its body, so what each of them finds is an
-- argument. The rest of their states is apart, so that any interleaving leaves what the one after the other
-- does.
pub mod Reports
mod Tests
use ratelimiter_redis.Base.{ℕ, String, Option, none, some, List, [], ◌∷◌, ◌==◌, if◌then◌else◌}
use ratelimiter_redis.Http.{Call, Request}
use ratelimiter_redis.Http.Body.{Body, BodyHandler}
use ratelimiter_redis.ResponseCache.Recorder.{recorded}

-- `on_block` acts on the limiter's state.
pub record ShadowConfig (L : Type 0) : Type 0 where
  pub on_block : Option (Request → String → L → L)
  pub key_func : Option (Request → String)

abbrev pub ShadowOption : Type 0 → Type 0
ShadowOption L = ShadowConfig L → ShadowConfig L

module _ {L : Type 0} where
  abbrev pub with_shadow_on_block : Option (Request → String → L → L) → ShadowOption L
  with_shadow_on_block fn cfg = record cfg { on_block = fn }

  abbrev pub with_shadow_key_func : Option (Request → String) → ShadowOption L
  with_shadow_key_func fn cfg = record cfg { key_func = fn }

  abbrev apply_options : List (ShadowOption L) → ShadowConfig L → ShadowConfig L
  apply_options [] cfg = cfg
  apply_options (o ∷ opts) cfg = apply_options opts (o cfg)

  abbrev pub new_shadow_config : List (ShadowOption L) → ShadowConfig L
  new_shadow_config opts = apply_options opts (record { on_block = none; key_func = none })

  abbrev pub on_block_or : Option (Request → String → L → L) → Request → String → L → L
  on_block_or none r key l = l
  on_block_or (some f) r key l = f r key l

abbrev pub key_or : (Request → String) → Option (Request → String) → Request → String
key_or d none = d
key_or d (some f) = f

-- The shared request with its body as the limiter finds it, and as the handler does; and as it is for the
-- callback, when the limiter has returned.
pub record Views : Type 0 where
  pub limiter_request : Request
  pub limiter_body : Option Body
  pub request : Request
  pub body : Option Body
  pub after : Request

-- The goroutine: the limiter on a recorder, and the callback. The first argument is
-- http.DetectContentType.
unfoldable pub evaluate :
    {L : Type 0}
    → (String → String)
    → (Request → String)
    → ShadowConfig L
    → BodyHandler L
    → Views
    → L
    → L
evaluate detect default_key_func cfg limiter v l =
    let (calls, l') = limiter v.limiter_request v.limiter_body l in
    if (recorded detect calls).code == 429
    then on_block_or cfg.on_block v.after (key_or default_key_func cfg.key_func v.after) l'
    else l'

-- The handler that `WithShadowMode` returns.
unfoldable pub with_shadow_mode :
    {L S : Type 0}
    → (String → String)
    → (Request → String)
    → BodyHandler L
    → ShadowConfig L
    → BodyHandler S
    → Views
    → L × S
    → List Call × (L × S)
unfolding evaluate
with_shadow_mode detect default_key_func limiter cfg next v (l, s) =
    let (calls, s') = next v.request v.body s in
    (calls, (evaluate detect default_key_func cfg limiter v l, s'))
