-- ===== src/Sampling/Extremes.antt =====
-- Sampling at the ends of the range of rates.
use ratelimiter_redis.Base.{◌∙◌, ◌≡◌, refl, true, false, none, List, [], ◌∷◌, ap}
use ratelimiter_redis.Http.{Request, Handler}
use ratelimiter_redis.RateLimiter.Admission.{serve_all}
use ratelimiter_redis.Sampling.{RateFloat, clamp, with_request_sampling}

-- Of Float64: it draws from 0 on, and below 1.
pub record Draws {F G : Type 0} (float : RateFloat F) (float64 : G → F × G) : Type 0 where
  pub below_one : (g : G) → float.lt (float64 g).0 float.one ≡ true
  pub from_zero : (g : G) → float.lt (float64 g).0 float.zero ≡ false
  pub zero_first : float.lt float.one float.zero ≡ false

module _ {F G S : Type 0} (float : RateFloat F) (float64 : G → F × G) (draws : Draws float float64)
    (next : Handler S) where
  abbrev pub sampled : F → Handler (G × S)
  sampled rate =
      with_request_sampling float float64 (record { rate = rate; rejected_handler = none }) next

  clamp_above :
      (rate : F)
      → float.lt rate float.zero ≡ false
      → float.lt float.one rate ≡ true
      → clamp float float64 rate ≡ float.one
  unfolding clamp
  clamp_above rate h h' = rw (h, h') refl

  clamp_below : (rate : F) → float.lt rate float.zero ≡ true → clamp float float64 rate ≡ float.zero
  unfolding clamp
  clamp_below rate h = rw (h, draws.zero_first) refl

  sampled_above :
      (rate : F) (r : Request) (g : G) (s : S)
      → clamp float float64 rate ≡ float.one
      → (sampled rate r (g, s)).1.1 ≡ (next r s).1
  unfolding with_request_sampling
  sampled_above rate r g s h = rw (h, draws.below_one g) refl

  sampled_below :
      (rate : F) (r : Request) (g : G) (s : S)
      → clamp float float64 rate ≡ float.zero
      → (sampled rate r (g, s)).1.1 ≡ s
  unfolding with_request_sampling
  sampled_below rate r g s h = rw (h, draws.from_zero g) refl

  all_served :
      (rate : F) (rs : List Request) (g : G) (s : S)
      → clamp float float64 rate ≡ float.one
      → (serve_all (sampled rate) rs (g, s)).1 ≡ serve_all next rs s
  unfolding serve_all
  all_served rate [] g s h = refl
  all_served rate (r ∷ rs) g s h =
      all_served rate rs _ _ h ∙ ap (serve_all next rs) (sampled_above rate r g s h)

  none_served :
      (rate : F) (rs : List Request) (g : G) (s : S)
      → clamp float float64 rate ≡ float.zero
      → (serve_all (sampled rate) rs (g, s)).1 ≡ s
  unfolding serve_all
  none_served rate [] g s h = refl
  none_served rate (r ∷ rs) g s h = none_served rate rs _ _ h ∙ sampled_below rate r g s h

  -- With a rate above 1 every one of successive requests reaches the handler below, and with one below 0
  -- none does, whatever numbers are drawn.
  pub sampling_extremes :
      (low high : F) (rs : List Request) (g : G) (s : S)
      → float.lt low float.zero ≡ true
      → float.lt high float.zero ≡ false
      → float.lt float.one high ≡ true
      → ((serve_all (sampled high) rs (g, s)).1 ≡ serve_all next rs s)
        × ((serve_all (sampled low) rs (g, s)).1 ≡ s)
  sampling_extremes low high rs g s h h' h'' =
      (all_served high rs g s (clamp_above high h' h''), none_served low rs g s (clamp_below low h))
