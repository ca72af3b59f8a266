-- ===== src/KeyFunc/Sources.antt =====
-- Where the key of a request comes from.
use Prim.Native.String.{◌++◌}
use ratelimiter_redis.Base.{
  ◌∙◌, String, Bool, true, false, Option, ◌≡◌, refl, ◌⊎◌, inl, inr, Bool-cases, str_eq,
}
use text.Mathlib.TextLemmas.{append-ne-nil_of_right_ne-nil}
use ratelimiter_redis.Base.Trim.{
  not_nil, comma_not_nil, trim_space, before_first, before_first-comma, is_char, comma, has_none,
}
use ratelimiter_redis.Http.{Request, header_get, header_set}
use ratelimiter_redis.Http.Headers.{get-header_set}
use ratelimiter_redis.KeyFunc.{real_ip_or, forwarded_or, ip_key_func, peer}

module _ (parses : String → Bool) (host : String → Option String) where
  real_ip-IsAddress :
      (fallback xri : String)
      → (parses (real_ip_or parses host fallback xri) ≡ true)
        ⊎ (real_ip_or parses host fallback xri ≡ fallback)
  real_ip-IsAddress fallback xri = elim (Bool-cases (str_eq xri "")) [
    | inl e ↦ inr (rw e refl)
    | inr e ↦ elim (Bool-cases (parses (trim_space xri))) [
      | inl p ↦ inl (rw (e, p) p)
      | inr p ↦ inr (rw (e, p) refl)
    ]
  ]

  forwarded-IsAddress :
      (fallback xff : String)
      → (parses (forwarded_or parses host fallback xff) ≡ true)
        ⊎ (forwarded_or parses host fallback xff ≡ fallback)
  forwarded-IsAddress fallback xff = elim (Bool-cases (str_eq xff "")) [
    | inl e ↦ inr (rw e refl)
    | inr e ↦ elim (Bool-cases (parses (trim_space (before_first (is_char comma) xff)))) [
      | inl p ↦ inl (rw (e, p) p)
      | inr p ↦ inr (rw (e, p) refl)
    ]
  ]

  through :
      (a b c : String)
      → (parses a ≡ true) ⊎ (a ≡ b)
      → (parses b ≡ true) ⊎ (b ≡ c)
      → (parses a ≡ true) ⊎ (a ≡ c)
  through a b c (inl p) h = inl p
  through a b c (inr e) (inl p) = inl (rw e p)
  through a b c (inr e) (inr e') = inr (e ∙ e')

  -- A key is an address, or else what the connection's peer is called; without trust in proxies it is
  -- always the latter, whatever the headers say.
  pub key_sources :
      (trust : Bool) (r : Request)
      → ((parses (ip_key_func parses host trust r) ≡ true)
          ⊎ (ip_key_func parses host trust r ≡ peer parses host r))
        × (ip_key_func parses host false r ≡ peer parses host r)
  unfolding ip_key_func
  key_sources false r = (inr refl, refl)
  key_sources true r = (
    through (ip_key_func parses host true r)
        (real_ip_or parses host (peer parses host r) (header_get r.header "X-Real-IP"))
        (peer parses host r)
        (forwarded-IsAddress
          (real_ip_or parses host (peer parses host r) (header_get r.header "X-Real-IP"))
          (header_get r.header "X-Forwarded-For"))
        (real_ip-IsAddress (peer parses host r) (header_get r.header "X-Real-IP")),
    refl,
  )

  -- Behind a trusted proxy, which appends to the list that it received, the client chooses its own key: it
  -- is the first entry of X-Forwarded-For, if that is an address.
  pub client_chooses :
      (r : Request) (a rest : String)
      → has_none (is_char comma) a ≡ true
      → parses (trim_space a) ≡ true
      → ip_key_func parses host true
          (record r { header = header_set "X-Forwarded-For" (a ++ "," ++ rest) r.header })
        ≡ trim_space a
  unfolding ip_key_func
  client_chooses r a rest free ok =
      rw
        (
          get-header_set "X-Forwarded-For" (a ++ "," ++ rest) r.header,
          before_first-comma a rest free,
          ok,
          not_nil (a ++ "," ++ rest) (append-ne-nil_of_right_ne-nil a (comma_not_nil rest)),
        )
        refl
