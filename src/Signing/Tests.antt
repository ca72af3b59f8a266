-- ===== src/Signing/Tests.antt =====
-- The theorem on signatures with a toy code.
use text.Mathlib.TextLemmas.{cons≢nil}
use ratelimiter_redis.Base.Trim.{trim_space}
use ratelimiter_redis.Signing.{SigningOption, signing_config}
use ratelimiter_redis.Base.{
  inr, inl, Bool-cases, ◌≢◌, List, str_eq, ℕ, String, ◌≡◌, refl, [], ◌∷◌, if◌then◌else◌,
}
use ratelimiter_redis.Http.{Request}
use ratelimiter_redis.Http.Samples.{get_root, greets}
use ratelimiter_redis.Signing.{with_request_signing, with_signing_secret}
use ratelimiter_redis.Signing.Gate.{signed_passes, sign}

-- It tells whether the secret is the one here.
abbrev toy : String → String → String
toy secret payload = if str_eq secret "s3cret" then "1" else "0"

one_trimmed : trim_space "1" ≡ "1"
unfolding trim_space
one_trimmed = refl

zero_trimmed : trim_space "0" ≡ "0"
unfolding trim_space
zero_trimmed = refl

toy_digits :
    (secret payload : String)
    → (toy secret payload ≢ "") × (trim_space (toy secret payload) ≡ toy secret payload)
toy_digits secret payload = elim (Bool-cases (str_eq secret "s3cret")) [
  | inl e ↦ rw e (λ no. cons≢nil no, one_trimmed)
  | inr e ↦ rw e (λ no. cons≢nil no, zero_trimmed)
]

abbrev uri : Request → String
uri r = r.uri

abbrev options : List (SigningOption ℕ)
options = with_signing_secret "s3cret" ∷ []

abbrev signed : Request
signed = sign uri toy toy_digits (signing_config uri toy options) "s3cret" get_root

signed_passes_example : with_request_signing uri toy options greets signed 0 ≡ greets signed 0
signed_passes_example =
    signed_passes uri toy toy_digits options "s3cret" greets get_root 0 (λ v. refl)
