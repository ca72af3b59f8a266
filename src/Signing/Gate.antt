-- ===== src/Signing/Gate.antt =====
-- Which requests pass the check of their signature.
use ratelimiter_redis.Base.{
  String, ◌≡◌, ◌≢◌, refl, ◌∙◌, ap, List, if◌then◌else◌, str_eq, Bool-cases, inl, inr,
}
use ratelimiter_redis.Base.Trim.{trim_space, not_nil}
use ratelimiter_redis.Http.{Request, Handler, header_get, header_set}
use ratelimiter_redis.Http.Headers.{get-header_set}
use ratelimiter_redis.Signing.{SigningOption, SigningConfig, signing_config, with_request_signing}

module _ {S : Type 0} (request_uri : Request → String) (hmac_sha256 : String → String → String)
    (digits : (secret payload : String)
      → (hmac_sha256 secret payload ≢ "")
        × (trim_space (hmac_sha256 secret payload) ≡ hmac_sha256 secret payload)) where
  -- The request with the signature that its client computes with a secret.
  abbrev pub sign : SigningConfig S → String → Request → Request
  sign cfg secret r = record r {
    header = header_set cfg.header_name (hmac_sha256 secret (cfg.key_func r)) r.header;
  }

  -- The payload leaves out the header that carries the signature.
  abbrev pub LeavesOut : SigningConfig S → Request → Type 0
  LeavesOut cfg r =
      (v : String)
      → cfg.key_func (record r { header = header_set cfg.header_name v r.header }) ≡ cfg.key_func r

  signature_of :
      (cfg : SigningConfig S) (secret : String) (r : Request)
      → trim_space (header_get (sign cfg secret r).header cfg.header_name)
        ≡ hmac_sha256 secret (cfg.key_func r)
  signature_of cfg secret r =
      ap trim_space (get-header_set cfg.header_name (hmac_sha256 secret (cfg.key_func r)) r.header)
      ∙ (digits secret (cfg.key_func r)).1

  -- Where the middleware's key function does not look at the header that carries the signature, a request
  -- that its client signs with any secret is served exactly if the middleware's secret gives its payload the
  -- same signature, and answered by the handler for invalid ones otherwise. That holds for every HMAC that
  -- writes signatures which are not empty and neither begin nor end in white space.
  pub signed_passes :
      (opts : List (SigningOption S)) (secret : String) (next : Handler S) (r : Request) (s : S)
      → LeavesOut (signing_config request_uri hmac_sha256 opts) r
      → let cfg = signing_config request_uri hmac_sha256 opts in
        let r' = sign cfg secret r in
        with_request_signing request_uri hmac_sha256 opts next r' s ≡ (
          if str_eq (hmac_sha256 secret (cfg.key_func r)) (hmac_sha256 cfg.secret (cfg.key_func r))
          then next r' s
          else cfg.on_invalid r' s)
  unfolding with_request_signing
  signed_passes opts secret next r s out =
      let cfg = signing_config request_uri hmac_sha256 opts in
      rw
        (
          signature_of cfg secret r,
          not_nil (hmac_sha256 secret (cfg.key_func r)) (digits secret (cfg.key_func r)).0,
          out (hmac_sha256 secret (cfg.key_func r)),
        )
        (elim (Bool-cases (
          str_eq (hmac_sha256 secret (cfg.key_func r)) (hmac_sha256 cfg.secret (cfg.key_func r)))) [
            | inl e ↦ rw e refl
            | inr e ↦ rw e refl
          ])
