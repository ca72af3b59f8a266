-- ===== src/Signing.antt =====
-- request_signing.go and request_signing_option.go. HMAC-SHA256 with its digits, and r.URL.RequestURI(),
-- are arguments; `hmac.Equal` is the equality of texts.
pub mod Gate
mod Tests
use Prim.Native.String.{◌++◌}
use ratelimiter_redis.Base.{String, Bool, ◌&&◌, not, List, [], ◌∷◌, if◌then◌else◌, str_eq}
use ratelimiter_redis.Base.Trim.{trim_space}
use ratelimiter_redis.Http.{Call, Request, Handler, header_get, http_error}

pub record SigningConfig (S : Type 0) : Type 0 where
  pub secret : String
  pub header_name : String
  pub key_func : Request → String
  pub on_invalid : Handler S

abbrev pub SigningOption : Type 0 → Type 0
SigningOption S = SigningConfig S → SigningConfig S

module _ {S : Type 0} where
  abbrev pub with_signing_secret : String → SigningOption S
  with_signing_secret secret c = record c { secret = secret }

  abbrev pub with_signing_header : String → SigningOption S
  with_signing_header header c = record c { header_name = header }

  abbrev pub with_signing_key_func : (Request → String) → SigningOption S
  with_signing_key_func fn c = record c { key_func = fn }

  abbrev pub with_signing_invalid_handler : Handler S → SigningOption S
  with_signing_invalid_handler h c = record c { on_invalid = h }

  abbrev pub default_signing_invalid_handler : Handler S
  default_signing_invalid_handler r s =
      (http_error "Forbidden: invalid or missing request signature" 403, s)

  abbrev pub apply_options : List (SigningOption S) → SigningConfig S → SigningConfig S
  apply_options [] c = c
  apply_options (o ∷ opts) c = apply_options opts (o c)

-- ComputeSignature, of hmac.New(sha256.New, secret).Sum in hexadecimal digits.
abbrev pub compute_signature : (String → String → String) → String → String → String
compute_signature hmac_sha256 secret payload = hmac_sha256 secret payload

module _ (request_uri : Request → String) where
  abbrev pub default_signing_key_func : Request → String
  default_signing_key_func r = r.method ++ ":" ++ request_uri r

  abbrev pub signing_by_body_hash : String → Request → String
  signing_by_body_hash body_hash_header r =
      r.method ++ ":" ++ request_uri r ++ ":" ++ header_get r.header body_hash_header

  abbrev pub signing_by_api_key : String → Request → String
  signing_by_api_key api_key_header r =
      r.method ++ ":" ++ request_uri r ++ ":" ++ header_get r.header api_key_header

  module _ {S : Type 0} (hmac_sha256 : String → String → String) where
    -- The configuration that `WithRequestSigning` makes of the options; without one for it, the secret is nil.
    abbrev pub signing_config : List (SigningOption S) → SigningConfig S
    signing_config opts = apply_options opts (record {
      secret = "";
      header_name = "X-Signature";
      key_func = default_signing_key_func;
      on_invalid = default_signing_invalid_handler;
    })

    -- The handler that `WithRequestSigning` returns.
    unfoldable pub with_request_signing : List (SigningOption S) → Handler S → Handler S
    unfolding trim_space header_get
    with_request_signing opts next r s =
        let cfg = signing_config opts in
        let sig = trim_space (header_get r.header cfg.header_name) in
        let expected = compute_signature hmac_sha256 cfg.secret (cfg.key_func r) in
        if str_eq sig ""
        then cfg.on_invalid r s
        else if not (str_eq sig expected)
        then cfg.on_invalid r s
        else next r s
