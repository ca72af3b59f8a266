-- ===== src/Fingerprint.antt =====
-- request_fingerprint.go and request_fingerprint_option.go. The first eight bytes of SHA-256, in
-- hexadecimal digits, are an argument.
pub mod Ports
mod Tests
use Prim.Native.String.{◌++◌}
use mathlib.Core.List.{◌++◌ as ◌+++◌}
use ratelimiter_redis.Base.{
  String, Bool, true, false, Option, none, some, List, [], ◌∷◌, if◌then◌else◌,
}
use ratelimiter_redis.Base.Trim.{before_last, is_char, colon}
use ratelimiter_redis.Http.{Header, Call, set_header, Request, Handler, header_get, header_set}

-- The field `keyFunc` is never used.
pub record FingerprintConfig : Type 0 where
  pub headers : List String
  pub include_ip : Bool
  pub include_path : Bool

abbrev pub FingerprintOption : Type 0
FingerprintOption = FingerprintConfig → FingerprintConfig

abbrev pub with_fingerprint_headers : List String → FingerprintOption
with_fingerprint_headers headers c = record c { headers = c.headers +++ headers }

abbrev pub with_fingerprint_ip : Bool → FingerprintOption
with_fingerprint_ip include c = record c { include_ip = include }

abbrev pub with_fingerprint_path : Bool → FingerprintOption
with_fingerprint_path include c = record c { include_path = include }

abbrev apply_options : List FingerprintOption → FingerprintConfig → FingerprintConfig
apply_options [] c = c
apply_options (o ∷ opts) c = apply_options opts (o c)

abbrev pub new_fingerprint_config : List FingerprintOption → FingerprintConfig
new_fingerprint_config opts =
    apply_options opts (record { headers = []; include_ip = true; include_path = true })

abbrev pub default_fingerprint_config : FingerprintConfig
default_fingerprint_config =
    new_fingerprint_config (with_fingerprint_ip true ∷ with_fingerprint_path true ∷ [])

abbrev pub fingerprint_by_user_agent : FingerprintConfig
fingerprint_by_user_agent = new_fingerprint_config (
    with_fingerprint_ip true
    ∷ with_fingerprint_path true
    ∷ with_fingerprint_headers ("User-Agent" ∷ [])
    ∷ [])

abbrev pub fingerprint_by_token : FingerprintConfig
fingerprint_by_token = new_fingerprint_config (
    with_fingerprint_ip false
    ∷ with_fingerprint_path false
    ∷ with_fingerprint_headers ("Authorization" ∷ [])
    ∷ [])

abbrev text_or : String → Option String → String
text_or s none = s
text_or s (some t) = t

-- ip[:strings.LastIndex(ip, ":")], or all of it.
unfoldable pub without_port : String → String
without_port addr = text_or addr (before_last (is_char colon) addr)

abbrev header_parts : List String → Header → List String
header_parts [] header = []
header_parts (h ∷ hs) header = (h ++ ":" ++ header_get header h) ∷ header_parts hs header

abbrev pub parts : FingerprintConfig → Request → List String
parts c r =
    (if c.include_ip then ("ip:" ++ without_port r.remote_addr) ∷ [] else [])
    +++ (if c.include_path then ("path:" ++ r.path) ∷ [] else [])
    +++ header_parts c.headers r.header

-- strings.Join
unfoldable pub join : String → List String → String
join sep [] = ""
join sep (s ∷ []) = s
join sep (s ∷ t ∷ ss) = s ++ sep ++ join sep (t ∷ ss)

module _ (sha256_8 : String → String) where
  -- The function that `KeyFunc` returns.
  unfoldable pub key_func : FingerprintConfig → Request → String
  key_func c r = sha256_8 (join "|" (parts c r))

  abbrev pub with_fingerprint : FingerprintConfig → Request → Request
  with_fingerprint c r = record r {
    header = header_set "X-Request-Fingerprint" (key_func c r) r.header;
  }

  abbrev pub serve_fingerprint : {S : Type 0} → FingerprintConfig → Handler S → Handler S
  serve_fingerprint c next r s =
      let (calls, s') = next (with_fingerprint c r) s in
      (set_header "X-Request-Fingerprint" (key_func c r) ∷ calls, s')

  -- WithRequestFingerprint: it panics where the configuration is nil.
  unfoldable pub with_request_fingerprint :
      {S : Type 0} → Option FingerprintConfig → Option (Handler S → Handler S)
  with_request_fingerprint none = none
  with_request_fingerprint (some c) = some (serve_fingerprint c)
