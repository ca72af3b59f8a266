-- ===== src/Fingerprint/Ports.antt =====
-- What a fingerprint depends on.
use Prim.Native.String.{◌++◌}
use ratelimiter_redis.Base.{◌∙◌, true, ap, String, ◌≡◌, refl, [], ◌∷◌}
use ratelimiter_redis.Base.Text.{ascii}
use ratelimiter_redis.Http.Headers.{get-header_set, sent-set_header}
use ratelimiter_redis.Fingerprint.{serve_fingerprint}
use ratelimiter_redis.Base.Trim.{colon, is_char, has_none, before_last-colon}
use ratelimiter_redis.Http.{Request, Handler, header_get, sent_header}
use ratelimiter_redis.Fingerprint.{FingerprintConfig, without_port, key_func, with_fingerprint}

-- The request from a port of an address.
abbrev pub from_port : String → String → Request → Request
from_port ip port r = record r { remote_addr = ip ++ ":" ++ port }

without_port-append :
    (ip port : String)
    → has_none (is_char colon) port ≡ true
    → without_port (ip ++ ":" ++ port) ≡ ip
unfolding without_port
without_port-append ip port h = rw (before_last-colon ip port h) refl

zero_free : has_none (is_char colon) "0" ≡ true
unfolding has_none colon ascii
zero_free = refl

abbrev pub fingerprint_header : String
fingerprint_header = "X-Request-Fingerprint"

module _ (sha256_8 : String → String) where
  key-port :
      (c : FingerprintConfig) (ip port : String) (r : Request)
      → has_none (is_char colon) port ≡ true
      → key_func sha256_8 c (from_port ip port r) ≡ key_func sha256_8 c (from_port ip "0" r)
  unfolding key_func
  key-port c ip port r h =
      rw (without_port-append ip port h, without_port-append ip "0" zero_free) refl

  -- For a request from any port of an address, the handler below reads in its request's header the
  -- fingerprint of the same request from port 0, and the client gets it too, unless the handler changes it.
  pub fingerprints_agree :
      {S : Type 0} (c : FingerprintConfig) (next : Handler S) (ip port : String) (r : Request)
      (s : S)
      → has_none (is_char colon) port ≡ true
      → let k = fingerprint_header in
        let r' = with_fingerprint sha256_8 c (from_port ip port r) in
        let id = key_func sha256_8 c (from_port ip "0" r) in
        (header_get r'.header k ≡ id)
        × (sent_header k [] (serve_fingerprint sha256_8 c next (from_port ip port r) s).0
            ≡ sent_header k (id ∷ []) (next r' s).0)
  fingerprints_agree c next ip port r s h =
      let k = fingerprint_header in
      (
        get-header_set k (key_func sha256_8 c (from_port ip port r)) r.header
            ∙ key-port c ip port r h,
        sent-set_header k (key_func sha256_8 c (from_port ip port r)) []
              (next (with_fingerprint sha256_8 c (from_port ip port r)) s).0
            ∙ ap
                (λ id.
                  sent_header k (id ∷ [])
                    (next (with_fingerprint sha256_8 c (from_port ip port r)) s).0)
                (key-port c ip port r h),
      )
