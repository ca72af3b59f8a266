-- ===== src/Fingerprint/Tests.antt =====
-- The theorem on fingerprints at a concrete request.
use Prim.Native.String.{◌++◌}
use ratelimiter_redis.Base.{String, ◌≡◌, refl, [], ◌∷◌}
use ratelimiter_redis.Base.Trim.{has_none, colon, before_last}
use ratelimiter_redis.Http.{header_get, sent_header}
use ratelimiter_redis.Http.Samples.{get_root, greets}
use ratelimiter_redis.Fingerprint.{
  join, without_port, key_func, default_fingerprint_config, with_fingerprint, serve_fingerprint,
}
use ratelimiter_redis.Fingerprint.Ports.{from_port, fingerprint_header, fingerprints_agree}

abbrev marked : String → String
marked s = "#" ++ s

fingerprints_agree_test :
    (header_get
        (with_fingerprint marked default_fingerprint_config
          (from_port "10.0.0.1" "4711" get_root)).header
        fingerprint_header
      ≡ "#ip:10.0.0.1|path:/")
    × (sent_header fingerprint_header []
          (serve_fingerprint marked default_fingerprint_config greets
            (from_port "10.0.0.1" "4711" get_root)
            0).0
        ≡ "#ip:10.0.0.1|path:/" ∷ [])
unfolding sent_header header_get key_func has_none colon without_port join before_last
fingerprints_agree_test =
    fingerprints_agree marked default_fingerprint_config greets "10.0.0.1" "4711" get_root 0 refl
