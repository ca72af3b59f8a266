-- ===== src/KeyFunc.antt =====
-- ip_key_func.go. `net.ParseIP(s) != nil` is an argument, and so is net.SplitHostPort, which is `none`
-- on an error and the host otherwise.
pub mod Sources
mod Tests
use Prim.Native.String.{◌++◌}
use ratelimiter_redis.Base.{
  String, Bool, true, false, Option, none, some, ◌&&◌, if◌then◌else◌, str_eq,
}
use ratelimiter_redis.Base.Trim.{trim_space, before_first, is_char, comma}
use ratelimiter_redis.Http.{Request, header_get}

module _ (parses : String → Bool) (host : String → Option String) where
  -- The address that the connection comes from.
  abbrev host_or : String → Option String → String
  host_or addr none = addr
  host_or addr (some ip) = ip

  abbrev pub peer : Request → String
  peer r = host_or r.remote_addr (host r.remote_addr)

  abbrev real_ip_or : String → String → String
  real_ip_or fallback xri =
      let ip = trim_space xri in
      if str_eq xri "" then fallback else if parses ip then ip else fallback

  abbrev forwarded_or : String → String → String
  forwarded_or fallback xff =
      let ip = trim_space (before_first (is_char comma) xff) in
      if str_eq xff "" then fallback else if parses ip then ip else fallback

  -- The function that `IPKeyFunc` returns.
  unfoldable pub ip_key_func : Bool → Request → String
  unfolding trim_space before_first comma header_get
  ip_key_func trust_proxies r =
      if trust_proxies
      then forwarded_or (real_ip_or (peer r) (header_get r.header "X-Real-IP"))
          (header_get r.header "X-Forwarded-For")
      else peer r

  -- The function that `RouteKeyFunc` returns.
  unfoldable pub route_key_func : Bool → Request → String
  unfolding ip_key_func
  route_key_func trust_proxies r = ip_key_func trust_proxies r ++ ":" ++ r.path
