-- ===== src/RequestId/Agreement.antt =====
-- The client and the handler below see one identifier.
use ratelimiter_redis.Base.{String, ◌≡◌, refl, List, [], ◌∷◌, if◌then◌else◌, Bool-cases, inl, inr}
use ratelimiter_redis.Http.{Request, Handler, header_get, sent_header}
use ratelimiter_redis.Http.Headers.{get-header_set, sent-set_header}
use ratelimiter_redis.RequestId.{
  RequestIdConfig, RequestIdOption, new_request_id_config, draws, request_id, with_id,
  with_request_id,
}

request_id-with_id :
    (cfg : RequestIdConfig) (generated : String) (r : Request)
    → header_get (with_id cfg generated r).header cfg.header ≡ request_id cfg generated r
request_id-with_id cfg generated r = elim (Bool-cases (draws cfg r)) [
  | inl drawn ↦ rw drawn (get-header_set cfg.header generated r.header)
  | inr kept ↦ rw kept refl
]

-- The handler below reads in its request's header the same identifier that the client gets under that
-- name, unless the handler changes it; it is the incoming one, if there is one and the configuration
-- does not overwrite it, and the generated one otherwise.
pub ids_agree :
    {S : Type 0} (generated : String) (opts : List RequestIdOption) (next : Handler S) (r : Request)
    (s : S)
    → let cfg = new_request_id_config opts in
      let r' = with_id cfg generated r in
      let id = if draws cfg r then generated else header_get r.header cfg.header in
      (header_get r'.header cfg.header ≡ id)
      × (sent_header cfg.header [] (with_request_id generated opts next r s).0
          ≡ sent_header cfg.header (id ∷ []) (next r' s).0)
unfolding with_request_id
ids_agree generated opts next r s =
    let cfg = new_request_id_config opts in
    (
      request_id-with_id cfg generated r,
      sent-set_header cfg.header (request_id cfg generated r) []
          (next (with_id cfg generated r) s).0,
    )
