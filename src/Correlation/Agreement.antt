-- ===== src/Correlation/Agreement.antt =====
-- The client and the handler below see one identifier, up to white space.
use ratelimiter_redis.Base.{sym, ap, String, ◌≡◌, [], ◌∷◌, Bool-cases, inl, inr, Option}
use ratelimiter_redis.Base.Trim.{trim_space, trim_twice}
use ratelimiter_redis.Http.{Request, Handler, header_get, sent_header}
use ratelimiter_redis.Http.Headers.{get-header_set, sent-set_header}
use ratelimiter_redis.Correlation.{
  CorrelationConfig, config_or, draws, correlation_id, with_id, with_request_correlation,
}

incoming-with_id :
    (cfg : CorrelationConfig) (generated : String) (r : Request)
    → trim_space (header_get (with_id cfg generated r).header cfg.incoming_header)
      ≡ trim_space (correlation_id cfg generated r)
incoming-with_id cfg generated r = elim (Bool-cases (draws cfg r)) [
  | inl drawn ↦ rw drawn (ap trim_space (get-header_set cfg.incoming_header generated r.header))
  | inr kept ↦ rw kept (sym (trim_twice (header_get r.header cfg.incoming_header)))
]

-- The handler below reads in the incoming header, up to white space, the identifier that the client gets in
-- the outgoing one, unless the handler changes that.
pub correlation_agrees :
    {S : Type 0} (generated : String) (config : Option CorrelationConfig) (next : Handler S)
    (r : Request) (s : S)
    → let cfg = config_or config in
      let r' = with_id cfg generated r in
      let id = correlation_id cfg generated r in
      (trim_space (header_get r'.header cfg.incoming_header) ≡ trim_space id)
      × (sent_header cfg.outgoing_header [] (with_request_correlation generated config next r s).0
          ≡ sent_header cfg.outgoing_header (id ∷ []) (next r' s).0)
unfolding with_request_correlation
correlation_agrees generated config next r s =
    let cfg = config_or config in
    (
      incoming-with_id cfg generated r,
      sent-set_header cfg.outgoing_header (correlation_id cfg generated r) []
          (next (with_id cfg generated r) s).0,
    )
