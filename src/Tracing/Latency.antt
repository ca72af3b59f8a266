-- ===== src/Tracing/Latency.antt =====
-- Which of the tracing's headers reach the client.
use mathlib.Core.List.{◌++◌}
use ratelimiter_redis.Base.{
  arith, ap, sym, ◌∙◌, String, ◌≡◌, refl, Bool, true, false, Option, List, [], ◌∷◌, if◌then◌else◌,
  Bool-cases, inl, inr,
}
use ratelimiter_redis.Base.Clock.{Duration}
use ratelimiter_redis.Base.Text.{itoa}
use ratelimiter_redis.Http.{
  Call, set_header, add_header, del_header, write_header, write, Request, Handler, sent_header,
  is_informational,
}
use ratelimiter_redis.Tracing.{
  milliseconds, TracingConfig, Generator, config_or, identifiers, with_ids, with_request_tracing,
}

-- The status line goes out: there is a final status or a write.
abbrev pub commits : List Call → Bool
commits [] = false
commits (write_header c ∷ cs) = let rest = commits cs in if is_informational c then rest else true
commits (write b ∷ cs) = true
commits (_ ∷ cs) = commits cs

late_header :
    (calls late : List Call) (k : String) (vs : List String)
    → commits calls ≡ true
    → sent_header k vs (calls ++ late) ≡ sent_header k vs calls
unfolding sent_header
late_header [] late k vs h = ground (arith, h)
late_header (write_header c ∷ cs) late k vs h = elim (Bool-cases (is_informational c)) [
  | inl e ↦ rw e (late_header cs late k vs (ap (λ b. if b then commits cs else true) (sym e) ∙ h))
  | inr e ↦ rw e refl
]
late_header (write b ∷ cs) late k vs h = refl
late_header (set_header j v ∷ cs) late k vs h = late_header cs late k _ h
late_header (add_header j v ∷ cs) late k vs h = late_header cs late k _ h
late_header (del_header j ∷ cs) late k vs h = late_header cs late k _ h

-- Where the handler below sends a status or a body, every header that the client reads, the latency's
-- too, is as if the latency had never been set: it is set when the headers are gone.
pub latency_too_late :
    {S : Type 0} (default_generator : Generator S) (latency : Duration)
    (config : Option (TracingConfig S)) (next : Handler S) (r : Request) (s : S) (k : String)
    → let cfg = config_or default_generator config in
      let ((trace_id, span_id), s1) = identifiers cfg r s in
      let calls = (next (with_ids cfg (trace_id, span_id) r) s1).0 in
      commits calls ≡ true
      → sent_header k [] (with_request_tracing default_generator latency config next r s).0
        ≡ sent_header k [] (
            set_header cfg.trace_id_header trace_id ∷ set_header cfg.span_id_header span_id ∷ calls)
unfolding with_request_tracing sent_header
latency_too_late default_generator latency config next r s k h =
    let cfg = config_or default_generator config in
    let ((trace_id, span_id), s1) = identifiers cfg r s in
    let calls = (next (with_ids cfg (trace_id, span_id) r) s1).0 in
    let late = set_header cfg.latency_header (itoa (milliseconds latency)) ∷ [] in
    late_header
      (set_header cfg.trace_id_header trace_id ∷ set_header cfg.span_id_header span_id ∷ calls) late
      k [] h
