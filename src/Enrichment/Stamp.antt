-- ===== src/Enrichment/Stamp.antt =====
-- What the client gets from an enriched response.
use mathlib.Core.List.{◌++◌ as ◌+++◌}
use ratelimiter_redis.Base.{
  eq_iff, ℕ, String, ◌≡◌, refl, ap, ◌∙◌, Bool, true, false, Option, List, [], ◌∷◌, str_eq,
  Bool-cases, inl, inr,
}
use ratelimiter_redis.Base.Clock.{Duration}
use ratelimiter_redis.Base.Text.{canonical}
use ratelimiter_redis.Http.{
  is_informational, Call, set_header, add_header, del_header, write_header, write, Request, Handler,
  relay, status, written, sent_header, NoInformational,
}
use ratelimiter_redis.Tracing.{milliseconds}
use ratelimiter_redis.Adaptive.{adaptive_itoa}
use ratelimiter_redis.Enrichment.{
  EnrichmentConfig, config_or, with_time, stamp, finish, enrichment_writer, with_request_enrichment,
}

module _ (cfg : EnrichmentConfig) (latency : Duration) where
  after_header :
      (calls : List Call) → relay (enrichment_writer cfg latency) true calls ≡ (true, calls)
  unfolding relay enrichment_writer
  after_header [] = refl
  after_header (write_header c ∷ cs) = rw (after_header cs) refl
  after_header (write b ∷ cs) = rw (after_header cs) refl
  after_header (set_header k v ∷ cs) = rw (after_header cs) refl
  after_header (add_header k v ∷ cs) = rw (after_header cs) refl
  after_header (del_header k ∷ cs) = rw (after_header cs) refl

  -- What the handler's calls become.
  abbrev pub enriched : List Call → List Call
  enriched calls = finish cfg latency (relay (enrichment_writer cfg latency) false calls)

  stamp-append :
      (c : ℕ) (xs ys : List Call) → stamp cfg latency c xs +++ ys ≡ stamp cfg latency c (xs +++ ys)
  unfolding stamp
  stamp-append c xs ys = elim (Bool-cases (str_eq cfg.server_header "")) [
    | inl e ↦ rw e refl
    | inr e ↦ rw e refl
  ]

  finish-cons :
      (call : Call) (p : Bool × List Call)
      → finish cfg latency (p.0, call ∷ p.1) ≡ call ∷ finish cfg latency p
  unfolding finish
  finish-cons call (true, out) = refl
  finish-cons call (false, out) = refl

  -- The calls up to the first `WriteHeader` or `Write` are the handler's.
  abbrev rest_of : Call → List Call → List Call
  rest_of (write_header c) calls = stamp cfg latency c calls
  rest_of (write b) calls = stamp cfg latency 200 (write b ∷ calls)
  rest_of call calls = call ∷ enriched calls

  stamped :
      (c : ℕ) (xs calls : List Call)
      → finish cfg latency (true, stamp cfg latency c xs +++ calls)
        ≡ stamp cfg latency c (xs +++ calls)
  unfolding finish
  stamped c xs calls = stamp-append c xs calls

  enriched-cons : (call : Call) (calls : List Call) → enriched (call ∷ calls) ≡ rest_of call calls
  unfolding relay enrichment_writer
  enriched-cons (write_header c) calls = rw (after_header calls) (stamped c [] calls)
  enriched-cons (write b) calls = rw (after_header calls) (stamped 200 (write b ∷ []) calls)
  enriched-cons (set_header k v) calls =
      finish-cons (set_header k v) (relay (enrichment_writer cfg latency) false calls)
  enriched-cons (add_header k v) calls =
      finish-cons (add_header k v) (relay (enrichment_writer cfg latency) false calls)
  enriched-cons (del_header k) calls =
      finish-cons (del_header k) (relay (enrichment_writer cfg latency) false calls)

  enriched-nil : enriched [] ≡ stamp cfg latency 200 []
  unfolding relay finish
  enriched-nil = refl

  status-stamp :
      (c : ℕ) (calls : List Call)
      → status (stamp cfg latency c calls) ≡ status (write_header c ∷ calls)
  unfolding stamp
  status-stamp c calls = elim (Bool-cases (str_eq cfg.server_header "")) [
    | inl e ↦ rw e refl
    | inr e ↦ rw e refl
  ]

  written-stamp : (c : ℕ) (calls : List Call) → written (stamp cfg latency c calls) ≡ written calls
  unfolding stamp
  written-stamp c calls = elim (Bool-cases (str_eq cfg.server_header "")) [
    | inl e ↦ rw e refl
    | inr e ↦ rw e refl
  ]

  enriched-status : (calls : List Call) → status (enriched calls) ≡ status calls
  enriched-status [] = ap status enriched-nil ∙ status-stamp 200 []
  enriched-status (write_header c ∷ cs) =
      ap status (enriched-cons (write_header c) cs) ∙ status-stamp c cs
  enriched-status (write b ∷ cs) =
      ap status (enriched-cons (write b) cs) ∙ status-stamp 200 (write b ∷ cs)
  enriched-status (set_header k v ∷ cs) =
      ap status (enriched-cons (set_header k v) cs) ∙ enriched-status cs
  enriched-status (add_header k v ∷ cs) =
      ap status (enriched-cons (add_header k v) cs) ∙ enriched-status cs
  enriched-status (del_header k ∷ cs) =
      ap status (enriched-cons (del_header k) cs) ∙ enriched-status cs

  enriched-written : (calls : List Call) → written (enriched calls) ≡ written calls
  enriched-written [] = ap written enriched-nil ∙ written-stamp 200 []
  enriched-written (write_header c ∷ cs) =
      ap written (enriched-cons (write_header c) cs) ∙ written-stamp c cs
  enriched-written (write b ∷ cs) =
      ap written (enriched-cons (write b) cs) ∙ written-stamp 200 (write b ∷ cs)
  enriched-written (set_header k v ∷ cs) =
      ap written (enriched-cons (set_header k v) cs) ∙ enriched-written cs
  enriched-written (add_header k v ∷ cs) =
      ap written (enriched-cons (add_header k v) cs) ∙ enriched-written cs
  enriched-written (del_header k ∷ cs) =
      ap written (enriched-cons (del_header k) cs) ∙ enriched-written cs

  module _
      (apart : str_eq (canonical cfg.server_header_name) (canonical cfg.latency_header)
        ≡ false) where
    abbrev pub latency_text : String
    latency_text = adaptive_itoa (milliseconds latency)

    stamp-latency :
        (c : ℕ) (vs : List String) (calls : List Call)
        → is_informational c ≡ false
        → sent_header cfg.latency_header vs (stamp cfg latency c calls) ≡ latency_text ∷ []
    unfolding sent_header stamp
    stamp-latency c vs calls h = elim (Bool-cases (str_eq cfg.server_header "")) [
      | inl e ↦
          rw (e, (eq_iff (canonical cfg.latency_header) (canonical cfg.latency_header)).1 refl, h)
            refl
      | inr e ↦
          rw
            (
              e,
              apart,
              (eq_iff (canonical cfg.latency_header) (canonical cfg.latency_header)).1 refl,
              h,
            )
            refl
    ]

    enriched-latency :
        (calls : List Call) (vs : List String)
        → NoInformational calls
        → sent_header cfg.latency_header vs (enriched calls) ≡ latency_text ∷ []
    unfolding sent_header
    enriched-latency [] vs h = rw enriched-nil (stamp-latency 200 vs [] refl)
    enriched-latency (write_header c ∷ cs) vs (h, hs) =
        rw (enriched-cons (write_header c) cs) (stamp-latency c vs cs h)
    enriched-latency (write b ∷ cs) vs h =
        rw (enriched-cons (write b) cs) (stamp-latency 200 vs (write b ∷ cs) refl)
    enriched-latency (set_header k v ∷ cs) vs h =
        rw (enriched-cons (set_header k v) cs) (enriched-latency cs _ h)
    enriched-latency (add_header k v ∷ cs) vs h =
        rw (enriched-cons (add_header k v) cs) (enriched-latency cs _ h)
    enriched-latency (del_header k ∷ cs) vs h =
        rw (enriched-cons (del_header k) cs) (enriched-latency cs _ h)

-- Where the handler below announces no informational status, and the names of the server's header and of
-- the latency's differ in their canonical form, the client gets the status and the body of that handler, and
-- the latency, whatever the handler does to the header of that name: it is set when the headers are about
-- to go out.
pub latency_reaches :
    {S : Type 0} (now : String) (latency : Duration) (config : Option EnrichmentConfig)
    (next : Handler S) (r : Request) (s : S)
    → let cfg = config_or config in
      let calls = (next (with_time cfg now r) s).0 in
      let out = (with_request_enrichment now latency config next r s).0 in
      str_eq (canonical cfg.server_header_name) (canonical cfg.latency_header) ≡ false
      → NoInformational calls
      → (status out ≡ status calls)
        × (written out ≡ written calls)
        × (sent_header cfg.latency_header [] out ≡ adaptive_itoa (milliseconds latency) ∷ [])
unfolding with_request_enrichment
latency_reaches now latency config next r s apart h =
    let cfg = config_or config in
    let calls = (next (with_time cfg now r) s).0 in
    (
      enriched-status cfg latency calls,
      enriched-written cfg latency calls,
      enriched-latency cfg latency apart calls [] h,
    )
