-- ===== src/Metrics/Middleware.antt =====
-- metrics_middleware.go.
use ratelimiter_redis.Base.{
  ℕ, ◌≡◌, refl, Bool, true, false, Option, none, some, List, [], ◌∷◌, arith, ◌==◌, if◌then◌else◌,
}
use ratelimiter_redis.Http.{
  Call, set_header, add_header, del_header, write_header, write, Request, Handler, Pointer, null,
  target, Wrapper, relay, status, is_informational, NoInformational,
}
use ratelimiter_redis.Metrics.{Metrics, record_allowed, record_blocked}

pub record MetricsResponseWriter : Type 0 where
  pub code : ℕ
  pub wrote : Bool

abbrev pub metrics_writer : Wrapper MetricsResponseWriter
metrics_writer w (write_header c) =
    (if w.wrote then w else record { code = c; wrote = true }, write_header c ∷ [])
metrics_writer w (write b) =
    (if w.wrote then w else record { code = 200; wrote = true }, write b ∷ [])
metrics_writer w c = (w, c ∷ [])

-- The handler that `WithMetrics` returns; its state is the counters and that of the handler below.
unfoldable pub metrics_handler : {S : Type 0} → Handler S → Handler (Metrics × S)
metrics_handler next r (m, s) =
    let (calls, s') = next r s in
    let (w, out) = relay metrics_writer (record { code = 200; wrote = false }) calls in
    (out, ((if w.code == 429 then record_blocked m else record_allowed m), s'))

pub with_metrics : {S : Type 0} → Handler S → Pointer → Option (Handler (Metrics × S))
with_metrics next null = none
with_metrics next target = some (metrics_handler next)

relay_wrote :
    (n : ℕ) (cs : List Call)
    → relay metrics_writer (record { code = n; wrote = true }) cs
      ≡ (record { code = n; wrote = true }, cs)
unfolding relay
relay_wrote n [] = refl
relay_wrote n (write_header c ∷ cs) = rw (relay_wrote n cs)
relay_wrote n (set_header k v ∷ cs) = rw (relay_wrote n cs)
relay_wrote n (add_header k v ∷ cs) = rw (relay_wrote n cs)
relay_wrote n (del_header k ∷ cs) = rw (relay_wrote n cs)
relay_wrote n (write b ∷ cs) = rw (relay_wrote n cs)

abbrev fresh : MetricsResponseWriter
fresh = record { code = 200; wrote = false }

relay-fresh :
    (cs : List Call)
    → NoInformational cs
    → ((relay metrics_writer fresh cs).0.code ≡ status cs)
      × ((relay metrics_writer fresh cs).1 ≡ cs)
unfolding relay
relay-fresh [] h = (refl, refl)
relay-fresh (write_header c ∷ cs) h = rw (relay_wrote c cs, h.0) (refl, refl)
relay-fresh (set_header k v ∷ cs) h = ground (arith, relay-fresh cs h)
relay-fresh (add_header k v ∷ cs) h = ground (arith, relay-fresh cs h)
relay-fresh (del_header k ∷ cs) h = ground (arith, relay-fresh cs h)
relay-fresh (write b ∷ cs) h = rw (relay_wrote 200 cs) (refl, refl)

-- If the handler below announces no informational status, the client gets what that handler wrote, and the
-- request counts as blocked exactly if the client reads the status 429.
pub metrics_count_status :
    {S : Type 0} (next : Handler S) (r : Request) (m : Metrics) (s : S)
    → NoInformational (next r s).0
    → metrics_handler next r (m, s) ≡ (
      (next r s).0,
      ((if status (next r s).0 == 429 then record_blocked m else record_allowed m), (next r s).1),
    )
unfolding metrics_handler
metrics_count_status next r m s h =
    rw ((relay-fresh (next r s).0 h).0, (relay-fresh (next r s).0 h).1)

not_429 : (c : ℕ) → is_informational c ≡ true → (c == 429) ≡ false
not_429 c h = ground arith

-- A response that announces an informational status first counts as allowed, whatever status the
-- client then reads: 429 too.
pub informational_hides_block :
    {S : Type 0} (next : Handler S) (r : Request) (m : Metrics) (s : S) (c : ℕ) (cs : List Call)
    → is_informational c ≡ true
    → (next r s).0 ≡ write_header c ∷ write_header 429 ∷ cs
    → (status (next r s).0 ≡ 429)
      × ((metrics_handler next r (m, s)).1 ≡ (record_allowed m, (next r s).1))
unfolding metrics_handler relay
informational_hides_block next r m s c cs h e =
    rw (e, relay_wrote c cs, h, not_429 c h) (refl, refl)
