-- ===== src/Quota/Tests.antt =====
-- The quotas' theorems at concrete requests, over a store that counts for all keys together.
use Prim.Native.String.{String}
use ratelimiter_redis.Base.{arith, ◌-◌, ℕ, suc, ◌≡◌, refl, none, Result, ok, [], ◌∷◌, true}
use ratelimiter_redis.Base.Int.{pos}
use ratelimiter_redis.Base.Clock.{seconds}
use ratelimiter_redis.Http.{sent_header, status}
use ratelimiter_redis.Http.Samples.{get_root, greets}
use ratelimiter_redis.Quota.{
  new_quota_manager, QuotaManager, with_quota_manager, Store, Quota, Moments, check_all,
}
use ratelimiter_redis.Quota.Charging.{BlockedAt, charged, passes_within, blocked_keeps_charges}
use ratelimiter_redis.Quota.Client.{quota_answers}

abbrev counting : Store ℕ
counting = record {
  increment = λ mo key window n. (ok (pos (suc n)), suc n);
  get = λ mo key n. (ok (pos n), n);
  set = λ mo key v window n. (ok tt, n);
  set_nx = λ mo key v window n. (ok true, n);
  ttl = λ mo key n. (ok (seconds 60), n);
  delete = λ key n. (ok tt, 0);
  ping = λ n. (ok tt, n);
}

abbrev decrement : String → ℕ → Result (Unit {0}) × ℕ
decrement key n = (ok tt, n - 1)

abbrev at : Moments
at i = record { first = seconds i; second = seconds i }

abbrev hourly : Quota
hourly = record { name = "hourly"; limit = pos 5; window = seconds 3600 }

abbrev narrow : Quota
narrow = record { name = "narrow"; limit = pos 1; window = seconds 60 }

abbrev manager : QuotaManager
manager = new_quota_manager (λ r. r.remote_addr) none (hourly ∷ narrow ∷ [])

passes_within_test : check_all counting decrement at "k" (narrow ∷ hourly ∷ []) 0 ≡ (ok none, 2)
unfolding charged
passes_within_test =
    passes_within counting decrement "k" (narrow ∷ hourly ∷ []) at 0
      (omega arith, (omega arith, tt))

-- The first quota is still charged, the second no more.
blocked_keeps_charges_example :
    BlockedAt counting decrement "k" at 0
      (hourly ∷ narrow ∷ [])
      narrow
      (check_all counting decrement at "k" (hourly ∷ narrow ∷ []) 0).1
unfolding check_all
blocked_keeps_charges_example =
    blocked_keeps_charges counting decrement "k" (hourly ∷ narrow ∷ []) at 0 narrow refl

quota_answers_example :
    let (calls, after) =
      with_quota_manager counting decrement at at manager none greets get_root (0, 7) in
    (status calls ≡ 429) × (sent_header "X-Quota-Exceeded" [] calls ≡ "narrow" ∷ []) × (after.1 ≡ 7)
unfolding check_all
quota_answers_example = quota_answers counting decrement manager greets at at get_root 0 7
