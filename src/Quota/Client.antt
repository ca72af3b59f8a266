-- ===== src/Quota/Client.antt =====
-- What the client of `WithQuotaManager` reads, with the default handler for exceeded quotas.
use mathlib.Core.List.{◌++◌}
use ratelimiter_redis.Base.{String, ◌≡◌, refl, Option, none, some, Result, ok, err, List, [], ◌∷◌}
use ratelimiter_redis.Base.Text.{canonical}
use ratelimiter_redis.Store.{Store}
use ratelimiter_redis.Http.{Call, Request, Handler, status, sent_header}
use ratelimiter_redis.Quota.{
  later, ℤ, remaining, default_quota_limit_exceeded_handler, Quota, QuotaManager, Moments,
  check_all, remaining_header, attach, serve_checked, with_quota_manager,
}

-- By the result of `CheckAll`: what the client reads, and the state of the handler below, `s` before.
abbrev pub Answered :
    {S : Type 0} → Handler S → Request → S → Result (Option Quota) → List Call → S → Type 0
Answered next r s (err e) calls after = (status calls ≡ 500) × (after ≡ s)
Answered next r s (ok (some q)) calls after =
    (status calls ≡ 429) × (sent_header "X-Quota-Exceeded" [] calls ≡ q.name ∷ []) × (after ≡ s)
Answered next r s (ok none) calls after =
    (status calls ≡ status (next r s).0) × (after ≡ (next r s).1)

status-remaining_header :
    (q : Quota) (n : Result ℤ) (calls : List Call)
    → status (remaining_header q n calls) ≡ status calls
status-remaining_header q (err e) calls = refl
status-remaining_header q (ok n) calls = refl

append-remaining_header :
    (q : Quota) (n : Result ℤ) (calls more : List Call)
    → remaining_header q n calls ++ more ≡ remaining_header q n (calls ++ more)
append-remaining_header q (err e) calls more = refl
append-remaining_header q (ok n) calls more = refl

status-attach :
    {M : Type 0} (store : Store M) (mo : Moments) (request_key : String) (all qs : List Quota)
    (m : M) (calls : List Call)
    → status ((attach store mo request_key all qs m).0 ++ calls) ≡ status calls
unfolding attach
status-attach store mo request_key all [] m calls = refl
status-attach store mo request_key all (q ∷ qs) m calls =
    let (n, m') = remaining store (mo 0) q.name request_key all m in
    rw (append-remaining_header q n, status-remaining_header q n)
      (status-attach store (later mo) request_key all qs m' calls)

module _ {M S : Type 0} (store : Store M) (decrement : String → M → Result (Unit {0}) × M)
    (qm : QuotaManager) (next : Handler S) where
  checked_answer :
      (mo : Moments) (r : Request) (result : Result (Option Quota)) (m : M) (s : S)
      → let (calls, after) =
          serve_checked store mo qm default_quota_limit_exceeded_handler next r result (m, s) in
        Answered next r s result calls after.1
  unfolding serve_checked sent_header canonical
  checked_answer mo r (err e) m s = (refl, refl)
  checked_answer mo r (ok (some q)) m s = (refl, refl, refl)
  checked_answer mo r (ok none) m s =
      (status-attach store mo (qm.key_fn r) qm.quotas qm.quotas m (next r s).0, refl)

  -- Without a handler of the caller's for exceeded quotas, a client whose request exceeds a quota reads 429 and the quota's name, one whose request the store
  -- fails on reads 500, both without the handler below; any other reads the status of that handler.
  pub quota_answers :
      (check_moments mo : Moments) (r : Request) (m : M) (s : S)
      → let (calls, after) =
          with_quota_manager store decrement check_moments mo qm none next r (m, s) in
        Answered next r s
          (check_all store decrement check_moments (qm.key_fn r) qm.quotas m).0
          calls
          after.1
  unfolding with_quota_manager
  quota_answers check_moments mo r m s =
      let (result, m') = check_all store decrement check_moments (qm.key_fn r) qm.quotas m in
      checked_answer mo r result m' s
