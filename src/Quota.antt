-- ===== src/Quota.antt =====
-- quota.go and quota_middleware.go: named quotas that share a `Store`. The program calls a `Decrement`
-- on it that store.go does not declare; it is an argument, `decrement`. The moments of the store's
-- readings of the clock are a function of the number of the call in the loop.
pub mod Charging
pub mod Client
mod Tests
use Prim.Native.String.{◌++◌}
use mathlib.Core.List.{◌++◌ as ◌+++◌}
use ratelimiter_redis.Base.{
  ℕ, suc, String, Bool, true, false, Option, none, some, Result, ok, err, List, [], ◌∷◌,
  if◌then◌else◌, str_eq,
}
use ratelimiter_redis.Base.Int.{ℤ, pos, sub64, ltb_ℤ}
use ratelimiter_redis.Base.Clock.{Duration, Moment}
use ratelimiter_redis.Base.Text.{itoa, quote}
use ratelimiter_redis.Store.{Store}
use ratelimiter_redis.Http.{Call, set_header, Request, Handler, http_error}

pub record Quota : Type 0 where
  pub name : String
  pub limit : ℤ
  pub window : Duration

pub record QuotaManager : Type 0 where
  pub key_fn : Request → String
  pub quotas : List Quota

-- NewQuotaManager; the first argument is `defaultKeyFunc`, and `none` stands for a nil `keyFn`.
abbrev pub new_quota_manager :
    (Request → String) → Option (Request → String) → List Quota → QuotaManager
new_quota_manager default_key_func none qs = record { key_fn = default_key_func; quotas = qs }
new_quota_manager default_key_func (some f) qs = record { key_fn = f; quotas = qs }

-- fmt.Sprintf("quota:%s:%s", q.Name, requestKey)
abbrev pub quota_key : Quota → String → String
quota_key q request_key = "quota:" ++ q.name ++ ":" ++ request_key

abbrev pub Moments : Type 0
Moments = ℕ → Moment

abbrev pub later : Moments → Moments
later mo i = mo (suc i)

module _ {M : Type 0} (store : Store M) (decrement : String → M → Result (Unit {0}) × M) where
  -- What an iteration of the loop makes of the count: it stops at an error or at an exceeded quota, and
  -- goes on with `rest` otherwise.
  abbrev pub judge :
      Quota → String → Result ℤ → M → Result (Option Quota) × M → Result (Option Quota) × M
  judge q key (err e) m rest = (err ("quota " ++ q.name ++ ": " ++ e), m)
  judge q key (ok count) m rest =
      if ltb_ℤ q.limit count then (ok (some q), (decrement key m).1) else rest

  -- CheckAll
  unfoldable pub check_all : Moments → String → List Quota → M → Result (Option Quota) × M
  check_all mo request_key [] m = (ok none, m)
  check_all mo request_key (q ∷ qs) m =
      let key = quota_key q request_key in
      let (count, m') = store.increment (mo 0) key q.window m in
      let rest = check_all (later mo) request_key qs m' in judge q key count m' rest

-- What is left of a quota at the count that the store returns.
abbrev pub left_of : Quota → Result ℤ → Result ℤ
left_of q (err e) = err e
left_of q (ok count) =
    let remaining = sub64 q.limit count in ok (if ltb_ℤ remaining (pos 0) then pos 0 else remaining)

-- Remaining
unfoldable pub remaining :
    {M : Type 0} → Store M → Moment → String → String → List Quota → M → Result ℤ × M
remaining store mo quota_name request_key [] m =
    (err ("quota " ++ quote quota_name ++ " not found"), m)
remaining store mo quota_name request_key (q ∷ qs) m =
    let rest = remaining store mo quota_name request_key qs m in
    let (count, m') = store.get mo (quota_key q request_key) m in
    if str_eq q.name quota_name then (left_of q count, m') else rest

abbrev pub QuotaHandler : Type 0 → Type 0
QuotaHandler S = Request → Quota → S → List Call × S

abbrev pub default_quota_limit_exceeded_handler : {S : Type 0} → QuotaHandler S
default_quota_limit_exceeded_handler r q s = (
  set_header "X-Quota-Exceeded" q.name ∷ http_error ("quota " ++ quote q.name ++ " exceeded") 429,
  s,
)

abbrev pub handler_or : {S : Type 0} → Option (QuotaHandler S) → QuotaHandler S
handler_or none = default_quota_limit_exceeded_handler
handler_or (some h) = h

abbrev pub remaining_header : Quota → Result ℤ → List Call → List Call
remaining_header q (err e) calls = calls
remaining_header q (ok n) calls = set_header ("X-Quota-" ++ q.name ++ "-Remaining") (itoa n) ∷ calls

-- The loop over the quotas that sets a header for each; `all` is the manager's list, in which
-- `Remaining` looks the name up.
unfoldable pub attach :
    {M : Type 0} → Store M → Moments → String → List Quota → List Quota → M → List Call × M
unfolding remaining
attach store mo request_key all [] m = ([], m)
attach store mo request_key all (q ∷ qs) m =
    let (n, m') = remaining store (mo 0) q.name request_key all m in
    let (calls, m'') = attach store (later mo) request_key all qs m' in
    (remaining_header q n calls, m'')

-- What the middleware does after `CheckAll`.
unfoldable pub serve_checked :
    {M S : Type 0}
    → Store M
    → Moments
    → QuotaManager
    → QuotaHandler S
    → Handler S
    → Request
    → Result (Option Quota)
    → M × S
    → List Call × (M × S)
unfolding attach
serve_checked store mo qm on_exceeded next r (err e) (m, s) =
    (http_error "internal rate limit error" 500, (m, s))
serve_checked store mo qm on_exceeded next r (ok (some q)) (m, s) =
    let (calls, s') = on_exceeded r q s in (calls, (m, s'))
serve_checked store mo qm on_exceeded next r (ok none) (m, s) =
    let (headers, m') = attach store mo (qm.key_fn r) qm.quotas qm.quotas m in
    let (calls, s') = next r s in (headers +++ calls, (m', s'))

-- WithQuotaManager; `check_moments` are those of `CheckAll`, and `mo` those of the loop after it.
unfoldable pub with_quota_manager :
    {M S : Type 0}
    → Store M
    → (String → M → Result (Unit {0}) × M)
    → Moments
    → Moments
    → QuotaManager
    → Option (QuotaHandler S)
    → Handler S
    → Handler (M × S)
unfolding check_all serve_checked
with_quota_manager store decrement check_moments mo qm on_exceeded next r (m, s) =
    let (checked, m') = check_all store decrement check_moments (qm.key_fn r) qm.quotas m in
    serve_checked store mo qm (handler_or on_exceeded) next r checked (m', s)
