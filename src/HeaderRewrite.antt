-- ===== src/HeaderRewrite.antt =====
-- header_rewrite.go and header_rewrite_option.go. The writer's own header is empty when the handler is
-- called. The two maps are ranged over in some order: the second loop looks at each name alone, and the
-- order of the first one is an argument.
pub mod Originals
mod Tests
use Prim.Native.String.{◌++◌}
use mathlib.Core.List.{◌++◌ as ◌+++◌}
use ratelimiter_redis.Base.{
  leb, ℕ, String, Bool, ◌&&◌, not, Option, none, some, List, [], ◌∷◌, if◌then◌else◌, str_eq,
}
use ratelimiter_redis.Base.Int.{ℤ}
use ratelimiter_redis.Base.Text.{itoa, canonical}
use ratelimiter_redis.Http.{
  Call, set_header, add_header, del_header, write_header, write, Request, Handler, Header,
  header_get, header_after, first_value, update,
}
use ratelimiter_redis.ResponseCache.Recorder.{remove}

pub record HeaderRewriteConfig : Type 0 where
  pub limit_header : String
  pub remaining_header : String
  pub reset_header : String
  pub retry_after_header : String

abbrev pub default_header_rewrite_config : HeaderRewriteConfig
default_header_rewrite_config = record {
  limit_header = "X-RateLimit-Limit";
  remaining_header = "X-RateLimit-Remaining";
  reset_header = "X-RateLimit-Reset";
  retry_after_header = "Retry-After";
}

abbrev pub HeaderRewriteOption : Type 0
HeaderRewriteOption = HeaderRewriteConfig → HeaderRewriteConfig

abbrev pub with_limit_header : String → HeaderRewriteOption
with_limit_header name c = record c { limit_header = name }

abbrev pub with_remaining_header : String → HeaderRewriteOption
with_remaining_header name c = record c { remaining_header = name }

abbrev pub with_reset_header : String → HeaderRewriteOption
with_reset_header name c = record c { reset_header = name }

abbrev pub with_retry_after_header : String → HeaderRewriteOption
with_retry_after_header name c = record c { retry_after_header = name }

abbrev apply_options : List HeaderRewriteOption → HeaderRewriteConfig → HeaderRewriteConfig
apply_options [] c = c
apply_options (o ∷ opts) c = apply_options opts (o c)

abbrev pub new_header_rewrite_config : List HeaderRewriteOption → HeaderRewriteConfig
new_header_rewrite_config opts = apply_options opts default_header_rewrite_config

-- A nil body is `none`.
pub record HeaderCapture : Type 0 where
  pub headers : Header
  pub status : ℕ
  pub body : Option String

abbrev text_of : Option String → String
text_of none = ""
text_of (some b) = b

-- Header, WriteHeader and Write of the capture.
unfoldable pub capture_call : HeaderCapture → Call → HeaderCapture
unfolding canonical
capture_call rec (set_header k v) = record rec {
  headers = update (canonical k) (λ vs. v ∷ []) rec.headers;
}
capture_call rec (add_header k v) = record rec {
  headers = update (canonical k) (λ vs. vs +++ v ∷ []) rec.headers;
}
capture_call rec (del_header k) = record rec { headers = remove (canonical k) rec.headers }
capture_call rec (write_header c) = record rec { status = c }
capture_call rec (write b) = record rec { body = some (text_of rec.body ++ b) }

capture_from : HeaderCapture → List Call → HeaderCapture
unfolding capture_call
capture_from rec [] = rec
capture_from rec (c ∷ cs) = capture_from (capture_call rec c) cs

unfoldable pub captured : List Call → HeaderCapture
unfolding capture_from
captured calls = capture_from (record { headers = []; status = 0; body = none }) calls

-- The map `rewrite`, in the order of the source.
abbrev pub names : HeaderRewriteConfig → List (String × String)
names cfg =
    ("X-RateLimit-Limit", cfg.limit_header)
    ∷ ("X-RateLimit-Remaining", cfg.remaining_header)
    ∷ ("X-RateLimit-Reset", cfg.reset_header)
    ∷ ("Retry-After", cfg.retry_after_header)
    ∷ []

-- The first loop.
unfoldable pub rename : Header → List (String × String) → List Call
unfolding header_get
rename headers [] = []
rename headers ((orig, mapped) ∷ ns) =
    let v = header_get headers orig in
    let rest = rename headers ns in
    if not (str_eq v "") && not (str_eq mapped "") && not (str_eq mapped orig)
    then del_header orig ∷ set_header mapped v ∷ rest
    else rest

-- for _, v := range vs { w.Header().Set(k, v) }
abbrev pub set_each : String → List String → List Call
set_each k [] = []
set_each k (v ∷ vs) = set_header k v ∷ set_each k vs

-- The second loop, after the calls `out`: those with the calls that it adds.
unfoldable pub set_missing : Header → List Call → List Call
unfolding header_after
set_missing [] out = out
set_missing ((k, vs) ∷ h) out =
    set_missing h
      (if str_eq (first_value (header_after k [] out)) "" then out +++ set_each k vs else out)

abbrev write_body : Option String → List Call
write_body none = []
write_body (some b) = write b ∷ []

-- net/http: WriteHeader panics on a code that does not have three digits.
abbrev pub is_code : ℕ → Bool
is_code c = leb 100 c && leb c 999

-- ServeHTTP of `WithHeaderRewrite`'s handler: its calls, or `none` where it panics. `order` is the order of
-- the first loop.
unfoldable pub with_header_rewrite :
    {S : Type 0}
    → (List (String × String) → List (String × String))
    → HeaderRewriteConfig
    → Handler S
    → Request
    → S
    → Option (List Call) × S
unfolding captured rename set_missing
with_header_rewrite order cfg next r s =
    let (calls, s') = next r s in
    let rec = captured calls in
    (
      if is_code rec.status
          then some (
              set_missing rec.headers (rename rec.headers (order (names cfg)))
              +++ write_header rec.status ∷ write_body rec.body)
          else none,
      s',
    )

-- setRateLimitHeaders
abbrev pub set_rate_limit_headers : ℤ → ℤ → ℤ → List Call
unfolding itoa
set_rate_limit_headers limit remaining reset_at =
    set_header "X-RateLimit-Limit" (itoa limit)
    ∷ set_header "X-RateLimit-Remaining" (itoa remaining)
    ∷ set_header "X-RateLimit-Reset" (itoa reset_at)
    ∷ []
