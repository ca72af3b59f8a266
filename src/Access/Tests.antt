-- ===== src/Access/Tests.antt =====
-- The filters' theorems at concrete requests.
use Prim.Native.String.{String}
use ratelimiter_redis.Base.{◌≡◌, ◌≢◌, true, none, some, [], ◌∷◌, arith, eq_iff, if◌then◌else◌}
use ratelimiter_redis.Base.Text.{to_upper}
use ratelimiter_redis.Http.{Request, http_error}
use ratelimiter_redis.Http.Samples.{get_root, greets}
use ratelimiter_redis.Access.Blacklist.{
  new_blacklist, with_blacklist, adds, removes, run, blacklist_history,
}
use ratelimiter_redis.Access.Whitelist.{new_whitelist, with_whitelist, whitelist_is_transparent}
use ratelimiter_redis.Access.Geo.{
  new_geo_filter_from_config, new_geo_filter_with_options, set_country_code_func, allowed,
  geo_filter_handler, with_geo_block_mode, with_geo_codes, with_geo_country_code_header,
}
use ratelimiter_redis.Access.Geo.Codes.{
  countries, any_folded, constructors_fold_case, options_miss_lower_case, header_option_is_blind,
}

abbrev address : Request → String
address r = r.remote_addr

blacklist_history_example :
    with_blacklist
      (run
        (removes "10.0.0.1:80" ∷ adds "10.0.0.1:80" ∷ adds "b" ∷ [])
        (new_blacklist address none ("10.0.0.1:80" ∷ [])))
      greets
      get_root
      0
    ≡ (http_error "Forbidden" 403, 0)
blacklist_history_example =
    blacklist_history address ("10.0.0.1:80" ∷ [])
      (removes "10.0.0.1:80" ∷ adds "10.0.0.1:80" ∷ adds "b" ∷ []) greets get_root 0

whitelist_is_transparent_test :
    with_whitelist (some (new_whitelist none ("10.0.0.1:80" ∷ []))) greets ≡ greets
whitelist_is_transparent_test =
    whitelist_is_transparent (some (new_whitelist none ("10.0.0.1:80" ∷ []))) greets

abbrev chinese : Request → String
chinese r = "cn"

constructors_fold_case_test :
    geo_filter_handler
      (set_country_code_func (some chinese) (countries true ("Ru" ∷ "cN" ∷ [])))
      none
      greets
      get_root
      0
    ≡ (if any_folded "cn" ("Ru" ∷ "cN" ∷ [])
        then (http_error "Forbidden" 403, 0)
        else greets get_root 0)
constructors_fold_case_test =
    constructors_fold_case true ("Ru" ∷ "cN" ∷ []) chinese greets get_root 0

cn_is_lower : to_upper "cn" ≢ "cn"
unfolding to_upper
cn_is_lower e = ground (arith, eq_iff "CN" "cn")

options_miss_lower_case_test :
    allowed
      (new_geo_filter_from_config
        (record { block_mode = true; codes = "cn" ∷ []; resolve_cc = some chinese }))
      get_root
    ≡ true
options_miss_lower_case_test =
    options_miss_lower_case true ("cn" ∷ []) chinese get_root (cn_is_lower, tt)

header_option_is_blind_test :
    let g = new_geo_filter_with_options (
      with_geo_block_mode true
      ∷ with_geo_codes ("CN" ∷ [])
      ∷ with_geo_country_code_header "X-Country"
      ∷ []) in
    allowed g (record get_root { header = ("X-Country", "CN" ∷ []) ∷ [] }) ≡ allowed g get_root
header_option_is_blind_test =
    header_option_is_blind true ("CN" ∷ []) "X-Country"
      (record get_root { header = ("X-Country", "CN" ∷ []) ∷ [] }) get_root
