-- ===== src/Access/Geo/Codes.antt =====
-- Which codes a filter matches: those of the constructors in either case, those of the options not.
use Prim.Native.Char.{Char}
use Prim.Native.String.{String}
use ratelimiter_redis.Base.{
  ◌≡◌, ◌≢◌, refl, Bool, true, false, not, ◌||◌, none, some, List, [], ◌∷◌, map, arith,
  if◌then◌else◌, str_eq, eq_iff, All,
}
use ratelimiter_redis.Base.Text.{to_upper, upper_char}
use ratelimiter_redis.Base.GoMap.{make}
use ratelimiter_redis.Http.{Request, Handler, http_error}
use ratelimiter_redis.Access.KeySet.{has, insert_all, any_eq, has-insert_all}
use ratelimiter_redis.Access.Geo.{
  GeoFilter, with_blocked_countries, with_allowed_countries, set_country_code_func, allowed,
  new_geo_filter_with_options, new_geo_filter_from_config, with_geo_block_mode, with_geo_codes,
  with_geo_country_code_header, geo_filter_handler,
}

has-new : (ks : List String) (key : String) → has (insert_all ks make) key ≡ any_eq key ks
has-new ks key = ground (arith, has-insert_all ks make key)

-- One of the codes is `cc`, up to case.
abbrev pub any_folded : String → List String → Bool
any_folded cc [] = false
any_folded cc (c ∷ cs) = str_eq (to_upper c) (to_upper cc) || any_folded cc cs

any_eq-upper :
    (cc : String) (cs : List String) → any_eq (to_upper cc) (map to_upper cs) ≡ any_folded cc cs
any_eq-upper cc [] = refl
any_eq-upper cc (c ∷ cs) = rw (any_eq-upper cc cs)

abbrev pub countries : Bool → List String → GeoFilter
countries block cs = if block then with_blocked_countries cs else with_allowed_countries cs

not-not : (b : Bool) → not (not b) ≡ b
not-not true = refl
not-not false = refl

-- A filter of either constructor, with the resolver `f`, answers 403 without the handler exactly if it
-- blocks and the request's code is one of its own up to case, or if it allows and the code is none.
pub constructors_fold_case :
    {S : Type 0} (block : Bool) (cs : List String) (f : Request → String) (next : Handler S)
    (r : Request) (s : S)
    → geo_filter_handler (set_country_code_func (some f) (countries block cs)) none next r s ≡ (
        if (if block then any_folded (f r) cs else not (any_folded (f r) cs))
        then (http_error "Forbidden" 403, s)
        else next r s)
unfolding geo_filter_handler with_blocked_countries with_allowed_countries
constructors_fold_case true cs f next r s =
    rw (has-new (map to_upper cs) (to_upper (f r)), any_eq-upper (f r) cs) (rw not-not)
constructors_fold_case false cs f next r s =
    rw (has-new (map to_upper cs) (to_upper (f r)), any_eq-upper (f r) cs)

upper_char_idem : (c : Char) → upper_char (upper_char c) ≡ upper_char c
unfolding upper_char
upper_char_idem c = ground arith

to_upper_idem : (s : String) → to_upper (to_upper s) ≡ to_upper s
unfolding to_upper
to_upper_idem String.[] = refl
to_upper_idem (String.◌∷◌ c s) = cc (upper_char_idem c, to_upper_idem s)

never_matches :
    (cc : String) (cs : List String)
    → All (λ c. to_upper c ≢ c) cs
    → any_eq (to_upper cc) cs ≡ false
never_matches cc [] h = refl
never_matches cc (c ∷ cs) h =
    ground (arith, never_matches cc cs h.1, eq_iff c (to_upper cc), to_upper_idem cc, h.0)

same : (b : Bool) → (if b then true else false) ≡ b
same true = refl
same false = refl

-- The option `WithGeoCodes` does not normalise: a filter of a configuration whose codes all have a
-- lower-case letter never matches. In block mode it admits every request, and otherwise none.
pub options_miss_lower_case :
    (block : Bool) (cs : List String) (f : Request → String) (r : Request)
    → All (λ c. to_upper c ≢ c) cs
    → allowed
        (new_geo_filter_from_config
          (record { block_mode = block; codes = cs; resolve_cc = some f }))
        r
      ≡ block
unfolding allowed new_geo_filter_from_config
options_miss_lower_case block cs f r h =
    rw (has-new cs (to_upper (f r)), never_matches (f r) cs h) (same block)

-- The option `WithGeoCountryCodeHeader` makes a filter blind: whatever the header's name, it decides
-- alike for all requests.
pub header_option_is_blind :
    (block : Bool) (cs : List String) (header : String) (q r : Request)
    → let g = new_geo_filter_with_options (
        with_geo_block_mode block ∷ with_geo_codes cs ∷ with_geo_country_code_header header ∷ []) in
      allowed g q ≡ allowed g r
unfolding allowed
header_option_is_blind block cs header q r = refl
