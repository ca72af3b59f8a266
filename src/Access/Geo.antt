-- ===== src/Access/Geo.antt =====
-- geo_filter.go, geo_filter_option.go and geo_filter_middleware.go. Country codes are ASCII.
pub mod Codes
use Prim.Native.String.{String}
use ratelimiter_redis.Base.{
  ◌≡◌, refl, Bool, true, false, not, Option, none, some, List, [], ◌∷◌, map, if◌then◌else◌, str_eq,
}
use ratelimiter_redis.Base.Text.{to_upper}
use ratelimiter_redis.Base.GoMap.{make, assign}
use ratelimiter_redis.Http.{Request, Handler, Pointer, null, target, header_get, http_error}
use ratelimiter_redis.Access.KeySet.{KeySet, has, insert_all}

pub record GeoFilter : Type 0 where
  pub codes : KeySet
  pub block : Bool
  pub resolve_cc : Request → String

pub default_country_code_func : Request → String
unfolding header_get
default_country_code_func r =
    let cc = header_get r.header "CF-IPCountry" in
    if not (str_eq cc "") then cc else header_get r.header "X-Country-Code"

-- for _, c := range codes { g.codes[strings.ToUpper(c)] = struct{}{} }
abbrev pub insert_upper : List String → KeySet → KeySet
insert_upper cs = insert_all (map to_upper cs)

unfoldable pub with_blocked_countries : List String → GeoFilter
with_blocked_countries cs = record {
  codes = insert_upper cs make;
  block = true;
  resolve_cc = default_country_code_func;
}

unfoldable pub with_allowed_countries : List String → GeoFilter
with_allowed_countries cs = record {
  codes = insert_upper cs make;
  block = false;
  resolve_cc = default_country_code_func;
}

abbrev pub set_country_code_func : Option (Request → String) → GeoFilter → GeoFilter
set_country_code_func none g = g
set_country_code_func (some f) g = record g { resolve_cc = f }

unfoldable pub allowed : GeoFilter → Request → Bool
allowed g r =
    let found = has g.codes (to_upper (g.resolve_cc r)) in if g.block then not found else found

abbrev pub GeoFilterOpt : Type 0
GeoFilterOpt = GeoFilter → GeoFilter

abbrev apply_options : List GeoFilterOpt → GeoFilter → GeoFilter
apply_options [] g = g
apply_options (o ∷ opts) g = apply_options opts (o g)

abbrev pub new_geo_filter_with_options : List GeoFilterOpt → GeoFilter
new_geo_filter_with_options opts =
    apply_options opts
      (record { codes = make; block = true; resolve_cc = default_country_code_func })

abbrev pub with_geo_block_mode : Bool → GeoFilterOpt
with_geo_block_mode block g = record g { block = block }

abbrev pub with_geo_codes : List String → GeoFilterOpt
with_geo_codes cs g = record g { codes = insert_all cs g.codes }

-- The function that this option sets does not look at the header.
abbrev pub with_geo_country_code_header : String → GeoFilterOpt
with_geo_country_code_header header g = record g { resolve_cc = λ r. "" }

pub record GeoFilterConfig : Type 0 where
  pub block_mode : Bool
  pub codes : List String
  pub resolve_cc : Option (Request → String)

abbrev resolver_option : Option (Request → String) → List GeoFilterOpt
resolver_option none = []
resolver_option (some f) = (λ g. record g { resolve_cc = f }) ∷ []

unfoldable pub new_geo_filter_from_config : GeoFilterConfig → GeoFilter
new_geo_filter_from_config c =
    new_geo_filter_with_options
      (with_geo_block_mode c.block_mode ∷ with_geo_codes c.codes ∷ resolver_option c.resolve_cc)

abbrev pub default_geo_blocked_handler : {S : Type 0} → Handler S
default_geo_blocked_handler r s = (http_error "Forbidden" 403, s)

abbrev pub handler_or : {S : Type 0} → Handler S → Option (Handler S) → Handler S
handler_or h none = h
handler_or h (some k) = k

-- The handler that `WithGeoFilter` returns; `none` is a nil `blockedHandler`.
unfoldable pub geo_filter_handler :
    {S : Type 0} → GeoFilter → Option (Handler S) → Handler S → Handler S
unfolding allowed
geo_filter_handler g blocked_handler next r s =
    if not (allowed g r)
    then handler_or default_geo_blocked_handler blocked_handler r s
    else next r s

-- WithGeoFilter panics if the filter is nil.
abbrev pub with_geo_filter :
    {S : Type 0} → Option GeoFilter → Option (Handler S) → Handler S → Option (Handler S)
with_geo_filter none blocked_handler next = none
with_geo_filter (some g) blocked_handler next = some (geo_filter_handler g blocked_handler next)
