-- ===== src/Tagging.antt =====
-- request_tagging.go.
use Prim.Native.Char.{Char}
use Prim.Native.String.{◌++◌}
use ratelimiter_redis.Base.{String, Option, none, some, List, [], ◌∷◌, if◌then◌else◌, str_eq}
use ratelimiter_redis.Base.Text.{ascii}
use ratelimiter_redis.Base.Trim.{trim_right_char}
use ratelimiter_redis.Http.{set_header, Request, Handler, header_get}

pub record TagConfig : Type 0 where
  pub key_func : Request → String
  pub header_name : String
  pub prefix : String

abbrev pub TagOption : Type 0
TagOption = TagConfig → TagConfig

abbrev pub with_tag_header : String → TagOption
with_tag_header name c = record c { header_name = name }

abbrev pub with_tag_prefix : String → TagOption
with_tag_prefix prefix c = record c { prefix = prefix }

abbrev pub with_tag_key_func : (Request → String) → TagOption
with_tag_key_func fn c = record c { key_func = fn }

abbrev pub default_tag_key_func : Request → String
default_tag_key_func r = header_get r.header "X-Request-Tag"

abbrev apply_options : List TagOption → TagConfig → TagConfig
apply_options [] c = c
apply_options (o ∷ opts) c = apply_options opts (o c)

abbrev pub new_tag_config : List TagOption → TagConfig
new_tag_config opts =
    apply_options opts
      (record { key_func = default_tag_key_func; header_name = "X-Tag"; prefix = "" })

unfoldable pub hyphen : Char
unfolding ascii
hyphen = ascii 45

-- The value of the header for a tag.
unfoldable pub tag_value : TagConfig → String → String
unfolding trim_right_char hyphen
tag_value cfg tag =
    if str_eq cfg.prefix "" then tag else trim_right_char hyphen cfg.prefix ++ "-" ++ tag

unfoldable pub tag_request : {S : Type 0} → TagConfig → Handler S → Handler S
unfolding tag_value
tag_request cfg next r s =
    let (calls, s') = next r s in
    let tag = cfg.key_func r in
    if str_eq tag ""
    then (calls, s')
    else (set_header cfg.header_name (tag_value cfg tag) ∷ calls, s')

-- WithRequestTagging: it panics where the configuration is nil.
abbrev pub with_request_tagging : {S : Type 0} → Option TagConfig → Option (Handler S → Handler S)
with_request_tagging none = none
with_request_tagging (some cfg) = some (tag_request cfg)
