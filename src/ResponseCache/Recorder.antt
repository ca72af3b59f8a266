-- ===== src/ResponseCache/Recorder.antt =====
-- net/http/httptest's ResponseRecorder: what a handler's calls leave in it.
use Prim.Native.String.{◌++◌}
use mathlib.Core.List.{◌++◌ as ◌+++◌}
use ratelimiter_redis.Base.{
  ◌≡◌, refl, not, ℕ, String, Bool, true, false, ◌||◌, List, [], ◌∷◌, if◌then◌else◌, str_eq,
}
use ratelimiter_redis.Base.Text.{canonical}
use ratelimiter_redis.Http.{
  status, NoInformational, update, Call, set_header, add_header, del_header, write_header, write,
  Header, header_get,
}

abbrev pub remove : String → Header → Header
remove k [] = []
remove k ((j, vs) ∷ h) = let rest = remove k h in if str_eq j k then rest else (j, vs) ∷ rest

abbrev has_name : String → Header → Bool
has_name k [] = false
has_name k ((j, vs) ∷ h) = str_eq j k || has_name k h

pub record ResponseRecorder : Type 0 where
  pub code : ℕ
  pub header_map : Header
  pub body : String
  pub wrote_header : Bool
  pub snap_header : Header

abbrev pub new_recorder : ResponseRecorder
new_recorder = record {
  code = 200;
  header_map = [];
  body = "";
  wrote_header = false;
  snap_header = [];
}

-- WriteHeader: the first call alone counts, and the header is as it is then.
abbrev write_code : ℕ → ResponseRecorder → ResponseRecorder
write_code c rec =
    if rec.wrote_header
    then rec
    else record rec { code = c; wrote_header = true; snap_header = rec.header_map }

-- Before the first byte of a body a type is set, if there is none.
unfoldable pub with_type : (String → String) → String → Header → Header
unfolding header_get
with_type detect b h =
    if has_name "Content-Type" h || not (str_eq (header_get h "Transfer-Encoding") "")
    then h
    else update "Content-Type" (λ vs. detect b ∷ []) h

abbrev typed : (String → String) → String → ResponseRecorder → ResponseRecorder
unfolding with_type
typed detect b rec =
    if rec.wrote_header then rec else record rec { header_map = with_type detect b rec.header_map }

abbrev append_body : String → ResponseRecorder → ResponseRecorder
append_body b rec = record rec { body = rec.body ++ b }

unfoldable pub record_call : (String → String) → ResponseRecorder → Call → ResponseRecorder
unfolding canonical typed
record_call detect rec (set_header k v) = record rec {
  header_map = update (canonical k) (λ vs. v ∷ []) rec.header_map;
}
record_call detect rec (add_header k v) = record rec {
  header_map = update (canonical k) (λ vs. vs +++ v ∷ []) rec.header_map;
}
record_call detect rec (del_header k) = record rec {
  header_map = remove (canonical k) rec.header_map;
}
record_call detect rec (write_header c) = write_code c rec
record_call detect rec (write b) = append_body b (write_code 200 (typed detect b rec))

record_from : (String → String) → ResponseRecorder → List Call → ResponseRecorder
unfolding record_call
record_from detect rec [] = rec
record_from detect rec (c ∷ cs) = record_from detect (record_call detect rec c) cs

unfoldable pub recorded : (String → String) → List Call → ResponseRecorder
unfolding record_from
recorded detect calls = record_from detect new_recorder calls

-- Result().Header
abbrev pub result_header : ResponseRecorder → Header
result_header rec = if rec.wrote_header then rec.snap_header else rec.header_map

-- The code stays once a header is written.
code_stays :
    (detect : String → String) (calls : List Call) (rec : ResponseRecorder)
    → rec.wrote_header ≡ true
    → (record_from detect rec calls).code ≡ rec.code
unfolding record_from record_call
code_stays detect [] rec h = refl
code_stays detect (set_header k v ∷ cs) rec h = code_stays detect cs _ h
code_stays detect (add_header k v ∷ cs) rec h = code_stays detect cs _ h
code_stays detect (del_header k ∷ cs) rec h = code_stays detect cs _ h
code_stays detect (write_header c ∷ cs) rec h =
    rw h (code_stays detect cs (record rec { wrote_header = true }) refl)
code_stays detect (write b ∷ cs) rec h =
    rw h (code_stays detect cs (record rec { body = rec.body ++ b; wrote_header = true }) refl)

code_from :
    (detect : String → String) (calls : List Call) (rec : ResponseRecorder)
    → rec.wrote_header ≡ false
    → rec.code ≡ 200
    → NoInformational calls
    → (record_from detect rec calls).code ≡ status calls
unfolding record_from record_call
code_from detect [] rec h h' n = h'
code_from detect (set_header k v ∷ cs) rec h h' n = code_from detect cs _ h h' n
code_from detect (add_header k v ∷ cs) rec h h' n = code_from detect cs _ h h' n
code_from detect (del_header k ∷ cs) rec h h' n = code_from detect cs _ h h' n
code_from detect (write_header c ∷ cs) rec h h' (n, ns) = rw (h, n) (code_stays detect cs _ refl)
code_from detect (write b ∷ cs) rec h h' n = rw h (code_stays detect cs _ refl)

-- Without informational statuses the recorder has the status that a client would read.
pub recorded-status :
    (detect : String → String) (calls : List Call)
    → NoInformational calls
    → (recorded detect calls).code ≡ status calls
unfolding recorded
recorded-status detect calls n = code_from detect calls new_recorder refl refl n
