-- ===== src/Http.antt =====
-- Package net/http, as far as the program uses it. What a handler does to its client is the list of the
-- calls that it makes on its `http.ResponseWriter`; a handler over a state `S` maps a request and the
-- state to those calls and the next state. Handlers that the program is given are arbitrary.
pub mod Samples
pub mod Headers
pub mod Body
use ratelimiter_redis.Base.{
  ℕ, String, ◌≡◌, Bool, false, ◌&&◌, not, List, [], ◌∷◌, leb, ◌==◌, if◌then◌else◌, str_eq,
}
use ratelimiter_redis.Base.Int.{ℤ}
use ratelimiter_redis.Base.Text.{canonical}
use Prim.Native.String.{◌++◌}
use mathlib.Core.List.{◌++◌ as ◌+++◌}

-- w.Header().Set, w.Header().Add, w.Header().Del, w.WriteHeader, w.Write
pub data Call : Type 0 where
  set_header add_header : String → String → Call
  del_header : String → Call
  write_header : ℕ → Call
  write : String → Call

-- Canonical names with their values.
abbrev pub Header : Type 0
Header = List (String × List String)

-- r.Header.Get: the first value, or "".
abbrev pub first_value : List String → String
first_value [] = ""
first_value (v ∷ vs) = v

abbrev pub values : String → Header → List String
values k [] = []
values k ((j, vs) ∷ h) = if str_eq j k then vs else values k h

unfoldable pub header_get : Header → String → String
unfolding canonical
header_get h k = first_value (values (canonical k) h)

-- The entry of a canonical name, if it has one, is replaced by `f` of its values; else it is `f []`.
abbrev pub update : String → (List String → List String) → Header → Header
update k f [] = (k, f []) ∷ []
update k f ((j, vs) ∷ h) =
    let rest = update k f h in if str_eq j k then (j, f vs) ∷ h else (j, vs) ∷ rest

-- r.Header.Set
unfoldable pub header_set : String → String → Header → Header
unfolding canonical
header_set k v h = update (canonical k) (λ vs. v ∷ []) h

-- `uri` is r.URL.String(), and `path` r.URL.Path.
pub record Request : Type 0 where
  pub method : String
  pub path : String
  pub uri : String
  pub remote_addr : String
  pub header : Header
  pub content_length : ℤ

abbrev pub Handler : Type 0 → Type 0
Handler S = Request → S → List Call × S

-- http.Error
abbrev pub http_error : String → ℕ → List Call
http_error msg code =
    set_header "Content-Type" "text/plain; charset=utf-8"
    ∷ set_header "X-Content-Type-Options" "nosniff"
    ∷ write_header code
    ∷ write (msg ++ "\n")
    ∷ []

-- The codes 1xx but 101 announce, and a final code is still to come.
abbrev pub is_informational : ℕ → Bool
is_informational c = leb 100 c && leb c 199 && not (c == 101)

-- The status line that the client reads: of the first final call of `WriteHeader`; a `Write` before it,
-- or none at all, makes it 200.
abbrev pub status : List Call → ℕ
status [] = 200
status (write_header c ∷ cs) = let rest = status cs in if is_informational c then rest else c
status (write b ∷ cs) = 200
status (_ ∷ cs) = status cs

-- The body that the client reads.
abbrev pub written : List Call → String
written [] = ""
written (write b ∷ cs) = b ++ written cs
written (_ ∷ cs) = written cs

-- The values of header `k` that the client reads, if they are `vs` before the calls: those that the
-- map holds when the status line goes out.
unfoldable pub sent_header : String → List String → List Call → List String
unfolding canonical
sent_header k vs [] = vs
sent_header k vs (set_header j v ∷ cs) =
    sent_header k (if str_eq (canonical j) (canonical k) then v ∷ [] else vs) cs
sent_header k vs (add_header j v ∷ cs) =
    sent_header k (if str_eq (canonical j) (canonical k) then vs +++ v ∷ [] else vs) cs
sent_header k vs (del_header j ∷ cs) =
    sent_header k (if str_eq (canonical j) (canonical k) then [] else vs) cs
sent_header k vs (write_header c ∷ cs) =
    let rest = sent_header k vs cs in if is_informational c then rest else vs
sent_header k vs (write b ∷ cs) = vs

-- The values of header `k` in the writer's map after the calls, if they are `vs` before.
unfoldable pub header_after : String → List String → List Call → List String
unfolding canonical
header_after k vs [] = vs
header_after k vs (set_header j v ∷ cs) =
    header_after k (if str_eq (canonical j) (canonical k) then v ∷ [] else vs) cs
header_after k vs (add_header j v ∷ cs) =
    header_after k (if str_eq (canonical j) (canonical k) then vs +++ v ∷ [] else vs) cs
header_after k vs (del_header j ∷ cs) =
    header_after k (if str_eq (canonical j) (canonical k) then [] else vs) cs
header_after k vs (_ ∷ cs) = header_after k vs cs

-- A `ResponseWriter` that embeds another: each call on it changes its own fields and passes calls on.
abbrev pub Wrapper : Type 0 → Type 0
Wrapper W = W → Call → W × List Call

-- All the calls that a handler makes on the wrapper.
unfoldable pub relay : {W : Type 0} → Wrapper W → W → List Call → W × List Call
relay f w [] = (w, [])
relay f w (c ∷ cs) = let (w', out) = f w c in let (w'', rest) = relay f w' cs in (w'', out +++ rest)

abbrev pub NoStatus : List Call → Type 0
NoStatus [] = Unit {0}
NoStatus (write_header c ∷ cs) = ⊥
NoStatus (_ ∷ cs) = NoStatus cs

-- A handler that calls `WriteHeader` at most once, with a final code, and before it writes.
abbrev pub IsOrderly : List Call → Type 0
IsOrderly [] = Unit {0}
IsOrderly (write_header c ∷ cs) = (is_informational c ≡ false) × NoStatus cs
IsOrderly (write b ∷ cs) = NoStatus cs
IsOrderly (_ ∷ cs) = IsOrderly cs

-- No informational status is announced.
abbrev pub NoInformational : List Call → Type 0
NoInformational [] = Unit {0}
NoInformational (write_header c ∷ cs) = (is_informational c ≡ false) × NoInformational cs
NoInformational (_ ∷ cs) = NoInformational cs

-- A pointer that a constructor checks for nil; what it points to is in the handlers' state. A
-- constructor that panics returns `none`.
pub data Pointer : Type 0 where
  null target : Pointer
