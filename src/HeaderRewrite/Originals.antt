-- ===== src/HeaderRewrite/Originals.antt =====
-- What becomes of the headers of the handler below.
use mathlib.Core.List.{◌++◌ as ◌+++◌}
use ratelimiter_redis.Base.{
  ◌&&◌, not, ℕ, String, ◌≡◌, ◌≢◌, ◌⊎◌, some, refl, ap, ◌∙◌, true, false, List, [], ◌∷◌,
  if◌then◌else◌, str_eq, eq_iff, Bool-cases, inl, inr,
}
use ratelimiter_redis.Base.Text.{canonical}
use ratelimiter_redis.Base.Trim.{differs_from_nil, not_nil}
use ratelimiter_redis.Http.{
  Call, set_header, add_header, del_header, write_header, write, Request, Handler, Header,
  header_after, sent_header, first_value, is_informational,
}
use ratelimiter_redis.HeaderRewrite.{
  header_get, write_body, HeaderRewriteConfig, is_code, captured, names, rename, set_each,
  set_missing, with_header_rewrite,
}

header_after-append :
    (k : String) (xs ys : List Call) (vs : List String)
    → header_after k vs (xs +++ ys) ≡ header_after k (header_after k vs xs) ys
unfolding header_after
header_after-append k [] ys vs = refl
header_after-append k (set_header j v ∷ xs) ys vs = header_after-append k xs ys _
header_after-append k (add_header j v ∷ xs) ys vs = header_after-append k xs ys _
header_after-append k (del_header j ∷ xs) ys vs = header_after-append k xs ys _
header_after-append k (write_header c ∷ xs) ys vs = header_after-append k xs ys vs
header_after-append k (write b ∷ xs) ys vs = header_after-append k xs ys vs

after-set_header :
    (j k v : String) (cs : List Call) (ws : List String)
    → header_after k ws (set_header j v ∷ cs)
      ≡ header_after k (if str_eq (canonical j) (canonical k) then v ∷ [] else ws) cs
unfolding header_after
after-set_header j k v cs ws = refl

set_each-other :
    (j k : String) (vs ws : List String)
    → str_eq (canonical j) (canonical k) ≡ false
    → header_after k ws (set_each j vs) ≡ ws
unfolding header_after
set_each-other j k [] ws h = refl
set_each-other j k (v ∷ vs) ws h =
    rw (after-set_header j k v (set_each j vs) ws, h) (set_each-other j k vs ws h)

-- At least one value, and the last one is not "".
abbrev pub HasText : List String → Type 0
HasText [] = ⊥
HasText (v ∷ []) = v ≢ ""
HasText (v ∷ w ∷ vs) = HasText (w ∷ vs)

set_each-own :
    (j k : String) (vs ws : List String)
    → str_eq (canonical j) (canonical k) ≡ true
    → HasText vs
    → first_value (header_after k ws (set_each j vs)) ≢ ""
unfolding header_after
set_each-own j k [] ws h t = elim t [ ]
set_each-own j k (v ∷ []) ws h t = rw (after-set_header j k v [] ws, h) t
set_each-own j k (v ∷ w ∷ vs) ws h t = set_each-own j k (w ∷ vs) _ h t

-- Names of one canonical form name one header.
same_header :
    (j k : String) (calls : List Call) (vs : List String)
    → str_eq (canonical j) (canonical k) ≡ true
    → header_after j vs calls ≡ header_after k vs calls
unfolding header_after
same_header j k [] vs h = refl
same_header j k (set_header i v ∷ xs) vs h =
    rw ((eq_iff (canonical j) (canonical k)).0 h) (same_header j k xs _ h)
same_header j k (add_header i v ∷ xs) vs h =
    rw ((eq_iff (canonical j) (canonical k)).0 h) (same_header j k xs _ h)
same_header j k (del_header i ∷ xs) vs h =
    rw ((eq_iff (canonical j) (canonical k)).0 h) (same_header j k xs _ h)
same_header j k (write_header c ∷ xs) vs h = same_header j k xs vs h
same_header j k (write b ∷ xs) vs h = same_header j k xs vs h

-- The client is sent a value.
abbrev Shows : String → List Call → Type 0
Shows k out = first_value (header_after k [] out) ≢ ""

-- What the second loop does at one name.
abbrev fill : String → List String → List Call → List Call
fill j vs out =
    if str_eq (first_value (header_after j [] out)) "" then out +++ set_each j vs else out

fill-Shows :
    (j k : String) (vs : List String) (out : List Call) → Shows k out → Shows k (fill j vs out)
fill-Shows j k vs out h = elim (Bool-cases (str_eq (canonical j) (canonical k))) [
  | inl same ↦ rw (same_header j k out [] same, not_nil (first_value (header_after k [] out)) h) h
  | inr other ↦ elim (Bool-cases (str_eq (first_value (header_after j [] out)) "")) [
    | inl e ↦
        rw
          (
            e,
            header_after-append k out (set_each j vs) [],
            set_each-other j k vs (header_after k [] out) other,
          )
          h
    | inr e ↦ rw e h
  ]
]

fill_own :
    (j k : String) (vs : List String) (out : List Call)
    → str_eq (canonical j) (canonical k) ≡ true
    → HasText vs
    → Shows k (fill j vs out)
fill_own j k vs out same t = elim (Bool-cases (str_eq (first_value (header_after j [] out)) "")) [
  | inl e ↦
      rw (e, header_after-append k out (set_each j vs) [])
        (set_each-own j k vs (header_after k [] out) same t)
  | inr e ↦ rw e (λ nil.
      differs_from_nil (first_value (header_after j [] out)) e
        (ap first_value (same_header j k out [] same) ∙ nil))
]

missing-Shows :
    (k : String) (h : Header) (out : List Call) → Shows k out → Shows k (set_missing h out)
unfolding set_missing
missing-Shows k [] out s = s
missing-Shows k ((j, vs) ∷ h) out s = missing-Shows k h (fill j vs out) (fill-Shows j k vs out s)

-- The header has the name, with a last value that is not "".
abbrev pub Has : String → Header → Type 0
Has k [] = ⊥
Has k ((j, vs) ∷ h) = ((str_eq (canonical j) (canonical k) ≡ true) × HasText vs) ⊎ Has k h

missing-Has : (k : String) (h : Header) (out : List Call) → Has k h → Shows k (set_missing h out)
unfolding set_missing
missing-Has k [] out has = elim has [ ]
missing-Has k ((j, vs) ∷ h) out (inl (same, t)) =
    missing-Shows k h (fill j vs out) (fill_own j k vs out same t)
missing-Has k ((j, vs) ∷ h) out (inr has) = missing-Has k h (fill j vs out) has

-- No status and no body goes out.
abbrev OnlyHeaders : List Call → Type 0
OnlyHeaders [] = Unit {0}
OnlyHeaders (write_header c ∷ cs) = ⊥
OnlyHeaders (write b ∷ cs) = ⊥
OnlyHeaders (_ ∷ cs) = OnlyHeaders cs

append-OnlyHeaders : (xs ys : List Call) → OnlyHeaders xs → OnlyHeaders ys → OnlyHeaders (xs +++ ys)
append-OnlyHeaders [] ys o p = p
append-OnlyHeaders (set_header k v ∷ xs) ys o p = append-OnlyHeaders xs ys o p
append-OnlyHeaders (add_header k v ∷ xs) ys o p = append-OnlyHeaders xs ys o p
append-OnlyHeaders (del_header k ∷ xs) ys o p = append-OnlyHeaders xs ys o p
append-OnlyHeaders (write_header c ∷ xs) ys o p = elim o [ ]
append-OnlyHeaders (write b ∷ xs) ys o p = elim o [ ]

set_each-OnlyHeaders : (k : String) (vs : List String) → OnlyHeaders (set_each k vs)
set_each-OnlyHeaders k [] = tt
set_each-OnlyHeaders k (v ∷ vs) = set_each-OnlyHeaders k vs

rename-OnlyHeaders : (h : Header) (ns : List (String × String)) → OnlyHeaders (rename h ns)
unfolding rename
rename-OnlyHeaders h [] = tt
rename-OnlyHeaders h ((orig, mapped) ∷ ns) =
    elim (Bool-cases
      (not (str_eq (header_get h orig) "") && not (str_eq mapped "") && not (str_eq mapped orig))) [
        | inl e ↦ rw e (rename-OnlyHeaders h ns)
        | inr e ↦ rw e (rename-OnlyHeaders h ns)
      ]

missing-OnlyHeaders :
    (h : Header) (out : List Call) → OnlyHeaders out → OnlyHeaders (set_missing h out)
unfolding set_missing
missing-OnlyHeaders [] out o = o
missing-OnlyHeaders ((k, vs) ∷ h) out o =
    elim (Bool-cases (str_eq (first_value (header_after k [] out)) "")) [
      | inl e ↦ rw e (
          missing-OnlyHeaders h (out +++ set_each k vs)
            (append-OnlyHeaders out (set_each k vs) o (set_each-OnlyHeaders k vs)))
      | inr e ↦ rw e (missing-OnlyHeaders h out o)
    ]

sent_then_status :
    (k : String) (xs : List Call) (vs : List String) (c : ℕ) (rest : List Call)
    → OnlyHeaders xs
    → is_informational c ≡ false
    → sent_header k vs (xs +++ write_header c ∷ rest) ≡ header_after k vs xs
unfolding sent_header header_after
sent_then_status k [] vs c rest o h = rw h refl
sent_then_status k (set_header j v ∷ xs) vs c rest o h = sent_then_status k xs _ c rest o h
sent_then_status k (add_header j v ∷ xs) vs c rest o h = sent_then_status k xs _ c rest o h
sent_then_status k (del_header j ∷ xs) vs c rest o h = sent_then_status k xs _ c rest o h
sent_then_status k (write_header d ∷ xs) vs c rest o h = elim o [ ]
sent_then_status k (write b ∷ xs) vs c rest o h = elim o [ ]

-- Where the handler below sets a status of three digits that is not informational, the rewriting handler
-- does not panic, and every header that the handler below leaves with a last value that is not empty is
-- sent to the client with a value under its own name, whatever the configuration and the order: also those
-- that are renamed.
pub originals_sent :
    {S : Type 0} (order : List (String × String) → List (String × String))
    (cfg : HeaderRewriteConfig) (next : Handler S) (r : Request) (s : S) (k : String)
    → let rec = captured (next r s).0 in
      Has k rec.headers
      → is_code rec.status ≡ true
      → is_informational rec.status ≡ false
      → (out : List Call) × ((with_header_rewrite order cfg next r s).0 ≡ some out)
        × (first_value (sent_header k [] out) ≢ "")
unfolding with_header_rewrite
originals_sent order cfg next r s k has code final =
    let rec = captured (next r s).0 in
    let out = rename rec.headers (order (names cfg)) in
    (
      set_missing rec.headers out +++ write_header rec.status ∷ write_body rec.body,
      rw code refl,
      rw
          (sent_then_status k (set_missing rec.headers out) [] rec.status (write_body rec.body)
            (missing-OnlyHeaders rec.headers out
              (rename-OnlyHeaders rec.headers (order (names cfg))))
            final)
          (missing-Has k rec.headers out has),
    )
