-- ===== src/Access/Blacklist.antt =====
-- ip_blacklist.go and blacklist_option.go. The mutex makes each method atomic.
use ratelimiter_redis.Base.{
  ap, ◌∙◌, String, ◌≡◌, refl, Bool, true, false, Option, none, some, List, [], ◌∷◌, arith, str_eq,
  if◌then◌else◌, Bool-cases, inl, inr,
}
use ratelimiter_redis.Base.GoMap.{make, assign, delete}
use ratelimiter_redis.Http.{Request, Handler, http_error}
use ratelimiter_redis.Access.KeySet.{KeySet, has, insert_all, any_eq, has-insert_all}

pub record Blacklist : Type 0 where
  pub keys : KeySet
  pub key_func : Request → String

-- NewBlacklist; the first argument is the default key function, and `none` a nil one.
pub new_blacklist : (Request → String) → Option (Request → String) → List String → Blacklist
new_blacklist default_key_func none ks = record {
  keys = insert_all ks make;
  key_func = default_key_func;
}
new_blacklist default_key_func (some f) ks = record { keys = insert_all ks make; key_func = f }

pub contains : Blacklist → Request → Bool
contains b r = has b.keys (b.key_func r)

pub add : String → Blacklist → Blacklist
add key b = record b { keys = assign b.keys key tt }

pub remove : String → Blacklist → Blacklist
remove key b = record b { keys = delete b.keys key }

abbrev pub BlacklistOption : Type 0
BlacklistOption = Blacklist → Blacklist

abbrev pub with_blacklist_key_func : Option (Request → String) → BlacklistOption
with_blacklist_key_func none b = b
with_blacklist_key_func (some f) b = record b { key_func = f }

abbrev pub with_blacklist_entries : List String → BlacklistOption
with_blacklist_entries ks b = record b { keys = insert_all ks b.keys }

abbrev apply_options : List BlacklistOption → Blacklist → Blacklist
apply_options [] b = b
apply_options (o ∷ opts) b = apply_options opts (o b)

abbrev pub new_blacklist_with_options : (Request → String) → List BlacklistOption → Blacklist
new_blacklist_with_options default_key_func opts =
    apply_options opts (record { keys = make; key_func = default_key_func })

-- WithBlacklist, at the blacklist as it is when the request comes.
pub with_blacklist : {S : Type 0} → Blacklist → Handler S → Handler S
unfolding contains
with_blacklist b next r s = if contains b r then (http_error "Forbidden" 403, s) else next r s

pub data Op : Type 0 where
  adds removes : String → Op

unfoldable pub run : List Op → Blacklist → Blacklist
unfolding add remove
run [] b = b
run (adds k ∷ ops) b = run ops (add k b)
run (removes k ∷ ops) b = run ops (remove k b)

-- Whether a key is listed after the operations, if it is `listed` before: the last one for it decides.
abbrev pub listed_after : Bool → String → List Op → Bool
listed_after listed key [] = listed
listed_after listed key (adds k ∷ ops) =
    listed_after (if str_eq k key then true else listed) key ops
listed_after listed key (removes k ∷ ops) =
    listed_after (if str_eq k key then false else listed) key ops

has-run :
    (ops : List Op) (b : Blacklist) (key : String)
    → has (run ops b).keys key ≡ listed_after (has b.keys key) key ops
unfolding run
has-run [] b key = refl
has-run (adds k ∷ ops) b key = elim (Bool-cases (str_eq k key)) [
  | inl e ↦ rw (has-run ops (add k b) key) (unfold add in rw e)
  | inr e ↦ rw (has-run ops (add k b) key) (unfold add in rw e)
]
has-run (removes k ∷ ops) b key = elim (Bool-cases (str_eq k key)) [
  | inl e ↦ rw (has-run ops (remove k b) key) (unfold remove in rw e)
  | inr e ↦ rw (has-run ops (remove k b) key) (unfold remove in rw e)
]

run_keeps_key_func : (ops : List Op) (b : Blacklist) → (run ops b).key_func ≡ b.key_func
unfolding run
run_keeps_key_func [] b = refl
run_keeps_key_func (adds k ∷ ops) b = run_keeps_key_func ops (add k b)
run_keeps_key_func (removes k ∷ ops) b = run_keeps_key_func ops (remove k b)

has-new : (ks : List String) (key : String) → has (insert_all ks make) key ≡ any_eq key ks
has-new ks key = ground (arith, has-insert_all ks make key)

contains-run :
    (f : Request → String) (ks : List String) (ops : List Op) (r : Request)
    → contains (run ops (new_blacklist f none ks)) r ≡ listed_after (any_eq (f r) ks) (f r) ops
unfolding contains new_blacklist
contains-run f ks ops r =
    let b : Blacklist = new_blacklist f none ks in
    rw (run_keeps_key_func ops b)
      (has-run ops b (f r) ∙ ap (λ l. listed_after l (f r) ops) (has-new ks (f r)))

-- After any additions and removals, a request is answered with 403, without the handler, exactly if the
-- last of them for its key added it, or if there is none and the key was given to the constructor.
pub blacklist_history :
    {S : Type 0} (f : Request → String) (ks : List String) (ops : List Op) (next : Handler S)
    (r : Request) (s : S)
    → with_blacklist (run ops (new_blacklist f none ks)) next r s ≡ (
        if listed_after (any_eq (f r) ks) (f r) ops
        then (http_error "Forbidden" 403, s)
        else next r s)
unfolding with_blacklist
blacklist_history f ks ops next r s = rw (contains-run f ks ops r)
