-- ===== src/Redis/TokenBucket/Tests.antt =====
-- The token bucket's theorems with numbers of three decimals, over a server that is a map with expiries.
use ratelimiter_redis.Base.{
  inr, inl, ◌<◌, Bool-cases, ◌≤◌, ℕ, ◌+◌, ◌-◌, ◌*◌, ◌/◌, ◌≡◌, refl, String, Option, none, some,
  Result, ok, List, [], ◌∷◌, arith, if◌then◌else◌, str_eq, eq_iff, ltb, map,
}
use ratelimiter_redis.Base.Int.{ℤ, pos, ◌+ℤ◌, pos_part}
use ratelimiter_redis.Base.Clock.{Time, before}
use ratelimiter_redis.Redis.TokenBucket.{Float, Commands}
use ratelimiter_redis.Redis.TokenBucket.Laws.{Exact, Expiring}
use ratelimiter_redis.Redis.TokenBucket.Ideal.{granted, ideal, inflow}
use ratelimiter_redis.Redis.TokenBucket.Refill.{answers, script-ideal, token_bound}

abbrev thousandths : Float ℕ
thousandths = record {
  of_int = λ a. pos_part a * 1000;
  add = λ a b. a + b;
  sub = λ a b. a - b;
  mul = λ a b. a * b / 1000;
  div = λ a b. a * 1000 / b;
  lt = λ a b. ltb a b;
  floor = λ a. pos (a / 1000);
  seconds_of = λ d. pos_part d / 1000000;
}

-- Ten tokens a second, at each 50 milliseconds.
thousandths_exact : Exact thousandths (λ n. n) 100000000 1000 10 50 10000
thousandths_exact = record {
  of_int_num = λ n h. refl;
  lt_num = λ a b h h'. refl;
  add_num = λ a b h. refl;
  sub_num = λ a b h h'. refl;
  earned = λ s t gs gt h h' h''. ground arith;
}

abbrev Server : Type 0
Server = String → Option (ℕ × Time)

abbrev alive : Time → Option (ℕ × Time) → Option ℕ
alive at none = none
alive at (some (x, end)) = if before at end then some x else none

abbrev commands : Commands ℕ Server
commands = record {
  get = λ at k r. alive at (r k);
  set_px =
      λ at k x ttl r j. if str_eq k j then some (x, at +ℤ pos (pos_part ttl * 1000000)) else r j;
}

alive_lasts : (x at t d : ℕ) → t < at + d → alive (pos t) (some (x, pos at +ℤ pos d)) ≡ some x
unfolding ◌+ℤ◌
alive_lasts x at t d h = ground arith

alive_ends : (x at t d : ℕ) → at + d ≤ t → alive (pos t) (some (x, pos at +ℤ pos d)) ≡ none
unfolding ◌+ℤ◌
alive_ends x at t d h = ground arith

commands_expire : Expiring commands
commands_expire = record {
  set_lasts =
      λ at t ttl k x r le lt. rw ((eq_iff k k).1 refl) (alive_lasts x at t (ttl * 1000000) lt);
  set_expires =
      λ at t ttl k x r le. rw ((eq_iff k k).1 refl) (alive_ends x at t (ttl * 1000000) le);
  set_other = λ at t k j x ttl r differ. elim (Bool-cases (str_eq k j)) [
    | inl e ↦ elim (differ ((eq_iff k j).0 e)) [ ]
    | inr e ↦ rw e refl
  ];
}

abbrev empty : Server
empty k = none

abbrev send : (Server → ℤ × Server) → Server → Result ℤ × Server
send f r = (ok (f r).0, (f r).1)

-- Two tokens at once, and the third after 100 ms.
abbrev calls : List ℕ
calls = 5000000000 ∷ 5000000000 ∷ 5050000000 ∷ 5100000000 ∷ []

script-ideal_example :
    answers thousandths commands
      (λ n. n)
      100000000
      1000
      10
      50
      10000
      thousandths_exact
      commands_expire
      2
      1000
      6000000000
      "k"
      (omega arith)
      (omega arith)
      (omega arith)
      (omega arith)
      (omega arith)
      send
      (λ f r. refl)
      calls
      empty
    ≡ map ok (ideal 2000 1000 10 2000 0 calls)
script-ideal_example =
    script-ideal thousandths commands (λ n. n) 100000000 1000 10 50 10000 thousandths_exact
      commands_expire 2 1000 6000000000 "k" (omega arith) (omega arith) (omega arith) (omega arith)
      (omega arith) send (λ f r. refl) calls 0 empty
      (omega arith, (omega arith, (omega arith, (omega arith, omega arith))))
      ((100, refl), ((100, refl), ((101, refl), ((102, refl), tt)))) (λ t h. (refl, refl))

token_bound_example :
    granted (
        answers thousandths commands
          (λ n. n)
          100000000
          1000
          10
          50
          10000
          thousandths_exact
          commands_expire
          2
          1000
          6000000000
          "k"
          (omega arith)
          (omega arith)
          (omega arith)
          (omega arith)
          (omega arith)
          send
          (λ f r. refl)
          calls
          empty)
      * 1000
    ≤ 2 * 1000 + inflow 10 0 6000000000
token_bound_example =
    token_bound thousandths commands (λ n. n) 100000000 1000 10 50 10000 thousandths_exact
      commands_expire 2 1000 6000000000 "k" (omega arith) (omega arith) (omega arith) (omega arith)
      (omega arith) send (λ f r. refl) calls 0 empty
      (omega arith, (omega arith, (omega arith, (omega arith, omega arith))))
      ((100, refl), ((100, refl), ((101, refl), ((102, refl), tt)))) (λ t h. (refl, refl))
