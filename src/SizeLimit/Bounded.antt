-- ===== src/SizeLimit/Bounded.antt =====
-- What of a body gets through the limit.
use ratelimiter_redis.Base.{
  false, suc, length-take_exact, ℕ, ◌≡◌, refl, ◌≤◌, ◌⊎◌, inl, inr, Bool-cases, some, List, length,
  leb, arith, length-take,
}
use ratelimiter_redis.Base.Int.{leb_ℤ, ℤ, pos, ltb_ℤ, ◌≤ℤ◌, ◌<ℤ◌}
use ratelimiter_redis.Http.{Request}
use ratelimiter_redis.Http.Body.{Body, BodyHandler, max_bytes_reader}
use ratelimiter_redis.SizeLimit.{RequestSizeLimitOption, size_limit_config, with_request_size_limit}

-- The body that is passed on for another.
abbrev pub Passes : ℕ → Body → Body → Type 0
Passes n b b' = (length b'.bytes ≤ n) × ((length b'.bytes ≡ n) ⊎ (b' ≡ b))

max_bytes-Passes : (n : ℕ) (b : Body) → Passes n b (max_bytes_reader n b)
max_bytes-Passes n b = elim (Bool-cases (leb (length b.bytes) n)) [
  | inl e ↦ rw e (ground (arith, e), inr refl)
  | inr e ↦ rw e (length-take n b.bytes, inl (length-take_exact n b.bytes (ground (arith, e))))
]

positive : (n : ℕ) → leb_ℤ (pos (suc n)) (pos 0) ≡ false
positive n = ground arith

-- With a positive limit, a request that declares a longer body is answered by the handler for these alone;
-- for any other, the handler below can read a body of at most as many bytes, the whole of it or exactly as
-- many.
pub size_limited :
    {S : Type 0} (max_bytes : ℤ) (opts : List (RequestSizeLimitOption S)) (next : BodyHandler S)
    (n : ℕ) (r : Request) (b : Body) (s : S)
    → (size_limit_config max_bytes opts).max_bytes ≡ pos (suc n)
    → let cfg = size_limit_config max_bytes opts in
      let served = with_request_size_limit max_bytes opts next r (some b) s in
      ((cfg.max_bytes <ℤ r.content_length) × (served ≡ cfg.on_limit_exceeded r (some b) s))
      ⊎ ((r.content_length ≤ℤ cfg.max_bytes)
          × (b' : Body) × Passes (suc n) b b'
          × (served ≡ next r (some b') s))
unfolding with_request_size_limit
size_limited max_bytes opts next n r b s h =
    elim (Bool-cases (ltb_ℤ (pos (suc n)) r.content_length)) [
      | inl large ↦ inl (rw h (ground (arith, large)), rw (h, positive n, large) refl)
      | inr fits ↦ inr (
        rw h (ground (arith, fits)),
        max_bytes_reader (suc n) b,
        max_bytes-Passes (suc n) b,
        rw (h, positive n, fits) refl,
      )
    ]
