-- ===== src/Mirroring/Splitting.antt =====
-- Who gets the body of a mirrored request.
use Prim.Native.String.{◌++◌}
use ratelimiter_redis.Base.{
  ℕ, ◌≡◌, refl, String, Bool, true, false, none, some, List, [], ◌∷◌, if◌then◌else◌,
}
use ratelimiter_redis.Http.{Request, header_set}
use ratelimiter_redis.Http.Body.{Body, BodyHandler}
use ratelimiter_redis.Mirroring.{
  MirrorConfig, MirrorRequest, split_reads, mirror_request, mirror_handler,
}

-- Of the bytes of the third list, in their order, each is in exactly one of the two others.
pub data Shares : List ℕ → List ℕ → List ℕ → Type 0 where
  none_left : Shares [] [] []
  to_copy :
      {b : ℕ} {copied kept bytes : List ℕ}
      → Shares copied kept bytes
      → Shares (b ∷ copied) kept (b ∷ bytes)
  to_handler :
      {b : ℕ} {copied kept bytes : List ℕ}
      → Shares copied kept bytes
      → Shares copied (b ∷ kept) (b ∷ bytes)

all_kept : (bytes : List ℕ) → Shares [] bytes bytes
all_kept [] = none_left
all_kept (b ∷ bs) = to_handler (all_kept bs)

split-Shares :
    (sched : List Bool) (bytes : List ℕ)
    → Shares (split_reads sched bytes).0 (split_reads sched bytes).1 bytes
unfolding split_reads
split-Shares sched [] = none_left
split-Shares [] (b ∷ bs) = to_handler (all_kept bs)
split-Shares (true ∷ sched) (b ∷ bs) = to_copy (split-Shares sched bs)
split-Shares (false ∷ sched) (b ∷ bs) = to_handler (split-Shares sched bs)

-- Where all requests are mirrored, the goroutine and the handler below share the bytes of a sound body:
-- whatever the schedule, each byte goes to exactly one of the two, and each gets its own in their order.
-- The copy that is sent has the goroutine's bytes alone; and none is sent where the server closes the body
-- before the goroutine has read to its end.
pub body_shared :
    {S : Type 0} (request_uri : Request → String) (sched : List Bool) (closed : Bool)
    (cfg : MirrorConfig) (next : BodyHandler S) (r : Request) (bytes : List ℕ)
    (sent : List MirrorRequest) (s : S)
    → cfg.should_mirror ≡ none
    → (copied kept : List ℕ) × Shares copied kept bytes
      × (let b : Body = record { bytes = kept; failure = none } in
          mirror_handler request_uri sched closed cfg next r
            (some (record { bytes = bytes; failure = none }))
            (sent, s)
          ≡ (
            (next r (some b) s).0,
            (
              (if closed
                  then sent
                  else (record {
                    method = r.method;
                    url = cfg.mirror_target ++ request_uri r;
                    header = header_set "X-Mirrored-Request" "true" r.header;
                    body = copied;
                  }
                      ∷ sent)),
              (next r (some b) s).1,
            ),
          ))
unfolding mirror_handler mirror_request
body_shared request_uri sched true cfg next r bytes sent s all = (
  (split_reads sched bytes).0,
  (split_reads sched bytes).1,
  split-Shares sched bytes,
  rw all refl,
)
body_shared request_uri sched false cfg next r bytes sent s all = (
  (split_reads sched bytes).0,
  (split_reads sched bytes).1,
  split-Shares sched bytes,
  rw all refl,
)
