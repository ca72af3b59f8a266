-- ===== src/Mirroring/Tests.antt =====
-- A body of two bytes, of which the goroutine reads the first.
use Prim.Native.String.{◌++◌}
use ratelimiter_redis.Base.{ℕ, ◌≡◌, refl, String, true, false, none, some, List, [], ◌∷◌, length}
use ratelimiter_redis.Http.{Request, header_set}
use ratelimiter_redis.Http.Body.{Body, BodyHandler}
use ratelimiter_redis.Http.Samples.{get_root}
use ratelimiter_redis.Mirroring.{MirrorConfig, mirror_handler}
use ratelimiter_redis.Mirroring.Splitting.{Shares, body_shared}

abbrev target : MirrorConfig
target = record { should_mirror = none; mirror_target = "http://shadow" }

abbrev uri : Request → String
uri r = r.uri

abbrev counts : BodyHandler ℕ
counts r none n = ([], n)
counts r (some b) n = ([], length b.bytes)

body_shared_example :
    (copied kept : List ℕ) × Shares copied kept (71 ∷ 72 ∷ [])
    × (let b : Body = record { bytes = kept; failure = none } in
        mirror_handler uri
          (true ∷ false ∷ [])
          false
          target
          counts
          get_root
          (some (record { bytes = 71 ∷ 72 ∷ []; failure = none }))
          ([], 7)
        ≡ (
          (counts get_root (some b) 7).0,
          (
            record {
              method = "GET";
              url = "http://shadow" ++ "/";
              header = header_set "X-Mirrored-Request" "true" [];
              body = copied;
            }
                ∷ [],
            (counts get_root (some b) 7).1,
          ),
        ))
body_shared_example =
    body_shared uri (true ∷ false ∷ []) false target counts get_root (71 ∷ 72 ∷ []) [] 7 refl
