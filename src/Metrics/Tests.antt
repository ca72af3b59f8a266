-- ===== src/Metrics/Tests.antt =====
-- The counters' theorems at concrete runs.
use ratelimiter_redis.Base.{◌≡◌, refl, ◌+◌, []}
use ratelimiter_redis.Base.Int.{pos, add64}
use ratelimiter_redis.Http.{status}
use ratelimiter_redis.Http.Samples.{get_root, blocks, hints_and_blocks}
use ratelimiter_redis.Metrics.{new_metrics, add_total, add_allowed, record_blocked, record_allowed}
use ratelimiter_redis.Metrics.Interleaving.{
  Shared, begins_allowed, ends_allowed, begins_blocked, ends_blocked, Reach, here, next, added,
  quiet, total_balanced, reset_falls_short,
}
use ratelimiter_redis.Metrics.Middleware.{
  metrics_handler, metrics_count_status, informational_hides_block,
}

-- One goroutine has recorded an allowed request, and another stands inside `recordBlocked`.
abbrev midway : Shared
midway = record {
  metrics = add_allowed (add_total (add_total new_metrics));
  allowing = 0;
  blocking = 1;
}

midway-Reach : Reach (quiet new_metrics) midway
midway-Reach =
    next (next (next here (begins_allowed refl)) (begins_blocked refl)) (ends_allowed 0 refl refl)

total_balanced_example :
    midway.metrics.total ≡ added 0 (added 1 (add64 midway.metrics.allowed midway.metrics.blocked))
total_balanced_example = total_balanced midway-Reach

abbrev after_reset : Shared
after_reset = quiet (record { allowed = pos 0; blocked = add64 (pos 0) (pos 1); total = pos 0 })

reset_falls_short_test :
    added (0 + 1) after_reset.metrics.total
    ≡ add64 after_reset.metrics.allowed after_reset.metrics.blocked
reset_falls_short_test =
    reset_falls_short midway {t = after_reset} (next here (ends_blocked 0 refl refl)) refl refl

metrics_count_status_example :
    metrics_handler blocks get_root (new_metrics, 0)
    ≡ ((blocks get_root 0).0, (record_blocked new_metrics, 1))
metrics_count_status_example = metrics_count_status blocks get_root new_metrics 0 (refl, tt)

informational_hides_block_test :
    (status (hints_and_blocks get_root 0).0 ≡ 429)
    × ((metrics_handler hints_and_blocks get_root (new_metrics, 0)).1
        ≡ (record_allowed new_metrics, 1))
informational_hides_block_test =
    informational_hides_block hints_and_blocks get_root new_metrics 0 103 [] refl refl
