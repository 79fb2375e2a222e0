-- ===== src/Driver/Examples.antt =====
-- Runs of the request budgets.
use velodex.Prelude.{◌-◌, min, ◌≡◌, refl, arith, true, none, some, List, [], ◌∷◌, ◌==◌, nat_eq}
use velodex.Driver.RateLimit.{
  listing, upload, RouteLimit, RateLimitConfig, limit, ip, BucketKey, Window, RateLimiter,
  put_bucket, forwarded, check, current, increment, retry_after, evict,
}
use velodex.Driver.RateLimit.Windows.{Event, asks, forgets, admitted, window_bound}
use velodex.Driver.RateLimit.Clients.{nearest_untrusted, forwarded_nearest}

abbrev two_per_minute : RouteLimit
two_per_minute = record { requests = 2; window_secs = 60 }

abbrev strict : RateLimitConfig
strict = record {
  enabled = true;
  max_clients = 8;
  listing = two_per_minute;
  metadata = two_per_minute;
  artifact = two_per_minute;
  upload = two_per_minute;
  admin = two_per_minute;
}

abbrev uploader : BucketKey
uploader = record { class = upload; actor = ip 7 }

abbrev half_used : Window
half_used = record { reset_at = 100; used = 1 }

abbrev started : RateLimiter
started = record {
  config = strict;
  max_capacity = 40;
  buckets = put_bucket (λ key. none) uploader half_used;
  allowed = λ class. 0;
  denied = λ class. 0;
}

abbrev lister : BucketKey
lister = record { class = listing; actor = ip 7 }

abbrev burst : List Event
burst =
    asks (record { key = uploader; now = 10 })
    ∷ asks (record { key = lister; now = 11 })
    ∷ forgets lister
    ∷ asks (record { key = uploader; now = 12 })
    ∷ []

window_bound_example : admitted uploader started burst ≡ min 2 (2 - 1)
unfolding limit
window_bound_example =
    window_bound uploader started half_used burst refl refl (omega arith)
      (omega arith, (omega arith, (refl, (omega arith, tt))))

-- A bucket that the cache forgets starts again.
forgotten_again : admitted uploader started (forgets uploader ∷ burst) ≡ 2
unfolding check limit current increment retry_after evict
forgotten_again = refl

forwarded_nearest_example :
    forwarded (λ address. address == 1) (some 9 ∷ some 8 ∷ some 1 ∷ [])
    ≡ nearest_untrusted (λ address. address == 1) (some 1 ∷ some 8 ∷ some 9 ∷ []) none
forwarded_nearest_example =
    forwarded_nearest (λ address. address == 1) (some 9 ∷ some 8 ∷ some 1 ∷ [])
