-- ===== src/Driver/RateLimit/Windows.antt =====
-- How many requests of one client a window admits (crates/peryx-driver/src/rate_limit.rs).
use velodex.Prelude.{
  ℕ, ◌+◌, ◌-◌, ◌≤◌, ◌<◌, min, ◌≡◌, inl, inr, refl, ap, subst, ◌∙◌, true, false, ◌&&◌, some, List,
  [], ◌∷◌, arith, ltb, ltb→lt, All, nat_eq, if◌then◌else◌, Bool-cases,
}
use velodex.Driver.RateLimit.{
  class_eq_iff, route_class_eq, RouteLimit, RateLimitConfig, limit, actor_eq_iff, BucketKey,
  same_bucket, Window, RateLimiter, evict,
}
use velodex.Driver.RateLimit.Checks.{
  Request, after, verdict, is_ok, check_config, check_elsewhere, check_room, check_full, IsBounded,
}

-- What happens to a limiter: a request, or the cache forgets a bucket.
pub data Event : Type 0 where
  asks : Request → Event
  forgets : BucketKey → Event

abbrev pub happens : RateLimiter → Event → RateLimiter
happens limiter (asks request) = after limiter request
happens limiter (forgets key) = evict limiter key

-- How many of the events are requests for a key, and how many of those are admitted.
abbrev pub asked : BucketKey → List Event → ℕ
asked key [] = 0
asked key (asks request ∷ events) =
    (if same_bucket request.key key then 1 else 0) + asked key events
asked key (forgets other ∷ events) = asked key events

abbrev pub admitted : BucketKey → RateLimiter → List Event → ℕ
admitted key limiter [] = 0
admitted key limiter (asks request ∷ events) =
    (if same_bucket request.key key && is_ok (verdict limiter request) then 1 else 0)
    + admitted key (after limiter request) events
admitted key limiter (forgets other ∷ events) = admitted key (evict limiter other) events

-- The window of the key is not over at a request, and the cache keeps its bucket.
abbrev pub KeepsWindow : BucketKey → Window → Event → Type 0
KeepsWindow key window (asks request) = request.now < window.reset_at
KeepsWindow key window (forgets other) = same_bucket other key ≡ false

same_bucket_eq : (a b : BucketKey) → same_bucket a b ≡ true → a ≡ b
same_bucket_eq a b h =
    let c : a.class ≡ b.class = (class_eq_iff a.class b.class).0 (ground arith) in
    let d : a.actor ≡ b.actor = (actor_eq_iff a.actor b.actor).0 (ground arith) in
    λ i. record { class = c i; actor = d i }

module _ (key : BucketKey) (config : RateLimitConfig)
    (bounded : IsBounded (limit config key.class)) where
  abbrev budget : ℕ
  budget = (limit config key.class).requests

  still_there :
      (limiter : RateLimiter) (window : Window) (other : BucketKey)
      → limiter.buckets key ≡ some window
      → same_bucket other key ≡ false
      → (evict limiter other).buckets key ≡ some window
  unfolding evict
  still_there limiter window other has kept = rw kept has

  window_admits :
      (limiter : RateLimiter) (window : Window) (events : List Event)
      → limiter.config ≡ config
      → limiter.buckets key ≡ some window
      → window.used ≤ budget
      → All (KeepsWindow key window) events
      → admitted key limiter events ≡ min (asked key events) (budget - window.used)
  unfolding evict
  window_admits limiter window [] e has fits early = omega arith
  window_admits limiter window (forgets other ∷ events) e has fits (kept, early) =
      window_admits (evict limiter other) window events e
        (still_there limiter window other has kept) fits early
  window_admits limiter window (asks request ∷ events) e has fits (first, early) =
      elim (Bool-cases (same_bucket request.key key)) [
        | inr other ↦
            let rest =
              window_admits (after limiter request) window events (check_config limiter request ∙ e)
                (check_elsewhere limiter request key other ∙ has) fits early in
            rw other (omega (arith, rest))
        | inl same ↦
            let k : request.key ≡ key = same_bucket_eq request.key key same in
            let c : limit config key.class ≡ limit limiter.config request.key.class =
              rw (e, k) refl in
            let has' : limiter.buckets request.key ≡ some window = rw k has in
            let bounded' : IsBounded (limit limiter.config request.key.class) =
              subst IsBounded c bounded in
            let requests_same = ap (λ (l : RouteLimit). l.requests) c in
            elim (Bool-cases (ltb window.used budget)) [
              | inl room ↦
                  let (granted, updated) =
                    check_room limiter request window has' first bounded'
                      (ground (arith, requests_same)) in
                  let rest =
                    window_admits (after limiter request) (record window { used = window.used + 1 })
                      events (check_config limiter request ∙ e)
                      (subst
                        (λ x.
                          (after limiter request).buckets x
                          ≡ some (record window { used = window.used + 1 }))
                        k updated)
                      (ground arith) early in
                  rw (same, granted) (omega (arith, rest, ltb→lt window.used budget room))
              | inr full ↦
                  let (refused, kept) =
                    check_full limiter request window has' first bounded'
                      (ground (arith, requests_same)) in
                  let rest =
                    window_admits (after limiter request) window events
                      (check_config limiter request ∙ e)
                      (subst (λ x. (after limiter request).buckets x ≡ some window) k kept) fits
                      early in
                  let used_up : budget ≤ window.used = ground arith in
                  rw (same, refused) (omega (arith, rest, used_up))
            ]
      ]

-- Where a route class has a limit and the window of a client is not overdrawn: until the window ends, and
-- as long as the cache keeps its bucket, the client is admitted for as many of its requests in the class
-- as the window has left, and for no more, whatever the other clients and classes do in between and
-- whichever other buckets the cache forgets.
pub window_bound :
    (key : BucketKey) (limiter : RateLimiter) (window : Window) (events : List Event)
    → IsBounded (limit limiter.config key.class)
    → limiter.buckets key ≡ some window
    → window.used ≤ (limit limiter.config key.class).requests
    → All (KeepsWindow key window) events
    → admitted key limiter events
      ≡ min (asked key events) ((limit limiter.config key.class).requests - window.used)
window_bound key limiter window events bounded has fits early =
    window_admits key limiter.config bounded limiter window events refl has fits early
