-- ===== src/Driver/RateLimit/Checks.antt =====
-- One request against its budget: the results of a check (crates/peryx-driver/src/rate_limit.rs).
use velodex.Prelude.{
  ℕ, ◌+◌, ◌≤◌, ◌<◌, ◌≡◌, inl, inr, refl, ap, ◌∙◌, Bool, true, false, ◌||◌, some, arith, ltb, ◌==◌,
  nat_eq, Bool-cases,
}
use velodex.Prelude.Results.{Result, ok, err}
use velodex.Driver.RateLimit.{
  class_eq_iff, route_class_eq, RouteLimit, limit, actor_eq_iff, BucketKey, same_bucket, Window,
  Limited, RateLimiter, put_bucket, current, retry_after, increment, check,
}

abbrev pub is_ok : Result Limited (Unit {0}) → Bool
is_ok (ok _) = true
is_ok (err _) = false

pub record Request : Type 0 where
  pub key : BucketKey
  pub now : ℕ

module _ (limiter : RateLimiter) (request : Request) where
  abbrev pub after : RateLimiter
  after = (check limiter request.key.class request.key.actor request.now).0

  abbrev pub verdict : Result Limited (Unit {0})
  verdict = (check limiter request.key.class request.key.actor request.now).1

  abbrev bound : RouteLimit
  bound = limit limiter.config request.key.class

  abbrev is_unlimited : Bool
  is_unlimited = (bound.requests == 0) || (bound.window_secs == 0)

  abbrev window : Window
  window = current bound (limiter.buckets request.key) request.now

  abbrev with_window : Window → RateLimiter
  with_window w = record limiter { buckets = put_bucket limiter.buckets request.key w }

  -- The three results of a check.
  unlimited_step :
      is_unlimited ≡ true
      → check limiter request.key.class request.key.actor request.now
        ≡ (record limiter { allowed = increment limiter.allowed request.key.class }, ok tt)
  unfolding check
  unlimited_step e = rw (e, check) refl

  admitted_step :
      is_unlimited ≡ false
      → ltb window.used bound.requests ≡ true
      → check limiter request.key.class request.key.actor request.now ≡ (
        record limiter {
          buckets =
              put_bucket limiter.buckets request.key (record window { used = window.used + 1 });
          allowed = increment limiter.allowed request.key.class;
        },
        ok tt,
      )
  unfolding check
  admitted_step e e' = rw (e, e', check) refl

  denied_step :
      is_unlimited ≡ false
      → ltb window.used bound.requests ≡ false
      → check limiter request.key.class request.key.actor request.now ≡ (
        record limiter {
          buckets = put_bucket limiter.buckets request.key window;
          denied = increment limiter.denied request.key.class;
        },
        err (record {
          class = request.key.class;
          actor = request.key.actor;
          retry_after = retry_after window request.now;
        }),
      )
  unfolding check
  denied_step e e' = rw (e, e', check) refl

  pub check_config : after.config ≡ limiter.config
  check_config = elim (Bool-cases is_unlimited) [
    | inl free ↦ ap (λ o. o.0.config) (unlimited_step free)
    | inr bounded ↦ elim (Bool-cases (ltb window.used bound.requests)) [
      | inl room ↦ ap (λ o. o.0.config) (admitted_step bounded room)
      | inr full ↦ ap (λ o. o.0.config) (denied_step bounded full)
    ]
  ]

  pub check_elsewhere :
      (key : BucketKey)
      → same_bucket request.key key ≡ false
      → after.buckets key ≡ limiter.buckets key
  check_elsewhere key other = elim (Bool-cases is_unlimited) [
    | inl free ↦ ap (λ o. o.0.buckets key) (unlimited_step free)
    | inr bounded ↦ elim (Bool-cases (ltb window.used bound.requests)) [
      | inl room ↦ ap (λ o. o.0.buckets key) (admitted_step bounded room) ∙ rw other refl
      | inr full ↦ ap (λ o. o.0.buckets key) (denied_step bounded full) ∙ rw other refl
    ]
  ]

  -- Inside a window of the request's own key.
  module _ (w : Window) (has : limiter.buckets request.key ≡ some w)
      (early : request.now < w.reset_at) (bounded : is_unlimited ≡ false) where
    same_window : window ≡ w
    unfolding current
    same_window = rw (has, current) (ground arith)

    itself : same_bucket request.key request.key ≡ true
    itself =
        rw ((class_eq_iff request.key.class request.key.class).1 refl)
          ((actor_eq_iff request.key.actor request.key.actor).1 refl)

    pub check_room :
        w.used < bound.requests
        → (is_ok verdict ≡ true)
          × (after.buckets request.key ≡ some (record w { used = w.used + 1 }))
    check_room room =
        let e = admitted_step bounded (ground (arith, ap (λ x. x.used) same_window)) in
        (
          ap (λ o. is_ok o.1) e,
          ap (λ o. o.0.buckets request.key) e
              ∙ rw itself
                  (ap {A = Window} (λ x. some (record x { used = x.used + 1 })) same_window),
        )

    pub check_full :
        bound.requests ≤ w.used → (is_ok verdict ≡ false) × (after.buckets request.key ≡ some w)
    check_full full =
        let e = denied_step bounded (ground (arith, ap (λ x. x.used) same_window)) in
        (
          ap (λ o. is_ok o.1) e,
          ap (λ o. o.0.buckets request.key) e ∙ rw itself (ap some same_window),
        )

abbrev pub IsBounded : RouteLimit → Type 0
IsBounded bound = ((bound.requests == 0) || (bound.window_secs == 0)) ≡ false
