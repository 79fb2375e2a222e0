-- ===== src/Driver/RateLimit.antt =====
-- crates/peryx-driver/src/rate_limit.rs: request budgets per client and route class. Times are in
-- nanoseconds. The buckets are a map, and the capacity that their cache is built with stands beside it.
-- The cache is that of the package `moka`, which may forget any bucket at any time to stay within its
-- capacity: that is `evict`, an event between two requests. An address is a number; the networks of trusted proxies, the parsing of addresses and the hash of a principal are
-- arguments.
pub mod Checks
pub mod Windows
pub mod Clients
use velodex.Prelude.{
  ℕ, suc, ◌+◌, ◌*◌, ◌-◌, ◌/◌, ◌%◌, min, max, ◌++◌, ◌≡◌, ◌↔◌, Bool, true, false, not, ◌&&◌, ◌||◌,
  Option, none, some, List, [], ◌∷◌, arith, Str, ltb, leb, is_none_or, get_or, PartialEq, ◌==◌,
  nat_eq, if◌then◌else◌,
}
use velodex.Prelude.Results.{Result, ok, err}

pub data RouteClass : Type 0 where
  listing metadata artifact upload admin : RouteClass

abbrev class_eq : RouteClass → RouteClass → Bool
class_eq listing listing = true
class_eq metadata metadata = true
class_eq artifact artifact = true
class_eq upload upload = true
class_eq admin admin = true
class_eq _ _ = false

pub class_eq_iff : (a b : RouteClass) → (class_eq a b ≡ true) ↔ (a ≡ b)
class_eq_iff a b = (λ h. ground arith, λ h. ground arith)

instance abbrev pub route_class_eq : PartialEq RouteClass
route_class_eq = record { eq = class_eq; eq_iff = class_eq_iff }

pub record RouteLimit : Type 0 where
  pub requests : ℕ
  pub window_secs : ℕ

pub record RateLimitConfig : Type 0 where
  pub enabled : Bool
  pub max_clients : ℕ
  pub listing : RouteLimit
  pub metadata : RouteLimit
  pub artifact : RouteLimit
  pub upload : RouteLimit
  pub admin : RouteLimit

unfoldable pub limit : RateLimitConfig → RouteClass → RouteLimit
limit config listing = config.listing
limit config metadata = config.metadata
limit config artifact = config.artifact
limit config upload = config.upload
limit config admin = config.admin

pub data ActorKey : Type 0 where
  ip token : ℕ → ActorKey

abbrev actor_eq : ActorKey → ActorKey → Bool
actor_eq (ip a) (ip b) = a == b
actor_eq (token a) (token b) = a == b
actor_eq _ _ = false

pub actor_eq_iff : (a b : ActorKey) → (actor_eq a b ≡ true) ↔ (a ≡ b)
actor_eq_iff (ip a) (ip b) = (λ h. ground (arith, (nat_eq.eq_iff a b).0), λ h. ground arith)
actor_eq_iff (token a) (token b) = (λ h. ground (arith, (nat_eq.eq_iff a b).0), λ h. ground arith)
actor_eq_iff (ip a) (token b) = (λ h. cc, λ h. cc)
actor_eq_iff (token a) (ip b) = (λ h. cc, λ h. cc)

pub record BucketKey : Type 0 where
  pub class : RouteClass
  pub actor : ActorKey

abbrev pub same_bucket : BucketKey → BucketKey → Bool
same_bucket a b = class_eq a.class b.class && actor_eq a.actor b.actor

pub record Window : Type 0 where
  pub reset_at : ℕ
  pub used : ℕ

pub record Limited : Type 0 where
  pub class : RouteClass
  pub actor : ActorKey
  pub retry_after : ℕ

abbrev pub RouteCounters : Type 0
RouteCounters = RouteClass → ℕ

-- `RouteCounters::increment`, of a counter of 64 bits that wraps
unfoldable pub increment : RouteCounters → RouteClass → RouteCounters
increment counters class other =
    if class == other then (counters other + 1) % 18446744073709551616 else counters other

pub record RateLimiter : Type 0 where
  pub config : RateLimitConfig
  pub max_capacity : ℕ
  pub buckets : BucketKey → Option Window
  pub allowed : RouteCounters
  pub denied : RouteCounters

-- `RouteClass::COUNT`
abbrev pub count : ℕ
count = 5

abbrev pub u64_max : ℕ
u64_max = 18446744073709551615

-- `max_clients.saturating_mul(RouteClass::COUNT).max(1)`
unfoldable pub capacity : RateLimitConfig → ℕ
capacity config = max (min (config.max_clients * count) u64_max) 1

unfoldable pub new : RateLimitConfig → RateLimiter
unfolding capacity
new config = record {
  config = config;
  max_capacity = capacity config;
  buckets = λ key. none;
  allowed = λ class. 0;
  denied = λ class. 0;
}

abbrev pub nanos : ℕ
nanos = 1000000000

abbrev pub put_bucket : (BucketKey → Option Window) → BucketKey → Window → BucketKey → Option Window
put_bucket buckets key window other = if same_bucket key other then some window else buckets other

-- The window of a key at a time: what the cache has, or a new one, and a new one where it is over.
unfoldable pub current : RouteLimit → Option Window → ℕ → Window
current limit none now = record { reset_at = now + limit.window_secs * nanos; used = 0 }
current limit (some window) now =
    if leb window.reset_at now
    then record { reset_at = now + limit.window_secs * nanos; used = 0 }
    else window

unfoldable pub retry_after : Window → ℕ → ℕ
retry_after window now =
    let seconds = (window.reset_at - now) / nanos in if ltb seconds 1 then 1 else seconds

-- `RateLimiter::check`
unfoldable pub check :
    RateLimiter → RouteClass → ActorKey → ℕ → RateLimiter × Result Limited (Unit {0})
unfolding limit increment current retry_after
check limiter class actor now =
    let bound = limit limiter.config class in
    if (bound.requests == 0) || (bound.window_secs == 0)
    then (record limiter { allowed = increment limiter.allowed class }, ok tt)
    else (let key : BucketKey = record { class = class; actor = actor } in
        let window = current bound (limiter.buckets key) now in
        if ltb window.used bound.requests
        then (
          record limiter {
            buckets = put_bucket limiter.buckets key (record window { used = window.used + 1 });
            allowed = increment limiter.allowed class;
          },
          ok tt,
        )
        else (
          record limiter {
            buckets = put_bucket limiter.buckets key window;
            denied = increment limiter.denied class;
          },
          err (record { class = class; actor = actor; retry_after = retry_after window now }),
        ))

-- The cache forgets a bucket.
unfoldable pub evict : RateLimiter → BucketKey → RateLimiter
evict limiter key = record limiter {
  buckets = λ other. if same_bucket key other then none else limiter.buckets other;
}

module _ (trusts_proxy : ℕ → Bool) where
  -- The loop of `forwarded_client_ip` over the addresses of the header, with its two variables;
  -- `none` is a part that is no address.
  pub record Forwarded : Type 0 where
    pub client : Option ℕ
    pub suffix_malformed : Bool

  unfoldable pub scan : Forwarded → List (Option ℕ) → Forwarded
  scan seen [] = seen
  scan seen (none ∷ parts) = scan (record { client = none; suffix_malformed = true }) parts
  scan seen (some address ∷ parts) =
      scan
        (if not (trusts_proxy address)
          then record { client = some address; suffix_malformed = false }
          else seen)
        parts

  unfoldable pub forwarded : List (Option ℕ) → Option ℕ
  unfolding scan
  forwarded parts =
      let seen = scan (record { client = none; suffix_malformed = false }) parts in
      if seen.suffix_malformed then none else seen.client

  -- `forwarded_client_ip`: the parts of all `x-forwarded-for` values, or else the one `x-real-ip` value
  unfoldable pub forwarded_client_ip : List (List (Option ℕ)) → List (Option ℕ) → Option ℕ
  unfolding forwarded
  forwarded_client_ip [] [] = none
  forwarded_client_ip [] (real ∷ []) = real
  forwarded_client_ip [] (real ∷ another ∷ rest) = none
  forwarded_client_ip (value ∷ values) real = forwarded (all_parts (value ∷ values))
    where
      all_parts : List (List (Option ℕ)) → List (Option ℕ)
      all_parts [] = []
      all_parts (v ∷ vs) = v ++ all_parts vs

  unfoldable pub client_ip : Option ℕ → List (List (Option ℕ)) → List (Option ℕ) → Option ℕ
  unfolding forwarded_client_ip
  client_ip none values real = none
  client_ip (some peer) values real =
      if not (trusts_proxy peer)
      then some peer
      else some (get_or peer (forwarded_client_ip values real))
