-- ===== src/Driver/RateLimit/Clients.antt =====
-- Which address of the forwarding headers counts as the client (crates/peryx-driver/src/rate_limit.rs).
use velodex.Prelude.{
  ℕ, ◌≡◌, inl, inr, refl, sym, ◌∙◌, Bool, true, false, Option, none, some, List, [], ◌∷◌, ◌++◌,
  if◌then◌else◌, Bool-cases,
}
use velodex.Driver.RateLimit.{Forwarded, scan, forwarded}

abbrev pub backwards : List (Option ℕ) → List (Option ℕ)
backwards [] = []
backwards (part ∷ parts) = backwards parts ++ (part ∷ [])

module _ (trusts_proxy : ℕ → Bool) where
  -- Read from the peer's side: skip trusted proxies, and take the first other address. A part that is
  -- no address hides whatever stands before it.
  abbrev pub nearest_untrusted : List (Option ℕ) → Option ℕ → Option ℕ
  nearest_untrusted [] otherwise = otherwise
  nearest_untrusted (none ∷ parts) otherwise = none
  nearest_untrusted (some address ∷ parts) otherwise =
      let further = nearest_untrusted parts otherwise in
      if trusts_proxy address then further else some address

  abbrev outcome : Forwarded trusts_proxy → Option ℕ
  outcome seen = if seen.suffix_malformed then none else seen.client

  nearest_snoc :
      (parts : List (Option ℕ)) (part : Option ℕ) (otherwise : Option ℕ)
      → nearest_untrusted (parts ++ (part ∷ [])) otherwise
        ≡ nearest_untrusted parts (nearest_untrusted (part ∷ []) otherwise)
  nearest_snoc [] part otherwise = refl
  nearest_snoc (none ∷ parts) part otherwise = refl
  nearest_snoc (some address ∷ parts) part otherwise = rw (nearest_snoc parts part otherwise) refl

  outcome-scan :
      (seen : Forwarded trusts_proxy) (parts : List (Option ℕ))
      → outcome (scan trusts_proxy seen parts) ≡ nearest_untrusted (backwards parts) (outcome seen)
  unfolding scan
  outcome-scan seen [] = refl
  outcome-scan seen (none ∷ parts) =
      outcome-scan (record { client = none; suffix_malformed = true }) parts
      ∙ sym (nearest_snoc (backwards parts) none (outcome seen))
  outcome-scan seen (some address ∷ parts) = elim (Bool-cases (trusts_proxy address)) [
    | inl trusted ↦
        rw (trusted, scan)
          (outcome-scan seen parts
            ∙ sym (nearest_snoc (backwards parts) (some address) (outcome seen) ∙ rw trusted refl))
    | inr untrusted ↦
        rw (untrusted, scan)
          (outcome-scan (record { client = some address; suffix_malformed = false }) parts
            ∙ sym
                (nearest_snoc (backwards parts) (some address) (outcome seen) ∙ rw untrusted refl))
  ]

  -- The loop over the forwarded addresses finds the nearest address, from the peer's side, that is no
  -- trusted proxy, and nothing if a part that is no address comes before it or there is none.
  pub forwarded_nearest :
      (parts : List (Option ℕ))
      → forwarded trusts_proxy parts ≡ nearest_untrusted (backwards parts) none
  unfolding forwarded
  forwarded_nearest parts = outcome-scan (record { client = none; suffix_malformed = false }) parts
