-- ===== src/Http/Trusted.antt =====
-- Which backend frontend/src/core/api/http.ts talks to.
use runway_the_game.Prelude.{
  String, ◌==◌, ◌≡◌, refl, ap, ◌⊎◌, inl, inr, Bool, true, false, Option, none, some, includes,
  truthy, eq_iff, arith, Bool-cases, if◌then◌else◌,
}
use runway_the_game.Http.{
  Pinned, Location, read_pinned_origins, configured_origin, is_same, is_trusted_origin,
  is_trusted_api_base_url, explicit_api_base, default_base, honoured, without_slashes,
  resolve_api_base_url,
}

eq_text : (a b : String) → (a == b) ≡ true → a ≡ b
eq_text a b h = ground (arith, h, eq_iff a b)

module _ (origin_of : String → Option String) where
  -- An origin of the page, of the build's configuration, or that the device has pinned.
  abbrev pub IsTrusted : Option String → Pinned → Location → String → Type 0
  IsTrusted configured pinned here o =
      (origin_of here.origin ≡ some o)
      ⊎ ((configured_origin origin_of configured ≡ some o)
          ⊎ (includes o (read_pinned_origins pinned) ≡ true))

  -- The page's own backend, or a base whose origin is trusted.
  abbrev pub IsSafe : Option String → Pinned → Location → String → Type 0
  IsSafe configured pinned here base =
      (base ≡ default_base here)
      ⊎ ((o : String) × (origin_of base ≡ some o) × IsTrusted configured pinned here o)

  same_text : (a : Option String) (o : String) → is_same a o ≡ true → a ≡ some o
  same_text none o h = ground (arith, h)
  same_text (some a) o h = ap (λ t. some t) (eq_text a o h)

  origin-IsTrusted :
      (configured : Option String) (pinned : Pinned) (here : Location) (o : String)
      → is_trusted_origin origin_of configured pinned here o ≡ true
      → IsTrusted configured pinned here o
  origin-IsTrusted configured pinned here o h =
      elim (Bool-cases (is_same (origin_of here.origin) o)) [
        | inl e ↦ inl (same_text (origin_of here.origin) o e)
        | inr e ↦ elim (Bool-cases (is_same (configured_origin origin_of configured) o)) [
          | inl f ↦ inr (inl (same_text (configured_origin origin_of configured) o f))
          | inr f ↦ inr (inr (ground (arith, h, e, f)))
        ]
      ]

  url-IsTrusted :
      (configured : Option String) (pinned : Pinned) (here : Location) (c : String)
      (o : Option String)
      → origin_of c ≡ o
      → (elim o as (λ x. Bool) [
        | none ↦ false
        | some t ↦ is_trusted_origin origin_of configured pinned here t
      ])
        ≡ true
      → (t : String) × (origin_of c ≡ some t) × IsTrusted configured pinned here t
  url-IsTrusted configured pinned here c none e h = ground (arith, h)
  url-IsTrusted configured pinned here c (some o) e h =
      (o, e, origin-IsTrusted configured pinned here o h)

  chosen :
      (configured : Option String) (pinned : Pinned) (here : Location) (b : Bool) (c : String)
      → (b ≡ true → (t : String) × (origin_of c ≡ some t) × IsTrusted configured pinned here t)
      → IsSafe configured pinned here (if b then c else default_base here)
  chosen configured pinned here true c h = inr (h refl)
  chosen configured pinned here false c h = inl refl

  for_base :
      (configured : Option String) (pinned : Pinned) (here : Location) (o : Option String)
      → IsSafe configured pinned here (elim o as (λ x. String) [
        | none ↦ default_base here
        | some base ↦
            if truthy base
            then honoured origin_of configured pinned here (without_slashes base)
            else default_base here
      ])
  for_base configured pinned here none = inl refl
  for_base configured pinned here (some base) = elim (Bool-cases (truthy base)) [
    | inl e ↦ rw e (
        chosen configured pinned here
          (is_trusted_api_base_url origin_of configured pinned here (without_slashes base))
          (without_slashes base)
          (url-IsTrusted configured pinned here (without_slashes base)
            (origin_of (without_slashes base)) refl))
    | inr e ↦ rw e (inl refl)
  ]

  -- The base that is resolved is that of the page's location, or has an origin that is the page's or
  -- the configured one, or that the device has pinned, whatever the api parameter says.
  pub resolve_api_base_url-IsSafe :
      (api configured : Option String) (pinned : Pinned) (here : Location)
      → IsSafe configured pinned here (resolve_api_base_url origin_of api configured pinned here)
  unfolding resolve_api_base_url
  resolve_api_base_url-IsSafe api configured pinned here =
      for_base configured pinned here (explicit_api_base origin_of api configured)
