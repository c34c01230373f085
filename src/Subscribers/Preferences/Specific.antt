-- ===== src/Subscribers/Preferences/Specific.antt =====
-- The most specific preference wins (preferences.go).
use qeet_notify.Base.{
  ℕ, ◌≤◌, ◌≡◌, refl, ◌&&◌, Option, none, some, List, [], ◌∷◌, arith, ◌==◌, if◌then◌else◌,
  Bool-cases, ==_iff, inl, inr, inl, inr,
}
use qeet_notify.Base.Text.{Str, str_eq}
use qeet_notify.Platform.Tables.{Preference}
use qeet_notify.Subscribers.Preferences.{applies, rank, first_by, choose, wildcard}

abbrev pub or_else : Option Preference → Option Preference → Option Preference
or_else none q = q
or_else (some p) q = some p

abbrev OfKey : (Preference → ℕ) → ℕ → Option Preference → Type 0
OfKey key k none = Unit
OfKey key k (some q) = key q ≡ k

abbrev placed : (Preference → ℕ) → Preference → ℕ → Option Preference → Option Preference
placed key p k x = if key p == k then some p else x

-- Taking the row of least key is a search by key, 0 first.
first_by-placed :
    (key : Preference → ℕ) (p : Preference) (x₀ x₁ x₂ x₃ : Option Preference)
    → key p ≤ 3
    → OfKey key 0 x₀
    → OfKey key 1 x₁
    → OfKey key 2 x₂
    → OfKey key 3 x₃
    → some (first_by key p (or_else x₀ (or_else x₁ (or_else x₂ x₃))))
      ≡ or_else
          (placed key p 0 x₀)
          (or_else (placed key p 1 x₁) (or_else (placed key p 2 x₂) (placed key p 3 x₃)))
first_by-placed key p (some a) x₁ x₂ x₃ h f₀ f₁ f₂ f₃ = ground arith
first_by-placed key p none (some b) x₂ x₃ h f₀ f₁ f₂ f₃ = ground arith
first_by-placed key p none none (some c) x₃ h f₀ f₁ f₂ f₃ = ground arith
first_by-placed key p none none none (some d) h f₀ f₁ f₂ f₃ = ground arith
first_by-placed key p none none none none h f₀ f₁ f₂ f₃ = ground arith

rank-le : (channel category : Str) (p : Preference) → rank channel category p ≤ 3
rank-le channel category p = ground arith

module _ (tenant_id subscriber_id channel category : Str) where
  -- The first row that applies and has this rank.
  ranked : ℕ → List Preference → Option Preference
  ranked k [] = none
  ranked k (p ∷ ps) =
      if applies tenant_id subscriber_id channel category p
      then placed (rank channel category) p k (ranked k ps)
      else ranked k ps

  rank-ranked : (k : ℕ) (ps : List Preference) → OfKey (rank channel category) k (ranked k ps)
  unfolding ranked
  rank-ranked k [] = tt
  rank-ranked k (q ∷ ps) = elim (Bool-cases (applies tenant_id subscriber_id channel category q)) [
    | inl yes_it_does ↦ rw yes_it_does (elim (Bool-cases (rank channel category q == k)) [
      | inl e ↦ rw e ((==_iff _ _).0 e)
      | inr e ↦ rw e (rank-ranked k ps)
    ])
    | inr e ↦ rw e (rank-ranked k ps)
  ]

  choose-ranked :
      (ps : List Preference)
      → choose tenant_id subscriber_id channel category ps
        ≡ or_else (ranked 0 ps) (or_else (ranked 1 ps) (or_else (ranked 2 ps) (ranked 3 ps)))
  unfolding choose ranked
  choose-ranked [] = refl
  choose-ranked (p ∷ ps) = elim (Bool-cases (applies tenant_id subscriber_id channel category p)) [
    | inl e ↦
        rw (e, choose-ranked ps)
          (first_by-placed (rank channel category) p _ _ _ _ (rank-le channel category p)
            (rank-ranked 0 ps) (rank-ranked 1 ps) (rank-ranked 2 ps) (rank-ranked 3 ps))
    | inr e ↦ rw e (choose-ranked ps)
  ]

-- The row of exactly this channel and category.
unfoldable pub setting : Str → Str → Str → Str → List Preference → Option Preference
setting tenant_id subscriber_id channel category [] = none
setting tenant_id subscriber_id channel category (p ∷ ps) =
    if str_eq p.tenant_id tenant_id
      && str_eq p.subscriber_id subscriber_id
      && str_eq p.channel channel
      && str_eq p.category category
    then some p
    else setting tenant_id subscriber_id channel category ps

module _ (tenant_id subscriber_id channel category : Str) where
  ranked-zero :
      (ps : List Preference)
      → ranked tenant_id subscriber_id channel category 0 ps
        ≡ setting tenant_id subscriber_id channel category ps
  unfolding ranked setting
  ranked-zero [] = refl
  ranked-zero (p ∷ ps) = ground (arith, ranked-zero ps)

  ranked-one :
      (ps : List Preference)
      → setting tenant_id subscriber_id channel category ps ≡ none
      → ranked tenant_id subscriber_id channel category 1 ps
        ≡ setting tenant_id subscriber_id channel wildcard ps
  unfolding ranked setting
  ranked-one [] h = refl
  ranked-one (p ∷ ps) h = ground (arith, ranked-one ps)

  ranked-two :
      (ps : List Preference)
      → setting tenant_id subscriber_id channel category ps ≡ none
      → ranked tenant_id subscriber_id channel category 2 ps
        ≡ setting tenant_id subscriber_id wildcard category ps
  unfolding ranked setting
  ranked-two [] h = refl
  ranked-two (p ∷ ps) h = ground (arith, ranked-two ps)

  ranked-three :
      (ps : List Preference)
      → setting tenant_id subscriber_id channel wildcard ps ≡ none
      → setting tenant_id subscriber_id wildcard category ps ≡ none
      → ranked tenant_id subscriber_id channel category 3 ps
        ≡ setting tenant_id subscriber_id wildcard wildcard ps
  unfolding ranked setting
  ranked-three [] h k = refl
  ranked-three (p ∷ ps) h k = ground (arith, ranked-three ps)

abbrev pub most_specific : Str → Str → Str → Str → List Preference → Option Preference
most_specific tenant_id subscriber_id channel category rows =
    or_else (setting tenant_id subscriber_id channel category rows) (
      or_else (setting tenant_id subscriber_id channel wildcard rows) (
        or_else (setting tenant_id subscriber_id wildcard category rows)
          (setting tenant_id subscriber_id wildcard wildcard rows)))

pub choose-most_specific :
    (tenant_id subscriber_id channel category : Str) (rows : List Preference)
    → choose tenant_id subscriber_id channel category rows
      ≡ most_specific tenant_id subscriber_id channel category rows
choose-most_specific t s ch cat rows = ground (
  arith,
  choose-ranked t s ch cat rows,
  ranked-zero t s ch cat rows,
  ranked-one t s ch cat rows,
  ranked-two t s ch cat rows,
  ranked-three t s ch cat rows,
)
