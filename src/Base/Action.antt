-- ===== src/Base/Action.antt =====
-- Calls that change a world and may fail. What was done before a failure stays done.
use mathlib.Core.Path.{◌≡◌, refl, ◌∙◌}
use mathlib.Core.Logic.{inl, inr}
use mathlib.Core.List.{List, [], ◌∷◌}
use eventnative.Base.Result.{Result, ok, err, Result-cases}

-- The result comes back with the world, in both cases.
abbrev pub Action {ℓ κ μ} : Type ℓ → Type κ → Type μ → Type (ℓ ⊔ κ ⊔ μ)
Action W E A = W → Result E A × W

abbrev pub Effect {ℓ κ} : Type ℓ → Type κ → Type (ℓ ⊔ κ)
Effect W E = W → Result E (Unit {0}) × W

module _ {ℓ κ μ} {W : Type ℓ} {E : Type κ} {A : Type μ} where
  abbrev pub done : A → Action W E A
  done a w = (ok a, w)

  -- The steps behind a failure are left out: `if err != nil { return err }`.
  abbrev pub then_do {ν} : {B : Type ν} → Action W E A → (A → Action W E B) → Action W E B
  then_do first next w = let (r, w') = first w in elim r [ err e ↦ (err e, w') | ok a ↦ next a w' ]

  -- Another error in place of the one that came, and an end behind a failure.
  abbrev pub wrap_error {ν} : {F : Type ν} → (E → F) → Action W E A → Action W F A
  wrap_error f act w = let (r, w') = act w in (elim r [ err e ↦ err (f e) | ok a ↦ ok a ], w')

  abbrev pub on_error : (W → W) → Action W E A → Action W E A
  on_error recover act w =
      let (r, w') = act w in elim r [ err e ↦ (err e, recover w') | ok a ↦ (ok a, w') ]

module _ {ℓ κ} {W : Type ℓ} {E : Type κ} where
  -- A loop that the first error ends.
  abbrev pub for_each {μ} : {X : Type μ} → (X → Effect W E) → List X → Effect W E
  for_each act [] = done tt
  for_each act (x ∷ xs) = then_do (act x) (λ _. for_each act xs)

-- A measure of the world that an action leaves alone.
abbrev pub Keeps {ℓ κ μ ν} :
    {W : Type ℓ} {E : Type κ} {A : Type μ} {X : Type ν} → (W → X) → Action W E A → Type (ℓ ⊔ ν)
Keeps {W = W} m act = (w : W) → m (act w).1 ≡ m w

module _ {ℓ κ μ ν} {W : Type ℓ} {E : Type κ} {A : Type μ} {X : Type ν} (m : W → X) where
  pub then_do-Keeps {ρ} :
      {B : Type ρ} (first : Action W E A) (next : A → Action W E B)
      → Keeps m first
      → ((a : A) → Keeps m (next a))
      → Keeps m (then_do first next)
  then_do-Keeps first next h k w = elim (Result-cases (first w).0) [
    | inl (a, is_ok) ↦ rw (is_ok, then_do) (k a (first w).1 ∙ h w)
    | inr (e, is_err) ↦ rw (is_err, then_do) (h w)
  ]

  pub wrap_error-Keeps {ρ} :
      {F : Type ρ} (f : E → F) (act : Action W E A) → Keeps m act → Keeps m (wrap_error f act)
  wrap_error-Keeps f act h = h

module _ {ℓ κ ν} {W : Type ℓ} {E : Type κ} {X : Type ν} (m : W → X) where
  pub for_each-Keeps {μ} :
      {Y : Type μ} (act : Y → Effect W E) (ys : List Y)
      → ((y : Y) → Keeps m (act y))
      → Keeps m (for_each act ys)
  for_each-Keeps act [] h = λ w. refl
  for_each-Keeps act (y ∷ ys) h =
      then_do-Keeps m (act y) (λ _. for_each act ys) (h y) (λ _. for_each-Keeps act ys h)
