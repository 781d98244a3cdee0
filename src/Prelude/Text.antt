-- ===== src/Prelude/Text.antt =====
-- Equality tests behind one operator, and Python's truth of values and sets of texts.
use Prim.Native.Nat.{ℕ}
use Prim.Native.String.{String}
use mathlib.Core.Path.{◌≡◌, refl, sym, ◌∙◌}
use mathlib.Core.Logic.{◌↔◌, ◌⊎◌, inl, inr}
use mathlib.Core.Bool.{Bool, true, false, Bool-discrete, true≢false, not, ◌||◌}
use mathlib.Core.Option.{Option, none, some}
use mathlib.Core.List.{List, [], ◌∷◌}
use native.Mathlib.Omega.{arith}
use text.Mathlib.Text.{◌==◌ as str_beq}
use text.Mathlib.TextEquality.{eq_iff}
use mcp_software_factory.Prelude.Tests.{
  nat_beq, nat_beq_iff, eqb, eqb_iff, Bool-cases, if◌then◌else◌,
}

-- A type with a test that decides equality.
pub record Eq {ℓ} (A : Type ℓ) : Type ℓ where
  pub same : A → A → Bool
  pub same_iff : (x y : A) → (same x y ≡ true) ↔ (x ≡ y)

-- The equality test of a type that `hlevel` finds discrete.
abbrev pub discrete_eq {ℓ} : {A : Type ℓ} → Discrete A → Eq A
discrete_eq dec = record { same = eqb dec; same_iff = eqb_iff dec }

instance abbrev pub nat_eq : Eq ℕ
nat_eq = record { same = nat_beq; same_iff = nat_beq_iff }

-- `x == y`
infix 50 ◌==◌
abbrev pub ◌==◌ {ℓ} : {A : Type ℓ} ⦃e : Eq A⦄ → A → A → Bool
◌==◌ ⦃e⦄ x y = e.same x y

instance abbrev pub string_eq : Eq String
string_eq = record { same = str_beq; same_iff = eq_iff }

-- `x == y` where a missing value is equal to itself alone
module _ {ℓ} {A : Type ℓ} ⦃e : Eq A⦄ where
  abbrev pub option_beq : Option A → Option A → Bool
  option_beq none none = true
  option_beq none (some _) = false
  option_beq (some _) none = false
  option_beq (some a) (some b) = a == b

  pub option_beq_iff : (a b : Option A) → (option_beq a b ≡ true) ↔ (a ≡ b)
  option_beq_iff none none = ((λ _. refl), (λ _. refl))
  option_beq_iff none (some b) = ((λ h. cc), (λ h. cc))
  option_beq_iff (some a) none = ((λ h. cc), (λ h. cc))
  option_beq_iff (some a) (some b) =
      ((λ h. cc ((e.same_iff a b).0 h)), (λ h. ground (arith, (e.same_iff a b).1)))

  -- `a in xs`
  abbrev pub contains : A → List A → Bool
  contains a [] = false
  contains a (x ∷ xs) = a == x || contains a xs

  pub contains-cons_iff :
      (a x : A) (xs : List A) → (contains a (x ∷ xs) ≡ true) ↔ ((a ≡ x) ⊎ (contains a xs ≡ true))
  contains-cons_iff a x xs = ground (arith, e.same_iff a x)

  -- `list(dict.fromkeys(xs))`: each value once, at its first place
  abbrev pub dedup_from : List A → List A → List A
  dedup_from seen [] = []
  dedup_from seen (x ∷ xs) =
      let rest = dedup_from (x ∷ seen) xs in
      let same = dedup_from seen xs in if contains x seen then same else x ∷ rest

-- The equality of optional values.
instance abbrev pub option_eq {ℓ} : {A : Type ℓ} ⦃e : Eq A⦄ → Eq (Option A)
option_eq = record { same = option_beq; same_iff = option_beq_iff }

module _ {ℓ} {A : Type ℓ} ⦃e : Eq A⦄ where
  abbrev pub dedup : List A → List A
  dedup xs = dedup_from [] xs

-- `bool(s)` of a text, and of one that may be missing
abbrev pub truthy : Option String → Bool
truthy none = false
truthy (some s) = not (str_beq s "")

-- `a or b` of texts that may be missing
abbrev pub or_else : Option String → Option String → Option String
or_else a b = if truthy a then a else b

-- `bool(xs)` of a list
abbrev pub is_nonempty {ℓ} : {A : Type ℓ} → List A → Bool
is_nonempty [] = false
is_nonempty (_ ∷ _) = true

-- An equality test decides equality.
abbrev pub eq_discrete {ℓ} : {A : Type ℓ} ⦃e : Eq A⦄ → Discrete A
eq_discrete ⦃e⦄ a b = elim (Bool-cases (e.same a b)) [
  | inl h ↦ yes ((e.same_iff a b).0 h)
  | inr h ↦ no (λ p. true≢false (sym ((e.same_iff a b).1 p) ∙ h))
]

unfoldable pub string_discrete : Discrete String
unfolding Bool-cases
string_discrete = eq_discrete

instance abbrev pub bool_eq : Eq Bool
bool_eq = discrete_eq Bool-discrete
