-- ===== src/Common/Sets.antt =====
-- A set as a list without repetitions: member, add and remove with their laws.
use mathlib.Core.Path.{◌≡◌}
use mathlib.Core.Bool.{Bool, false, ◌||◌}
use mathlib.Core.List.{List, [], ◌∷◌}
use native.Mathlib.Omega.{arith}
use moqxr.Common.Compare.{if◌then◌else◌}
use moqxr.Common.Equality.{Eq}

module _ {ℓ} {A : Type ℓ} ⦃e : Eq A⦄ where
  unfoldable pub member : A → List A → Bool
  member a [] = false
  member a (x ∷ xs) = e.beq x a || member a xs

  unfoldable pub add : A → List A → List A
  unfolding member
  add a xs = if member a xs then xs else a ∷ xs

  -- Every copy goes; a set has one.
  unfoldable pub remove : A → List A → List A
  remove a [] = []
  remove a (x ∷ xs) = if e.beq x a then remove a xs else x ∷ remove a xs

  pub member-add : (a b : A) (xs : List A) → member b (add a xs) ≡ (e.beq a b || member b xs)
  unfolding add
  member-add a b xs = ground (arith, e.beq_iff a b, same)
    where
      same : a ≡ b → member a xs ≡ member b xs
      same p = λ i. member (p i) xs

  pub member-remove :
      (a b : A) (xs : List A) → member b (remove a xs) ≡ (if e.beq a b then false else member b xs)
  unfolding remove member
  member-remove a b [] = ground arith
  member-remove a b (x ∷ xs) =
      ground (arith, e.beq_iff x a, e.beq_iff x b, e.beq_iff a b, member-remove a b xs)
