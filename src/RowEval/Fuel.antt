-- ===== src/RowEval/Fuel.antt =====
-- The number of steps is enough fuel for the quantifiers of a path (`quantified` of
-- src/query/eval.rs).
use clove1db.Prelude.{ℕ, suc, ◌≤◌, List, [], ◌∷◌, length, arith}
use clove1db.IdContract.{Step, at_key, at_index, any, every, len}

unfoldable pub quantifiers : List Step → ℕ
quantifiers [] = 0
quantifiers (any ∷ steps) = suc (quantifiers steps)
quantifiers (every ∷ steps) = suc (quantifiers steps)
quantifiers (at_key k ∷ steps) = quantifiers steps
quantifiers (at_index i ∷ steps) = quantifiers steps
quantifiers (len ∷ steps) = quantifiers steps

pub quantifiers-le-length : (steps : List Step) → quantifiers steps ≤ length steps
unfolding quantifiers
quantifiers-le-length [] = omega arith
quantifiers-le-length (any ∷ steps) = omega (arith, quantifiers-le-length steps)
quantifiers-le-length (every ∷ steps) = omega (arith, quantifiers-le-length steps)
quantifiers-le-length (at_key k ∷ steps) = omega (arith, quantifiers-le-length steps)
quantifiers-le-length (at_index i ∷ steps) = omega (arith, quantifiers-le-length steps)
quantifiers-le-length (len ∷ steps) = omega (arith, quantifiers-le-length steps)
