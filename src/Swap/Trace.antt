-- ===== src/Swap/Trace.antt =====
-- An operation on disk as the states after each of its steps.
use clove1db.Prelude.{◌≡◌, refl, sym, ◌∙◌, ap, List, [], ◌∷◌, ◌++◌, map, All, All-append}
use mathlib.Core.Path.{subst}

abbrev pub Op {ℓ} : Type ℓ → Type ℓ
Op S = S → List S

module _ {ℓ} {S : Type ℓ} where
  -- The state after the last step.
  unfoldable pub final : S → List S → S
  final s [] = s
  final s (t ∷ rest) = final t rest

  infixl 20 ◌andthen◌
  unfoldable pub ◌andthen◌ : Op S → Op S → Op S
  ◌andthen◌ f g s = f s ++ g (final s (f s))

  unfoldable pub each : Op S → Op (List S)
  each f [] = []
  each f (s ∷ rest) = map (λ t. t ∷ rest) (f s) ++ map (λ r. final s (f s) ∷ r) (each f rest)

  pub final-append : (s : S) (xs ys : List S) → final s (xs ++ ys) ≡ final (final s xs) ys
  unfolding final
  final-append s [] ys = refl
  final-append s (x ∷ xs) ys = final-append x xs ys

  pub final-andthen :
      (f g : Op S) (s : S) → final s ((f andthen g) s) ≡ final (final s (f s)) (g (final s (f s)))
  unfolding ◌andthen◌
  final-andthen f g s = final-append s (f s) (g (final s (f s)))

  module _ {κ} (P : S → Type κ) where
    -- Every state on the way has the property.
    abbrev pub Keeps : Op S → Type (ℓ ⊔ κ)
    Keeps f = (s : S) → P s → All P (f s)

    pub final-All : (s : S) (xs : List S) → P s → All P xs → P (final s xs)
    unfolding final
    final-All s [] p a = p
    final-All s (x ∷ xs) p a = final-All x xs a.0 a.1

    pub All-andthen :
        (f g : Op S) (s : S) → All P (f s) → All P (g (final s (f s))) → All P ((f andthen g) s)
    unfolding ◌andthen◌
    All-andthen f g s h k = All-append P (f s) (g (final s (f s))) h k

    pub andthen-Keeps : (f g : Op S) → Keeps f → Keeps g → Keeps (f andthen g)
    unfolding ◌andthen◌
    andthen-Keeps f g kf kg s p =
        All-append P (f s) (g (final s (f s))) (kf s p)
          (kg (final s (f s)) (final-All s (f s) p (kf s p)))

module _ {ℓ} {S T : Type ℓ} where
  pub final-map : (f : S → T) (s : S) (xs : List S) → final (f s) (map f xs) ≡ f (final s xs)
  unfolding final
  final-map f s [] = refl
  final-map f s (x ∷ xs) = final-map f x xs

  pub All-mapped {κ μ} :
      (P : S → Type κ) (Q : T → Type μ) (f : S → T) (xs : List S)
      → ((s : S) → P s → Q (f s))
      → All P xs
      → All Q (map f xs)
  All-mapped P Q f [] h a = tt
  All-mapped P Q f (x ∷ xs) h a = (h x a.0, All-mapped P Q f xs h a.1)

pub All-always {ℓ κ} : {S : Type ℓ} (P : S → Type κ) (xs : List S) → ((s : S) → P s) → All P xs
All-always P [] h = tt
All-always P (x ∷ xs) h = (h x, All-always P xs h)

module _ {ℓ} {S : Type ℓ} (f : Op S) where
  -- Working through a list ends with every element worked on.
  pub final-each : (l : List S) → final l (each f l) ≡ map (λ s. final s (f s)) l
  unfolding each final
  final-each [] = refl
  final-each (s ∷ rest) =
      final-append (s ∷ rest) (map (λ t. t ∷ rest) (f s))
        (map (λ r. final s (f s) ∷ r) (each f rest))
      ∙ ap (λ l. final l (map (λ r. final s (f s) ∷ r) (each f rest)))
          (final-map (λ t. t ∷ rest) s (f s))
      ∙ final-map (λ r. final s (f s) ∷ r) rest (each f rest)
      ∙ ap (λ r. final s (f s) ∷ r) (final-each rest)

  pub each-Keeps {κ} : (P : S → Type κ) → Keeps P f → Keeps (All P) (each f)
  unfolding each
  each-Keeps P k [] a = tt
  each-Keeps P k (s ∷ rest) a =
      All-append (All P) (map (λ t. t ∷ rest) (f s)) (map (λ r. final s (f s) ∷ r) (each f rest))
        (All-mapped P (All P) (λ t. t ∷ rest) (f s) (λ t p. (p, a.1)) (k s a.0))
        (All-mapped (All P) (All P) (λ r. final s (f s) ∷ r) (each f rest)
          (λ r p. (final-All P s (f s) a.0 (k s a.0), p)) (each-Keeps P k rest a.1))

-- A condition on each element that depends on what the element is to become.
module _ {ℓ} {A S : Type ℓ} where
  unfoldable pub Each : (A → S → Type 0) → List A → List S → Type 0
  Each P [] [] = Unit {0}
  Each P (a ∷ aims) (s ∷ l) = P a s × Each P aims l
  Each P _ _ = ⊥

  pub Each-map :
      (P : A → S → Type 0) (Q : A → S → Type 0) (aims : List A) (l : List S)
      → ((a : A) (s : S) → P a s → Q a s)
      → Each P aims l
      → Each Q aims l
  unfolding Each
  Each-map P Q [] [] h e = tt
  Each-map P Q (a ∷ aims) (s ∷ l) h e = (h a s e.0, Each-map P Q aims l h e.1)
  Each-map P Q [] (s ∷ l) h e = absurd e
  Each-map P Q (a ∷ aims) [] h e = absurd e

  module _ (P : A → S → Type 0) (f : Op S) where
    pub each-Each :
        ((a : A) → Keeps (P a) f)
        → (aims : List A) (l : List S) → Each P aims l
        → All (Each P aims) (each f l)
    unfolding Each each
    each-Each k [] [] e = tt
    each-Each k [] (s ∷ l) e = absurd e
    each-Each k (a ∷ aims) [] e = absurd e
    each-Each k (a ∷ aims) (s ∷ l) e =
        All-append (Each P (a ∷ aims)) (map (λ t. t ∷ l) (f s))
          (map (λ r. final s (f s) ∷ r) (each f l))
          (All-mapped (P a) (Each P (a ∷ aims)) (λ t. t ∷ l) (f s) (λ t p. (p, e.1)) (k a s e.0))
          (All-mapped (Each P aims) (Each P (a ∷ aims)) (λ r. final s (f s) ∷ r) (each f l)
            (λ r p. (final-All (P a) s (f s) e.0 (k a s e.0), p)) (each-Each k aims l e.1))

    pub final-Each :
        (Q : A → S → Type 0)
        → ((a : A) (s : S) → P a s → Q a (final s (f s)))
        → (aims : List A) (l : List S) → Each P aims l
        → Each Q aims (final l (each f l))
    unfolding Each final
    final-Each Q h aims l e = subst (Each Q aims) (sym (final-each f l)) (go aims l e)
      where
        go : (aims : List A) (l : List S) → Each P aims l → Each Q aims (map (λ s. final s (f s)) l)
        go [] [] e = tt
        go [] (s ∷ l) e = absurd e
        go (a ∷ aims) [] e = absurd e
        go (a ∷ aims) (s ∷ l) e = (h a s e.0, go aims l e.1)
