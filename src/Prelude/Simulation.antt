-- ===== src/Prelude/Simulation.antt =====
-- Two machines that take the same events: either both can take one, or neither.
use magic_core.Prelude.{◌≡◌, refl, Option, none, some, subst, arith}

module _ {A B : Type 0} (R : A → B → Type 0) where
  -- Neither state exists, or both do and correspond.
  abbrev pub Match : Option A → Option B → Type 0
  Match none none = Unit
  Match (some a) (some b) = R a b
  Match _ _ = ⊥

  -- Where both exist, the machines go on together.
  pub together :
      (f : A → Option A) (g : B → Option B) (x : Option A) (y : Option B)
      → Match x y
      → ((a : A) (b : B) → y ≡ some b → R a b → Match (f a) (g b))
      → Match (elim x [ none ↦ none | some a ↦ f a ]) (elim y [ none ↦ none | some b ↦ g b ])
  together f g none none m k = tt
  together f g (some a) (some b) m k = k a b refl m
  together f g none (some b) m k = elim m [ ]
  together f g (some a) none m k = elim m [ ]

  pub matched :
      (x : Option A) (y : Option B) (a : A)
      → Match x y
      → x ≡ some a
      → (b : B) × (y ≡ some b) × R a b
  matched none none a m e = absurd (ground arith)
  matched (some c) (some b) a m e = (b, refl, subst (λ d. R d b) (ground (arith, e)) m)
  matched none (some b) a m e = elim m [ ]
  matched (some c) none a m e = elim m [ ]
