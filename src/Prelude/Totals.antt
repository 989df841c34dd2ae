-- ===== src/Prelude/Totals.antt =====
-- A weight summed over a list, and entries by index.
use magic_core.Prelude.{
  ℕ, zero, suc, ◌+◌, ◌<◌, ◌≡◌, none, some, List, [], ◌∷◌, ◌++◌, ◌==◌, if◌then◌else◌, arith, length,
  get_elem?, set, erase_idx, All, refl, ap,
}

module _ {ℓ} {A : Type ℓ} where
  abbrev pub total : (A → ℕ) → List A → ℕ
  total w [] = 0
  total w (x ∷ xs) = w x + total w xs

  pub total-append : (w : A → ℕ) (xs ys : List A) → total w (xs ++ ys) ≡ total w xs + total w ys
  total-append w [] ys = omega arith
  total-append w (x ∷ xs) ys = omega (arith, total-append w xs ys)

  pub total-set :
      (w : A → ℕ) (xs : List A) (i : ℕ) (x y : A)
      → get_elem? xs i ≡ some x
      → total w (set xs i y) + w x ≡ total w xs + w y
  total-set w [] i x y h = absurd (ground arith)
  total-set w (z ∷ xs) zero x y h = ground arith
  total-set w (z ∷ xs) (suc i) x y h = omega (arith, total-set w xs i x y h)

  pub total-erase_idx :
      (w : A → ℕ) (xs : List A) (i : ℕ) (x : A)
      → get_elem? xs i ≡ some x
      → total w (erase_idx xs i) + w x ≡ total w xs
  total-erase_idx w [] i x h = absurd (ground arith)
  total-erase_idx w (z ∷ xs) zero x h = ground arith
  total-erase_idx w (z ∷ xs) (suc i) x h = omega (arith, total-erase_idx w xs i x h)

  -- The weight may depend on the index, which starts at `n`.
  abbrev pub total_from : (ℕ → A → ℕ) → ℕ → List A → ℕ
  total_from w n [] = 0
  total_from w n (x ∷ xs) = w n x + total_from w (suc n) xs

  total_from-append_last :
      (w : ℕ → A → ℕ) (n : ℕ) (xs : List A) (y : A)
      → total_from w n (xs ++ y ∷ []) ≡ total_from w n xs + w (n + length xs) y
  total_from-append_last w n [] y = ground arith
  total_from-append_last w n (x ∷ xs) y =
      let shift : suc n + length xs ≡ n + suc (length xs) = omega arith in
      omega (arith, total_from-append_last w (suc n) xs y, ap (λ k. w k y) shift)

  total_from-set :
      (w : ℕ → A → ℕ) (n : ℕ) (xs : List A) (i : ℕ) (x y : A)
      → get_elem? xs i ≡ some x
      → total_from w n (set xs i y) + w (n + i) x ≡ total_from w n xs + w (n + i) y
  total_from-set w n [] i x y h = absurd (ground arith)
  total_from-set w n (z ∷ xs) zero x y h = ground arith
  total_from-set w n (z ∷ xs) (suc i) x y h =
      let shift : suc n + i ≡ n + suc i = omega arith in
      let rest = total_from-set w (suc n) xs i x y h in
      let here = ap (λ k. w k x) shift in
      let here' = ap (λ k. w k y) shift in omega (arith, rest, here, here')

  -- From index 0 on
  pub total_from_0-append_last :
      (w : ℕ → A → ℕ) (xs : List A) (y : A)
      → total_from w 0 (xs ++ y ∷ []) ≡ total_from w 0 xs + w (length xs) y
  total_from_0-append_last w xs y =
      let shift : 0 + length xs ≡ length xs = omega arith in
      omega (arith, total_from-append_last w 0 xs y, ap (λ k. w k y) shift)

  pub total_from_0-set :
      (w : ℕ → A → ℕ) (xs : List A) (i : ℕ) (x y : A)
      → get_elem? xs i ≡ some x
      → total_from w 0 (set xs i y) + w i x ≡ total_from w 0 xs + w i y
  total_from_0-set w xs i x y h =
      let shift : 0 + i ≡ i = omega arith in
      let whole = total_from-set w 0 xs i x y h in
      omega (arith, whole, ap (λ k. w k x) shift, ap (λ k. w k y) shift)

  pub total_from-same :
      (w w' : ℕ → A → ℕ) (n : ℕ) (xs : List A)
      → ((i : ℕ) (x : A) → i < n + length xs → w i x ≡ w' i x)
      → total_from w n xs ≡ total_from w' n xs
  total_from-same w w' n [] h = refl
  total_from-same w w' n (x ∷ xs) h =
      let rest = total_from-same w w' (suc n) xs λ i y b. h i y (omega (arith, b)) in
      omega (arith, rest, h n x (omega arith))

  pub total-same :
      (w w' : A → ℕ) (xs : List A) → All (λ x. w x ≡ w' x) xs → total w xs ≡ total w' xs
  total-same w w' [] h = refl
  total-same w w' (x ∷ xs) (same, h) = omega (arith, same, total-same w w' xs h)

  pub get_elem?-set :
      (xs : List A) (i : ℕ) (x y : A)
      → get_elem? xs i ≡ some x
      → (j : ℕ) → get_elem? (set xs i y) j ≡ (if j == i then some y else get_elem? xs j)
  get_elem?-set [] i x y h j = absurd (ground arith)
  get_elem?-set (z ∷ xs) zero x y h zero = ground arith
  get_elem?-set (z ∷ xs) zero x y h (suc j) = ground arith
  get_elem?-set (z ∷ xs) (suc i) x y h zero = ground arith
  get_elem?-set (z ∷ xs) (suc i) x y h (suc j) = ground (arith, get_elem?-set xs i x y h j)

  pub get_elem?-append_last :
      (xs : List A) (y : A) (j : ℕ)
      → get_elem? (xs ++ y ∷ []) j ≡ (if j == length xs then some y else get_elem? xs j)
  get_elem?-append_last [] y zero = ground arith
  get_elem?-append_last [] y (suc j) = ground arith
  get_elem?-append_last (x ∷ xs) y zero = ground arith
  get_elem?-append_last (x ∷ xs) y (suc j) = ground (arith, get_elem?-append_last xs y j)

  pub set-set : (xs : List A) (i : ℕ) (x y : A) → set (set xs i x) i y ≡ set xs i y
  set-set [] i x y = refl
  set-set (z ∷ xs) zero x y = refl
  set-set (z ∷ xs) (suc i) x y = ap (◌∷◌ z) (set-set xs i x y)

  pub set-append_last : (xs : List A) (x y : A) → set (xs ++ x ∷ []) (length xs) y ≡ xs ++ y ∷ []
  set-append_last [] x y = refl
  set-append_last (z ∷ xs) x y = ap (◌∷◌ z) (set-append_last xs x y)

  pub get_elem?-length : (xs : List A) → get_elem? xs (length xs) ≡ none
  get_elem?-length [] = refl
  get_elem?-length (z ∷ xs) = get_elem?-length xs

  pub length-set : (xs : List A) (i : ℕ) (y : A) → length (set xs i y) ≡ length xs
  length-set [] i y = omega arith
  length-set (x ∷ xs) zero y = omega arith
  length-set (x ∷ xs) (suc i) y = omega (arith, length-set xs i y)

  pub get_elem?-bound : (xs : List A) (i : ℕ) (x : A) → get_elem? xs i ≡ some x → i < length xs
  get_elem?-bound [] i x h = absurd (ground arith)
  get_elem?-bound (z ∷ xs) zero x h = omega arith
  get_elem?-bound (z ∷ xs) (suc i) x h = omega (arith, get_elem?-bound xs i x h)

  pub get_elem?-inside : (xs : List A) (i : ℕ) → i < length xs → (x : A) × (get_elem? xs i ≡ some x)
  get_elem?-inside [] i h = absurd (omega (arith, h))
  get_elem?-inside (z ∷ xs) zero h = (z, ground arith)
  get_elem?-inside (z ∷ xs) (suc i) h =
      let (x, found) = get_elem?-inside xs i (omega (arith, h)) in (x, found)

  module _ {κ} (P : A → Type κ) where
    pub All-append_last : (xs : List A) (y : A) → All P xs → P y → All P (xs ++ y ∷ [])
    All-append_last [] y h p = (p, tt)
    All-append_last (x ∷ xs) y (px, h) p = (px, All-append_last xs y h p)

    pub All-erase_idx : (xs : List A) (i : ℕ) → All P xs → All P (erase_idx xs i)
    All-erase_idx [] i h = tt
    All-erase_idx (x ∷ xs) zero (px, h) = h
    All-erase_idx (x ∷ xs) (suc i) (px, h) = (px, All-erase_idx xs i h)

    pub All-get : (xs : List A) (i : ℕ) (x : A) → get_elem? xs i ≡ some x → All P xs → P x
    All-get [] i x h a = absurd (ground arith)
    All-get (z ∷ xs) zero x h (pz, a) = ground arith
    All-get (z ∷ xs) (suc i) x h (pz, a) = All-get xs i x h a

  module _ {κ μ} (P : A → Type κ) (Q : A → Type μ) where
    pub All-map : ((x : A) → P x → Q x) → (xs : List A) → All P xs → All Q xs
    All-map f [] h = tt
    All-map f (x ∷ xs) (px, h) = (f x px, All-map f xs h)
