-- ===== src/Intrusive.antt =====
-- The interface of wheels::IntrusiveForwardList and IntrusiveList, which src/magic names in
-- common/intrusive/forward_list.h and does not implement: a list of items, seen through `to_list`.
use magic_core.Prelude.{◌≡◌, refl, ◌⊎◌, inl, inr, List, [], ◌∷◌, ◌++◌, Option, none, some}

pub record ForwardList (A : Type 0) : Type 1 where
  pub Carrier : Type 0
  pub empty : Carrier
  pub push_front : A → Carrier → Carrier
  pub push_back : Carrier → A → Carrier
  -- `none` on the empty list, where the code tests HasItems first.
  pub pop_front : Carrier → Option (A × Carrier)
  pub to_list : Carrier → List A
  pub to_list-empty : to_list empty ≡ []
  pub to_list-push_front : (x : A) (l : Carrier) → to_list (push_front x l) ≡ x ∷ to_list l
  pub to_list-push_back : (l : Carrier) (x : A) → to_list (push_back l x) ≡ to_list l ++ x ∷ []
  pub pop_front_cases :
      (l : Carrier)
      → ((to_list l ≡ []) × (pop_front l ≡ none))
        ⊎ ((x : A) × (rest : Carrier) × (to_list l ≡ x ∷ to_list rest)
            × (pop_front l ≡ some (x, rest)))

abbrev pub list_pop : {A : Type 0} → List A → Option (A × List A)
list_pop [] = none
list_pop (x ∷ xs) = some (x, xs)

pub list_pop_cases :
    {A : Type 0} (l : List A)
    → ((l ≡ []) × (list_pop l ≡ none))
      ⊎ ((x : A) × (rest : List A) × (l ≡ x ∷ rest) × (list_pop l ≡ some (x, rest)))
list_pop_cases [] = inl (refl, refl)
list_pop_cases (x ∷ xs) = inr (x, xs, refl, refl)

-- The interface can be met: by lists themselves.
abbrev pub plain_list : (A : Type 0) → ForwardList A
plain_list A = record {
  Carrier = List A;
  empty = [];
  push_front = ◌∷◌;
  push_back = λ l x. l ++ x ∷ [];
  pop_front = list_pop;
  to_list = λ l. l;
  to_list-empty = refl;
  to_list-push_front = λ x l. refl;
  to_list-push_back = λ l x. refl;
  pop_front_cases = list_pop_cases;
}
