-- ===== src/Futures/Chain/Growth.antt =====
-- A new contract, whose result is known in advance, changes nothing for the others.
use magic_core.Prelude.{
  ℕ, suc, ◌+◌, ◌<◌, ◌≡◌, Bool-cases, inl, inr, Option, none, some, [], ◌∷◌, ◌++◌, ◌==◌,
  if◌then◌else◌, refl, ap, arith, length, length-append, get_elem?, subst, sym, ◌∙◌, All,
}
use magic_core.Prelude.Totals.{total-append, get_elem?-append_last, get_elem?-bound, All-map}
use magic_core.Futures.Chain.{
  Answer, Callback, Slot, empty, ready, waits, spent, Cell, Task, sets, calls, builds, State,
  make_contract_via,
}
use magic_core.Futures.Chain.Meaning.{eval}
use magic_core.Futures.Chain.Invariant.{
  target, at_end, Within, Means, TaskMeans, SlotMeans, Inv, cell_owns, owners_of, readers_of,
  cell_carries,
}

module _ {V : Type 0} where
  abbrev pub extend : ℕ → Option (Answer V) → (ℕ → Option (Answer V)) → ℕ → Option (Answer V)
  extend n x mu c = if c == n then x else mu c

  pub extend-below :
      (n : ℕ) (x : Option (Answer V)) (mu : ℕ → Option (Answer V)) (c : ℕ)
      → c < n
      → extend n x mu c ≡ mu c
  extend-below n x mu c b = ground (arith, b)

  module _ (goal x : Option (Answer V)) (mu : ℕ → Option (Answer V)) (n : ℕ) where
    pub at_end-extend :
        (k : Option ℕ) → Within n k → at_end (extend n x mu) goal k ≡ at_end mu goal k
    at_end-extend none w = refl
    at_end-extend (some p) w = extend-below n x mu p w

    pub Within-suc : (k : Option ℕ) → Within n k → Within (suc n) k
    Within-suc none w = tt
    Within-suc (some p) w = omega (arith, w)

    extend-Means :
        (cb : Callback V) (y : Option (Answer V))
        → Means goal mu n cb y
        → Means goal (extend n x mu) (suc n) cb y
    extend-Means cb y (m, w) = (at_end-extend (target cb) w ∙ m, Within-suc (target cb) w)

    extend-TaskMeans :
        (t : Task V) → TaskMeans goal mu n t → TaskMeans goal (extend n x mu) (suc n) t
    extend-TaskMeans (sets p r) (m, b) = (extend-below n x mu p b ∙ m, omega (arith, b))
    extend-TaskMeans (calls e cb r) m = extend-Means cb (some r) m
    extend-TaskMeans (builds c steps k) (m, b, w) = (
      at_end-extend k w ∙ m ∙ ap (eval steps) (sym (extend-below n x mu c b)),
      omega (arith, b),
      Within-suc k w,
    )

    extend-SlotMeans :
        (c : ℕ) (slot : Slot V)
        → c < n
        → SlotMeans goal mu n c slot
        → SlotMeans goal (extend n x mu) (suc n) c slot
    extend-SlotMeans c empty b m = tt
    extend-SlotMeans c (ready r) b m = extend-below n x mu c b ∙ m
    extend-SlotMeans c (waits cb) b m =
        subst (Means goal (extend n x mu) (suc n) cb) (sym (extend-below n x mu c b))
          (extend-Means cb (mu c) m)
    extend-SlotMeans c spent b m = tt

  -- Both ends of the new contract are in the hands of who has made it.
  pub make_contract_via-Inv :
      (goal x : Option (Answer V)) (mu : ℕ → Option (Answer V)) (e hand : ℕ) (own read : ℕ → ℕ)
      (s : State V)
      → (x ≡ none → goal ≡ none)
      → Inv goal mu hand own read s
      → Inv goal
          (extend (length s.cells) x mu)
          hand
          (λ p. own p + (if p == length s.cells then 1 else 0))
          (λ c. read c + (if c == length s.cells then 1 else 0))
          (make_contract_via e s)
  make_contract_via-Inv goal x mu e hand own read s dead i =
      let n = length s.cells in
      let cell : Cell V = record { executor = e; slot = empty } in
      let len : length (s.cells ++ cell ∷ []) ≡ suc n =
        omega (arith, length-append s.cells (cell ∷ [])) in
      let get = get_elem?-append_last s.cells cell in
      let owns : (p : ℕ) → owners_of p (make_contract_via e s) ≡ owners_of p s =
        λ p. ground (arith, total-append (cell_owns p) s.cells (cell ∷ []), get p, i.unowned p) in
      let reads : (c : ℕ) → readers_of c (make_contract_via e s) ≡ readers_of c s =
        λ c. ground (arith, get c, i.unwatched c) in
      let mu' : ℕ → Option (Answer V) = extend n x mu in
      let means : (c : ℕ) (y : Cell V)
          → get_elem? (s.cells ++ cell ∷ []) c ≡ some y
          → SlotMeans goal mu' (suc n) c y.slot =
        λ c y at_c. elim (Bool-cases (c == n)) [
          | inl same ↦
              let y_new : y ≡ cell = ground (arith, get c, at_c, same) in
              subst (λ z. SlotMeans goal mu' (suc n) c z.slot) (sym y_new) tt
          | inr other ↦
              let found : get_elem? s.cells c ≡ some y = ground (arith, get c, at_c, other) in
              extend-SlotMeans goal x mu n c y.slot (get_elem?-bound s.cells c y found)
                (i.slots c y found)
        ] in
      record {
        carried = omega (arith, i.carried, total-append cell_carries s.cells (cell ∷ []));
        owned = λ p. ground (arith, owns p, i.owned p, i.unowned p);
        unowned = λ p out. ground (arith, owns p, len, i.unowned p);
        watched = λ c b. ground (arith, reads c, len, i.watched c, i.unwatched c);
        unwatched = λ c out. ground (arith, reads c, len, i.unwatched c);
        tasks =
            subst (λ k. All (TaskMeans goal mu' k) s.pool) (sym len)
              (All-map (TaskMeans goal mu n) (TaskMeans goal mu' (suc n))
                (extend-TaskMeans goal x mu n) s.pool i.tasks);
        slots = λ c y at_c. subst (λ k. SlotMeans goal mu' k c y.slot) (sym len) (means c y at_c);
        reports = i.reports;
        dead = λ p b e. ground (arith, b, len, e, dead, i.dead p);
        lost = i.lost;
        sane = i.sane;
      }
