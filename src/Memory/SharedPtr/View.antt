-- ===== src/Memory/SharedPtr/View.antt =====
-- A state of shared pointers, seen as one of intrusive references: the parts of an operation.
use magic_core.Prelude.{
  ℕ, ◌+◌, ◌-◌, ◌%◌, ◌^◌, ◌≤◌, ◌<◌, ◌≡◌, refl, true, false, ◌&&◌, Option, none, some, [], ◌==◌,
  get_elem?, arith, subst, ap, sym,
}
use magic_core.Memory.Ref
use magic_core.Memory.Ref.{Slot, gone, holds, all_gone, write}
use magic_core.Memory.Ref.Invariant.{at, at_slot, Inv, put-Inv}
use magic_core.Memory.Ref.Ownership.{Owned, share-Inv, swap_in-Inv, leave-Inv, held_counted}
use magic_core.Memory.SharedPtr.{
  State, fits, increment_ref_count, decrement_ref_count, add_if_valid, release_if_valid, put,
  swap_in,
}

abbrev pub view : State → Ref.State
view s = record {
  refs = s.refs;
  count = s.strong;
  alive = s.alive;
  fresh = s.fresh;
  raw = [];
  made = s.made;
  failed = s.failed;
}

-- The two counts of each block are the same.
abbrev pub Paired : State → Type 0
Paired s = (b : ℕ) → s.transient b ≡ s.strong b

same_write : (b m n : ℕ) (f : ℕ → ℕ) → m ≡ n → write b m f ≡ write b n f
same_write b m n f h = ap (λ k. write b k f) h

fits_one : (n : ℕ) → n + 1 < 2 ^ 31 → fits n 1 ≡ true
unfolding fits
fits_one n small = ground arith

fits_minus_one : (n : ℕ) → 0 < n → n < 2 ^ 31 → fits n (2 ^ 32 - 1) ≡ true
unfolding fits
fits_minus_one n some_left small = ground arith

pub view-add_if_valid :
    (obj : Option ℕ) (s : State)
    → s.made + 1 < 2 ^ 31
    → Paired s
    → ((o : ℕ) → at o obj ≤ s.strong o)
    → Owned (view s)
    → view (add_if_valid obj s) ≡ Ref.add_if_valid obj (view s)
unfolding add_if_valid increment_ref_count Ref.add_if_valid Ref.add_ref
view-add_if_valid none s small p here i = refl
view-add_if_valid (some b) s small p here i =
    let there : s.alive b ≡ true = ground (arith, i.live b, here b) in
    let plus : (s.strong b + 1) % 2 ^ 32 ≡ (s.strong b + 1) % 2 ^ 64 = omega (arith, i.few b) in
    let positive : ((s.strong b + 1) % 2 ^ 32 == 0) ≡ false = ground (arith, i.few b, small) in
    let counts =
      same_write b ((s.strong b + 1) % 2 ^ 32) ((s.strong b + 1) % 2 ^ 64) s.strong plus in
    let fit : fits (s.strong b) 1 ≡ true = fits_one (s.strong b) (omega (arith, i.few b)) in
    let fit' : fits (s.transient b) 1 ≡ true = subst (λ n. fits n 1 ≡ true) (sym (p b)) fit in
    ground (arith, there, fit, fit', counts, positive)

view-release_if_valid :
    (extra : ℕ → ℕ) (obj : Option ℕ) (s : State)
    → s.made < 2 ^ 31
    → Paired s
    → ((o : ℕ) → at o obj ≤ s.strong o)
    → Inv extra (view s)
    → view (release_if_valid obj s) ≡ Ref.release_if_valid obj (view s)
unfolding release_if_valid decrement_ref_count increment_ref_count Ref.release_if_valid
    Ref.release_ref
view-release_if_valid extra none s small p here i = refl
view-release_if_valid extra (some b) s small p here i =
    let there : s.alive b ≡ true = ground (arith, i.live b, here b) in
    let some_left : 0 < s.strong b = ground (arith, here b) in
    let minus : (s.strong b + (2 ^ 32 - 1)) % 2 ^ 32 ≡ (s.strong b + 2 ^ 64 - 1) % 2 ^ 64 =
      omega (arith, i.few b) in
    let last : ((s.transient b + (2 ^ 32 - 1)) % 2 ^ 32 == 0
          && (s.strong b + (2 ^ 32 - 1)) % 2 ^ 32 == 0)
        ≡ (s.strong b == 1) =
      ground (arith, i.few b, small, p b) in
    let counts =
      same_write b ((s.strong b + (2 ^ 32 - 1)) % 2 ^ 32) ((s.strong b + 2 ^ 64 - 1) % 2 ^ 64)
        s.strong minus in
    let fit : fits (s.strong b) (2 ^ 32 - 1) ≡ true =
      fits_minus_one (s.strong b) some_left (omega (arith, i.few b)) in
    let fit' : fits (s.transient b) (2 ^ 32 - 1) ≡ true =
      subst (λ n. fits n (2 ^ 32 - 1) ≡ true) (sym (p b)) fit in
    ground (arith, there, fit, fit', counts, last)

pub Paired-add_if_valid : (obj : Option ℕ) (s : State) → Paired s → Paired (add_if_valid obj s)
unfolding add_if_valid increment_ref_count
Paired-add_if_valid none s p = p
Paired-add_if_valid (some b) s p = λ o. ground (arith, p o, p b)

Paired-release_if_valid : (obj : Option ℕ) (s : State) → Paired s → Paired (release_if_valid obj s)
unfolding release_if_valid decrement_ref_count increment_ref_count
Paired-release_if_valid none s p = p
Paired-release_if_valid (some b) s p = λ o. ground (arith, p o, p b)

pub record Sound (s : State) : Type 0 where
  pub owned : Owned (view s)
  pub paired : Paired s

-- A variable is constructed with what a count was added for.
pub share-Sound :
    (v : ℕ) (obj : Option ℕ) (s : State)
    → s.made + 1 < 2 ^ 31
    → get_elem? s.refs v ≡ some gone
    → ((o : ℕ) → at o obj ≤ s.strong o)
    → Sound s
    → Sound (put v (holds obj) (add_if_valid obj s))
share-Sound v obj s small found here i = record {
  owned =
      subst (λ r. Owned (Ref.put v (holds obj) r))
        (sym (view-add_if_valid obj s small i.paired here i.owned))
        (share-Inv v obj (view s) (omega arith) found here i.owned);
  paired = Paired-add_if_valid obj s i.paired;
}

-- A variable gives its reference up for another one.
pub swap_in-Sound :
    (v : ℕ) (obj old : Option ℕ) (s : State)
    → s.made < 2 ^ 31
    → get_elem? s.refs v ≡ some (holds old)
    → Inv (λ o. 0 + at o obj) (view s)
    → Paired s
    → Sound (swap_in v obj old s)
unfolding swap_in Ref.swap_in
swap_in-Sound v obj old s small found i p =
    let moved =
      put-Inv (λ o. 0 + at o obj) (λ o. 0 + at o old) v (holds old) (holds obj) (view s) found
        (λ o. omega arith) i in
    let here : (o : ℕ) → at o old ≤ s.strong o = λ o. omega (arith, moved.counted o) in
    record {
      owned =
          subst Owned
            (sym (
              view-release_if_valid (λ o. 0 + at o old) old (put v (holds obj) s) small p here
                moved))
            (swap_in-Inv v obj old (view s) (omega arith) found i);
      paired = Paired-release_if_valid old (put v (holds obj) s) p;
    }

-- A variable gives its reference up.
pub leave-Sound :
    (v : ℕ) (obj : Option ℕ) (slot : Slot) (s : State)
    → s.made < 2 ^ 31
    → get_elem? s.refs v ≡ some (holds obj)
    → ((o : ℕ) → at_slot o slot ≡ 0)
    → Sound s
    → Sound (put v slot (release_if_valid obj s))
leave-Sound v obj slot s small found empty i = record {
  owned =
      subst (λ r. Owned (Ref.put v slot r))
        (sym (
          view-release_if_valid (λ o. 0) obj s small i.paired
            (held_counted v obj (view s) found i.owned) i.owned))
        (leave-Inv v obj slot (view s) (omega arith) found empty i.owned);
  paired = Paired-release_if_valid obj s i.paired;
}

pub put-Sound :
    (v : ℕ) (old new : Slot) (s : State)
    → get_elem? s.refs v ≡ some old
    → ((o : ℕ) → at_slot o old ≡ at_slot o new)
    → Sound s
    → Sound (put v new s)
put-Sound v old new s found same i = record {
  owned = put-Inv (λ o. 0) (λ o. 0) v old new (view s) found (λ o. omega (arith, same o)) i.owned;
  paired = i.paired;
}
