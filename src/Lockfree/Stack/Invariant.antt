-- ===== src/Lockfree/Stack/Invariant.antt =====
-- Who can reach a node of the stack: the links to it, their stamps, and the threads that hold it.
use magic_core.Prelude.{
  not, subst, refl, ℕ, suc, ◌+◌, ◌%◌, ◌^◌, ◌≤◌, ◌<◌, ◌≡◌, false, some, List, [], ◌∷◌, ◌==◌,
  get_elem?, set, if◌then◌else◌, arith,
}
use magic_core.Prelude.Occurs.{occurs}
use magic_core.Prelude.Totals.{total, total-set, get_elem?-set}
use magic_core.Lockfree.Stack.{
  Link, Place, idle, holding, missed, unlinked, consuming, State, put, push, acquire_ref,
}

-- Links to a node, and the sum of their stamps
abbrev pub links_to : ℕ → List Link → ℕ
links_to n [] = 0
links_to n (l ∷ ls) = (if n == l.node then 1 else 0) + links_to n ls

abbrev pub stamps_of : ℕ → List Link → ℕ
stamps_of n [] = 0
stamps_of n (l ∷ ls) = (if n == l.node then l.stamp else 0) + stamps_of n ls

-- The same for the place of a thread, and whether it holds a reference of its own
abbrev pub place_links : ℕ → Place → ℕ
place_links n (unlinked l) = if n == l.node then 1 else 0
place_links n (consuming ls) = links_to n ls
place_links n _ = 0

abbrev pub place_stamps : ℕ → Place → ℕ
place_stamps n (unlinked l) = if n == l.node then l.stamp else 0
place_stamps n (consuming ls) = stamps_of n ls
place_stamps n _ = 0

abbrev pub place_holds : ℕ → Place → ℕ
place_holds n (holding l) = if n == l.node then 1 else 0
place_holds n (missed m) = if n == m then 1 else 0
place_holds n (unlinked l) = if n == l.node then 1 else 0
place_holds n _ = 0

abbrev pub linked : ℕ → State → ℕ
linked n s = links_to n s.head + total (place_links n) s.places

abbrev pub stamps : ℕ → State → ℕ
stamps n s = stamps_of n s.head + total (place_stamps n) s.places

abbrev pub holders : ℕ → State → ℕ
holders n s = total (place_holds n) s.places

-- Without a link there is no stamp.
stampless-list : (n : ℕ) (ls : List Link) → links_to n ls ≡ 0 → stamps_of n ls ≡ 0
stampless-list n [] h = refl
stampless-list n (l ∷ ls) h = ground (arith, h, stampless-list n ls)

stampless-place : (n : ℕ) (p : Place) → place_links n p ≡ 0 → place_stamps n p ≡ 0
stampless-place n idle h = refl
stampless-place n (holding l) h = refl
stampless-place n (missed m) h = refl
stampless-place n (unlinked l) h = ground (arith, h)
stampless-place n (consuming ls) h = stampless-list n ls h

stampless-places :
    (n : ℕ) (ps : List Place) → total (place_links n) ps ≡ 0 → total (place_stamps n) ps ≡ 0
stampless-places n [] h = refl
stampless-places n (p ∷ ps) h =
    let rest = stampless-places n ps (omega (arith, h)) in
    omega (arith, rest, stampless-place n p (omega (arith, h)))

pub stamps-unlinked : (n : ℕ) (s : State) → linked n s ≡ 0 → stamps n s ≡ 0
stamps-unlinked n s h =
    let above = stampless-list n s.head (omega (arith, h)) in
    omega (arith, above, stampless-places n s.places (omega (arith, h)))

pub record Inv (s : State) : Type 0 where
  pub once : (n : ℕ) → n < s.fresh → linked n s + occurs n s.consumed ≡ 1
  pub unmade : (n : ℕ) → s.fresh ≤ n → linked n s + occurs n s.consumed + holders n s ≡ 0
  pub counted : (n : ℕ) → (s.global n + stamps n s) % 2 ^ 32 ≡ holders n s
  pub word : (n : ℕ) → s.global n < 2 ^ 32
  pub covered : (n : ℕ) → 0 < linked n s → holders n s ≤ stamps n s
  pub few : (n : ℕ) → (stamps n s ≤ s.acquired) × (holders n s ≤ s.acquired)
  pub bounded : (t : ℕ) (l : Link) → get_elem? s.places t ≡ some (holding l) → l.stamp ≤ s.acquired
  pub live : (n : ℕ) → s.alive n ≡ not (linked n s + holders n s == 0)
  pub sane : s.failed ≡ false

-- A thread goes from one place to another.
module _ (t : ℕ) (p q : Place) (s : State) (found : get_elem? s.places t ≡ some p) where
  pub links_moved :
      (n : ℕ)
      → total (place_links n) (set s.places t q) + place_links n p
        ≡ total (place_links n) s.places + place_links n q
  links_moved n = total-set (place_links n) s.places t p q found

  pub stamps_moved :
      (n : ℕ)
      → total (place_stamps n) (set s.places t q) + place_stamps n p
        ≡ total (place_stamps n) s.places + place_stamps n q
  stamps_moved n = total-set (place_stamps n) s.places t p q found

  pub holds_moved :
      (n : ℕ)
      → total (place_holds n) (set s.places t q) + place_holds n p
        ≡ total (place_holds n) s.places + place_holds n q
  holds_moved n = total-set (place_holds n) s.places t p q found

  pub get_moved :
      (u : ℕ) → get_elem? (set s.places t q) u ≡ (if u == t then some q else get_elem? s.places u)
  get_moved u = get_elem?-set s.places t p q found u

pub push-Inv : (s : State) → Inv s → Inv (push s)
unfolding push
push-Inv s i = record {
  once = λ n b. ground (arith, b, i.once n, i.unmade n);
  unmade = λ n b. ground (arith, b, i.unmade n);
  counted = λ n. ground (arith, i.counted n, i.unmade n, stamps-unlinked n s);
  word = λ n. ground (arith, i.word n);
  covered = λ n h. ground (arith, h, i.covered n, i.unmade n, stamps-unlinked n s);
  few = λ n. ground (arith, i.few n);
  bounded = i.bounded;
  live = λ n. ground (arith, i.live n, i.unmade n);
  sane = i.sane;
}

pub acquire_ref-Inv :
    (t : ℕ) (links : List Link) (s u : State)
    → get_elem? s.places t ≡ some idle
    → s.head ≡ links
    → Inv s
    → acquire_ref t links s ≡ some u
    → u.acquired < 2 ^ 16
    → Inv u
unfolding acquire_ref
acquire_ref-Inv t [] s u found top i e small = absurd (ground (arith, e))
acquire_ref-Inv t (link ∷ links) s u found top i e small =
    let held : Link = record link { stamp = link.stamp + 1 } in
    let packed : Link = record link { stamp = (link.stamp + 1) % 2 ^ 16 } in
    let v : State = record (put t (holding held) s) {
      head = packed ∷ links;
      acquired = suc s.acquired;
    } in
    let same : v ≡ u = ground (arith, e) in
    let L = links_moved t idle (holding held) s found in
    let S = stamps_moved t idle (holding held) s found in
    let H = holds_moved t idle (holding held) s found in
    let G = get_moved t idle (holding held) s found in
    let room : s.acquired + 1 < 2 ^ 16 = ground (arith, same, small) in
    let at_top : link.stamp ≤ stamps link.node s = ground (arith, top) in
    let low : link.stamp + 1 < 2 ^ 16 = omega (arith, room, at_top, i.few link.node) in
    subst Inv same (record {
      once = λ n b. ground (arith, b, i.once n b, L n, top);
      unmade = λ n b. ground (arith, b, i.unmade n, L n, H n, top);
      counted = λ n. ground (arith, i.counted n, S n, H n, top, low, room, i.few n);
      word = i.word;
      covered = λ n h. ground (arith, h, i.covered n, L n, S n, H n, top, low);
      few = λ n. ground (arith, i.few n, S n, H n, top, low);
      bounded = λ r l h. ground (arith, h, G r, i.bounded r l, at_top, i.few link.node);
      live = λ n. ground (arith, i.live n, L n, H n, top);
      sane = i.sane;
    })
