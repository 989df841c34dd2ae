-- ===== src/Lockfree/Stack/Moves.antt =====
-- No action of a thread breaks the counts of the nodes.
use magic_core.Prelude.{
  ℕ, ◌+◌, ◌-◌, ◌%◌, ◌^◌, ◌≤◌, ◌<◌, ◌≡◌, true, some, List, [], ◌∷◌, get_elem?, arith, subst,
}
use magic_core.Lockfree.Stack.{
  Link, Place, idle, holding, missed, unlinked, consuming, State, put, touch, increment_global,
  swap, consume, walk, take,
}
use magic_core.Lockfree.Stack.Invariant.{
  linked, stamps, holders, Inv, links_moved, stamps_moved, holds_moved, get_moved, stamps-unlinked,
}

pub swap-Inv :
    (t : ℕ) (link : Link) (links : List Link) (s u : State)
    → get_elem? s.places t ≡ some (holding link)
    → s.head ≡ links
    → Inv s
    → swap t link links s ≡ some u
    → s.acquired < 2 ^ 16
    → Inv u
unfolding swap
swap-Inv t link [] s u found top i e small = absurd (ground (arith, e))
swap-Inv t link (head ∷ links) s u found top i e small =
    let L = links_moved t (holding link) (unlinked link) s found in
    let S = stamps_moved t (holding link) (unlinked link) s found in
    let H = holds_moved t (holding link) (unlinked link) s found in
    let G = get_moved t (holding link) (unlinked link) s found in
    let short : link.stamp ≤ s.acquired = i.bounded t link found in
    let node : head.node ≡ link.node = ground (arith, e) in
    let stamp : head.stamp ≡ link.stamp = ground (arith, e, short, small) in
    let there : s.alive link.node ≡ true = ground (arith, i.live link.node, H link.node) in
    let v : State = record (touch link.node (put t (unlinked link) s)) { head = links } in
    let same : v ≡ u = ground (arith, e) in
    subst Inv same (record {
      once = λ n b. ground (arith, b, i.once n b, L n, top, node);
      unmade = λ n b. ground (arith, b, i.unmade n, L n, H n, top, node);
      counted = λ n. ground (arith, i.counted n, S n, H n, top, node, stamp);
      word = i.word;
      covered = λ n h. ground (arith, h, i.covered n, L n, S n, H n, top, node, stamp);
      few = λ n. ground (arith, i.few n, S n, H n, top, node, stamp);
      bounded = λ r l h. ground (arith, h, G r, i.bounded r l);
      live = λ n. ground (arith, i.live n, L n, H n, top, node);
      sane = ground (arith, there, i.sane);
    })

pub miss-Inv :
    (t : ℕ) (link : Link) (s : State)
    → get_elem? s.places t ≡ some (holding link)
    → Inv s
    → Inv (touch link.node (put t (missed link.node) s))
miss-Inv t link s found i =
    let L = links_moved t (holding link) (missed link.node) s found in
    let S = stamps_moved t (holding link) (missed link.node) s found in
    let H = holds_moved t (holding link) (missed link.node) s found in
    let G = get_moved t (holding link) (missed link.node) s found in
    let before = holds_moved t (holding link) idle s found in
    let there : s.alive link.node ≡ true = ground (arith, i.live link.node, before link.node) in
    record {
      once = λ n b. ground (arith, b, i.once n b, L n);
      unmade = λ n b. ground (arith, b, i.unmade n, L n, H n);
      counted = λ n. ground (arith, i.counted n, S n, H n);
      word = i.word;
      covered = λ n h. ground (arith, h, i.covered n, L n, S n, H n);
      few = λ n. ground (arith, i.few n, S n, H n);
      bounded = λ r l h. ground (arith, h, G r, i.bounded r l);
      live = λ n. ground (arith, i.live n, L n, H n);
      sane = ground (arith, there, i.sane);
    }

pub drop-Inv :
    (t m : ℕ) (s : State)
    → get_elem? s.places t ≡ some (missed m)
    → Inv s
    → s.acquired < 2 ^ 16
    → Inv (put t idle (increment_global m (2 ^ 32 - 1) s))
unfolding increment_global
drop-Inv t m s found i small =
    let L = links_moved t (missed m) idle s found in
    let S = stamps_moved t (missed m) idle s found in
    let H = holds_moved t (missed m) idle s found in
    let G = get_moved t (missed m) idle s found in
    let there : s.alive m ≡ true = ground (arith, i.live m, H m) in
    record {
      once = λ n b. ground (arith, b, i.once n b, L n);
      unmade = λ n b. ground (arith, b, i.unmade n, L n, H n);
      counted = λ n. ground (arith, i.counted n, S n, H n);
      word = λ n. ground (arith, i.word n);
      covered = λ n h. ground (arith, h, i.covered n, L n, S n, H n);
      few = λ n. ground (arith, i.few n, S n, H n);
      bounded = λ r l h. ground (arith, h, G r, i.bounded r l);
      live = λ n. ground (
        arith,
        i.live n,
        L n,
        H n,
        i.counted n,
        i.word n,
        i.covered n,
        stamps-unlinked n s,
        i.few n,
        small,
        there,
      );
      sane = ground (arith, there, i.sane);
    }

pub settle-Inv :
    (t : ℕ) (link : Link) (s : State)
    → get_elem? s.places t ≡ some (unlinked link)
    → Inv s
    → s.acquired < 2 ^ 16
    → Inv (put t idle (consume link.node ((link.stamp + (2 ^ 32 - 1)) % 2 ^ 32) s))
unfolding consume increment_global
settle-Inv t link s found i small =
    let L = links_moved t (unlinked link) idle s found in
    let S = stamps_moved t (unlinked link) idle s found in
    let H = holds_moved t (unlinked link) idle s found in
    let G = get_moved t (unlinked link) idle s found in
    let there : s.alive link.node ≡ true = ground (arith, i.live link.node, H link.node) in
    let alone : linked link.node s ≡ 1 =
      ground (arith, i.once link.node, i.unmade link.node, L link.node) in
    let u : State = put t idle s in
    let rest = stamps-unlinked link.node u (ground (arith, L link.node, alone)) in
    let all : stamps link.node s ≡ link.stamp = ground (arith, rest, S link.node) in
    let held : 0 < holders link.node s = ground (arith, H link.node) in
    record {
      once = λ n b. ground (arith, b, i.once n b, L n);
      unmade = λ n b. ground (arith, b, i.unmade n, L n, H n);
      counted = λ n.
          ground
            (arith, i.counted n, i.word n, S n, H n, all, held, i.covered n, alone, i.few n, small);
      word = λ n. ground (arith, i.word n);
      covered = λ n h. ground (arith, h, i.covered n, L n, S n, H n, alone);
      few = λ n. ground (arith, i.few n, S n, H n);
      bounded = λ r l h. ground (arith, h, G r, i.bounded r l);
      live = λ n. ground (
        arith,
        i.live n,
        L n,
        H n,
        i.counted n,
        i.word n,
        i.covered n,
        i.few n,
        small,
        there,
        alone,
        all,
        held,
      );
      sane = ground (arith, there, i.sane);
    }

pub take-Inv : (t : ℕ) (s : State) → get_elem? s.places t ≡ some idle → Inv s → Inv (take t s)
unfolding take
take-Inv t s found i =
    let L = links_moved t idle (consuming s.head) s found in
    let S = stamps_moved t idle (consuming s.head) s found in
    let H = holds_moved t idle (consuming s.head) s found in
    let G = get_moved t idle (consuming s.head) s found in
    record {
      once = λ n b. ground (arith, b, i.once n b, L n);
      unmade = λ n b. ground (arith, b, i.unmade n, L n, H n);
      counted = λ n. ground (arith, i.counted n, S n, H n);
      word = i.word;
      covered = λ n h. ground (arith, h, i.covered n, L n, S n, H n);
      few = λ n. ground (arith, i.few n, S n, H n);
      bounded = λ r l h. ground (arith, h, G r, i.bounded r l);
      live = λ n. ground (arith, i.live n, L n, H n);
      sane = i.sane;
    }

finish-Inv :
    (t : ℕ) (s : State) → get_elem? s.places t ≡ some (consuming []) → Inv s → Inv (put t idle s)
finish-Inv t s found i =
    let L = links_moved t (consuming []) idle s found in
    let S = stamps_moved t (consuming []) idle s found in
    let H = holds_moved t (consuming []) idle s found in
    let G = get_moved t (consuming []) idle s found in
    record {
      once = λ n b. ground (arith, b, i.once n b, L n);
      unmade = λ n b. ground (arith, b, i.unmade n, L n, H n);
      counted = λ n. ground (arith, i.counted n, S n, H n);
      word = i.word;
      covered = λ n h. ground (arith, h, i.covered n, L n, S n, H n);
      few = λ n. ground (arith, i.few n, S n, H n);
      bounded = λ r l h. ground (arith, h, G r, i.bounded r l);
      live = λ n. ground (arith, i.live n, L n, H n);
      sane = i.sane;
    }

pub walk-Inv :
    (t : ℕ) (links : List Link) (s : State)
    → get_elem? s.places t ≡ some (consuming links)
    → Inv s
    → s.acquired < 2 ^ 16
    → Inv (walk t links s)
unfolding walk consume increment_global
walk-Inv t [] s found i small = finish-Inv t s found i
walk-Inv t (link ∷ links) s found i small =
    let p : Place = consuming (link ∷ links) in
    let q : Place = consuming links in
    let L = links_moved t p q s found in
    let S = stamps_moved t p q s found in
    let H = holds_moved t p q s found in
    let G = get_moved t p q s found in
    let there : s.alive link.node ≡ true = ground (arith, i.live link.node, L link.node) in
    let alone : linked link.node s ≡ 1 =
      ground (arith, i.once link.node, i.unmade link.node, L link.node) in
    let rest = stamps-unlinked link.node (put t q s) (ground (arith, L link.node, alone)) in
    let all : stamps link.node s ≡ link.stamp = ground (arith, rest, S link.node) in
    record {
      once = λ n b. ground (arith, b, i.once n b, L n);
      unmade = λ n b. ground (arith, b, i.unmade n, L n, H n);
      counted = λ n.
          ground (arith, i.counted n, i.word n, S n, H n, all, i.covered n, alone, i.few n, small);
      word = λ n. ground (arith, i.word n);
      covered = λ n h. ground (arith, h, i.covered n, L n, S n, H n, alone);
      few = λ n. ground (arith, i.few n, S n, H n);
      bounded = λ r l h. ground (arith, h, G r, i.bounded r l);
      live = λ n. ground (
        arith,
        i.live n,
        L n,
        H n,
        i.counted n,
        i.word n,
        i.covered n,
        i.few n,
        small,
        there,
        alone,
        all,
      );
      sane = ground (arith, there, i.sane);
    }
