-- ===== src/Futures/Chain/Actions.antt =====
-- Setting a promise, subscribing to a future and making a contract keep the invariant.
use magic_core.Prelude.{
  ℕ, ◌+◌, ◌<◌, ◌≡◌, Option, some, ◌==◌, if◌then◌else◌, arith, length, get_elem?, subst, sym,
}
use magic_core.Futures.Chain.Meaning.{result_of}
use magic_core.Prelude.Totals.{length-set, get_elem?-inside}
use magic_core.Futures.Chain.{
  Answer, Callback, Slot, empty, ready, waits, spent, Cell, calls, State, put, set_slot, set_result,
  callback_slot, set_callback, set_executor,
}
use magic_core.Futures.Chain.Invariant.{points, target, at_end, Within, Means, Inv}
use magic_core.Futures.Chain.Hands.{add-Inv, put-Inv}

module _ {V : Type 0} (goal : Option (Answer V)) (mu : ℕ → Option (Answer V)) where
  moved-Means :
      (n n' : ℕ) (cb : Callback V) (x y : Option (Answer V))
      → n' ≡ n
      → x ≡ y
      → Means goal mu n cb x
      → Means goal mu n' cb y
  moved-Means n n' cb x y len same (meant, within) = (
    subst (λ z. at_end mu goal (target cb) ≡ result_of cb z) same meant,
    subst (λ k. Within k (target cb)) (sym len) within,
  )

  set_slot-Inv :
      (p e : ℕ) (r : Answer V) (slot : Slot V) (hand : ℕ) (own read : ℕ → ℕ) (s : State V)
      → get_elem? s.cells p ≡ some (record { executor = e; slot = slot })
      → mu p ≡ some r
      → Inv goal mu (hand + 1) (λ q. own q + (if q == p then 1 else 0)) read s
      → Inv goal mu hand own read (set_slot p e r slot s)
  unfolding set_slot
  set_slot-Inv p e r empty hand own read s found m i =
      put-Inv goal mu p e (record { executor = e; slot = empty }) (ready r) (hand + 1) hand
        (λ q. own q + (if q == p then 1 else 0)) own read read s found m (ground arith)
        (λ q. ground arith) (λ q. ground arith) i
  set_slot-Inv p e r (waits cb) hand own read s found m i =
      let new : Cell V = record { executor = e; slot = spent } in
      let meant =
        moved-Means (length s.cells) _ cb (mu p) (some r) (length-set s.cells p new) m
          (i.slots p _ found) in
      let j =
        put-Inv goal mu p e (record { executor = e; slot = waits cb }) spent (hand + 1) (hand + 1)
          (λ q. own q + (if q == p then 1 else 0)) (λ q. own q + points q (target cb)) read
          (λ c. read c + 0) s found tt (ground arith) (λ q. ground arith) (λ q. ground arith) i in
      add-Inv goal mu (calls e cb r) hand own read (put p e spent s) meant j
  set_slot-Inv p e r (ready x) hand own read s found m i = absurd (ground (arith, i.owned p, found))
  set_slot-Inv p e r spent hand own read s found m i = absurd (ground (arith, i.owned p, found))

  -- A promise that is owned is set, without a failure.
  pub set_result-Inv :
      (p : ℕ) (r : Answer V) (hand : ℕ) (own read : ℕ → ℕ) (s : State V)
      → mu p ≡ some r
      → Inv goal mu (hand + 1) (λ q. own q + (if q == p then 1 else 0)) read s
      → Inv goal mu hand own read (set_result p r s)
  unfolding set_result
  set_result-Inv p r hand own read s m i =
      let inside : p < length s.cells = ground (arith, i.unowned p) in
      let (cell, found) = get_elem?-inside s.cells p inside in
      let j = set_slot-Inv p cell.executor r cell.slot hand own read s found m i in
      ground (arith, j, found)

  callback_slot-Inv :
      (c e : ℕ) (cb : Callback V) (slot : Slot V) (hand : ℕ) (own read : ℕ → ℕ) (s : State V)
      → get_elem? s.cells c ≡ some (record { executor = e; slot = slot })
      → Means goal mu (length s.cells) cb (mu c)
      → Inv goal mu hand
          (λ q. own q + points q (target cb))
          (λ d. read d + (if d == c then 1 else 0))
          s
      → Inv goal mu hand own read (callback_slot c e cb slot s)
  unfolding callback_slot
  callback_slot-Inv c e cb empty hand own read s found m i =
      put-Inv goal mu c e (record { executor = e; slot = empty }) (waits cb) hand hand
        (λ q. own q + points q (target cb)) own (λ d. read d + (if d == c then 1 else 0)) read s
        found m (ground arith) (λ q. ground arith) (λ q. ground arith) i
  callback_slot-Inv c e cb (ready r) hand own read s found m i =
      let new : Cell V = record { executor = e; slot = spent } in
      let meant =
        moved-Means (length s.cells) _ cb (mu c) (some r) (length-set s.cells c new)
          (i.slots c _ found) m in
      let j =
        put-Inv goal mu c e (record { executor = e; slot = ready r }) spent hand (hand + 1)
          (λ q. own q + points q (target cb)) (λ q. own q + points q (target cb))
          (λ d. read d + (if d == c then 1 else 0)) (λ d. read d + 0) s found tt (ground arith)
          (λ q. ground arith) (λ q. ground arith) i in
      add-Inv goal mu (calls e cb r) hand own read (put c e spent s) meant j
  callback_slot-Inv c e cb (waits x) hand own read s found m i =
      absurd (ground (arith, i.watched c, i.unwatched c, found))
  callback_slot-Inv c e cb spent hand own read s found m i =
      absurd (ground (arith, i.watched c, i.unwatched c, found))

  -- A future that is held is subscribed to, without a failure.
  pub set_callback-Inv :
      (c : ℕ) (cb : Callback V) (hand : ℕ) (own read : ℕ → ℕ) (s : State V)
      → Means goal mu (length s.cells) cb (mu c)
      → Inv goal mu hand
          (λ q. own q + points q (target cb))
          (λ d. read d + (if d == c then 1 else 0))
          s
      → Inv goal mu hand own read (set_callback c cb s)
  unfolding set_callback
  set_callback-Inv c cb hand own read s m i =
      let inside : c < length s.cells = ground (arith, i.unwatched c) in
      let (cell, found) = get_elem?-inside s.cells c inside in
      let j = callback_slot-Inv c cell.executor cb cell.slot hand own read s found m i in
      ground (arith, j, found)

  pub set_executor-Inv :
      (c e hand : ℕ) (own read : ℕ → ℕ) (s : State V)
      → c < length s.cells
      → Inv goal mu hand own read s
      → Inv goal mu hand own read (set_executor c e s)
  unfolding set_executor
  set_executor-Inv c e hand own read s inside i =
      let (cell, found) = get_elem?-inside s.cells c inside in
      let j =
        put-Inv goal mu c e cell cell.slot hand hand own own read read s found
          (i.slots c cell found) (omega arith) (λ q. omega arith) (λ q. omega arith) i in
      ground (arith, j, found)
