-- ===== src/Futures/Chain/Invariant.antt =====
-- What holds while a chain of futures runs: each end of a contract has one owner, one thing carries
-- the result, and every part of the chain means what it should.
use magic_core.Prelude.{
  ℕ, ◌+◌, ◌≤◌, ◌<◌, ◌≡◌, ◌≢◌, false, Option, none, some, ◌==◌, if◌then◌else◌, length, get_elem?,
  All,
}
use magic_core.Prelude.Totals.{total}
use magic_core.Futures.Chain.{
  Answer, Callback, maps, flattens, recovers, passes, Slot, empty, ready, waits, spent, Cell, Task,
  sets, calls, builds, State,
}
use magic_core.Futures.Chain.Meaning.{eval, result_of}

-- 1 for a promise of the contract.
abbrev pub points : ℕ → Option ℕ → ℕ
points p none = 0
points p (some q) = if p == q then 1 else 0

-- The promise is one of a contract that there is.
abbrev pub Within : ℕ → Option ℕ → Type 0
Within n none = Unit
Within n (some p) = p < n

module _ {V : Type 0} where
  abbrev pub target : Callback V → Option ℕ
  target (maps f p) = some p
  target (flattens source inner p) = some p
  target (recovers h p) = some p
  target (passes p) = p

  -- Who owns the promise of a contract, and who owns its future
  abbrev pub task_owns : ℕ → Task V → ℕ
  task_owns p (sets q r) = if p == q then 1 else 0
  task_owns p (calls e cb r) = points p (target cb)
  task_owns p (builds c steps k) = points p k

  abbrev pub slot_owns : ℕ → Slot V → ℕ
  slot_owns p (waits cb) = points p (target cb)
  slot_owns p _ = 0

  abbrev pub cell_owns : ℕ → Cell V → ℕ
  cell_owns p cell = slot_owns p cell.slot

  abbrev pub task_reads : ℕ → Task V → ℕ
  task_reads c (builds d steps k) = if c == d then 1 else 0
  task_reads c _ = 0

  -- Whether the promise was set, and whether the future was subscribed to
  abbrev pub slot_set : Slot V → ℕ
  slot_set (ready r) = 1
  slot_set spent = 1
  slot_set _ = 0

  abbrev pub slot_read : Slot V → ℕ
  slot_read (waits cb) = 1
  slot_read spent = 1
  slot_read _ = 0

  abbrev pub was_set : Option (Cell V) → ℕ
  was_set none = 0
  was_set (some cell) = slot_set cell.slot

  abbrev pub was_read : Option (Cell V) → ℕ
  was_read none = 0
  was_read (some cell) = slot_read cell.slot

  -- What carries the result on
  abbrev pub task_carries : Task V → ℕ
  task_carries (builds c steps k) = 0
  task_carries _ = 1

  abbrev pub slot_carries : Slot V → ℕ
  slot_carries (ready r) = 1
  slot_carries _ = 0

  abbrev pub cell_carries : Cell V → ℕ
  cell_carries cell = slot_carries cell.slot

  abbrev pub owners_of : ℕ → State V → ℕ
  owners_of p s =
      total (task_owns p) s.pool + total (cell_owns p) s.cells + was_set (get_elem? s.cells p)

  abbrev pub readers_of : ℕ → State V → ℕ
  readers_of c s = total (task_reads c) s.pool + was_read (get_elem? s.cells c)

  abbrev pub carriers_of : State V → ℕ
  carriers_of s =
      total task_carries s.pool + total cell_carries s.cells + length s.reported + s.lost

  -- The result of a promise, or without one that of the chain
  abbrev pub at_end : (ℕ → Option (Answer V)) → Option (Answer V) → Option ℕ → Option (Answer V)
  at_end mu goal none = goal
  at_end mu goal (some p) = mu p

  module _ (goal : Option (Answer V)) where
    abbrev pub Means : (ℕ → Option (Answer V)) → ℕ → Callback V → Option (Answer V) → Type 0
    Means mu n cb x = (at_end mu goal (target cb) ≡ result_of cb x) × Within n (target cb)

    abbrev pub TaskMeans : (ℕ → Option (Answer V)) → ℕ → Task V → Type 0
    TaskMeans mu n (sets p r) = (mu p ≡ some r) × (p < n)
    TaskMeans mu n (calls e cb r) = Means mu n cb (some r)
    TaskMeans mu n (builds c steps k) =
        (at_end mu goal k ≡ eval steps (mu c)) × (c < n) × Within n k

    abbrev pub SlotMeans : (ℕ → Option (Answer V)) → ℕ → ℕ → Slot V → Type 0
    SlotMeans mu n c empty = Unit
    SlotMeans mu n c (ready r) = mu c ≡ some r
    SlotMeans mu n c (waits cb) = Means mu n cb (mu c)
    SlotMeans mu n c spent = Unit

    -- `mu` tells the result of each contract. What the running task still has in its hands is
    -- counted by the parameters.
    pub record Inv (mu : ℕ → Option (Answer V)) (hand : ℕ) (own read : ℕ → ℕ) (s : State V)
        : Type 0 where
      pub carried : carriers_of s + hand ≡ 1
      pub owned : (p : ℕ) → owners_of p s + own p ≤ 1
      pub unowned : (p : ℕ) → length s.cells ≤ p → owners_of p s + own p ≡ 0
      pub watched : (c : ℕ) → c < length s.cells → readers_of c s + read c ≡ 1
      pub unwatched : (c : ℕ) → length s.cells ≤ c → readers_of c s + read c ≡ 0
      pub tasks : All (TaskMeans mu (length s.cells)) s.pool
      pub slots :
          (c : ℕ) (cell : Cell V)
          → get_elem? s.cells c ≡ some cell
          → SlotMeans mu (length s.cells) c cell.slot
      pub reports : All (λ r. some r ≡ goal) s.reported
      pub dead : (p : ℕ) → p < length s.cells → mu p ≡ none → goal ≡ none
      pub lost : s.lost ≢ 0 → goal ≡ none
      pub sane : s.failed ≡ false
