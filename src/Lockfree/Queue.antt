-- ===== src/Lockfree/Queue.antt =====
-- src/magic/concurrency/lockfree/lockfree_intrusive_queue.h: many producers, one consumer. The
-- stack below it is the list of its nodes, the newest first; one push and one exchange of its head
-- are atomic.
use mathlib.Core.List.{reverse-cons, append_assoc}
use magic_core.Prelude.{
  ℕ, ◌≡◌, refl, sym, ap, ◌∙◌, Bool, true, false, not, List, [], ◌∷◌, ◌++◌, reverse,
}
use magic_core.Intrusive.{ForwardList}

abbrev pub Stack : Type 0
Stack = List ℕ

-- Put
abbrev pub put : ℕ → Stack → Stack
put value stack = value ∷ stack

abbrev pub is_empty : Stack → Bool
is_empty [] = true
is_empty (_ ∷ _) = false

abbrev pub has_items : Stack → Bool
has_items stack = not (is_empty stack)

module _ (lists : ForwardList ℕ) where
  open lists use {Carrier, empty, push_front, to_list, to_list-empty, to_list-push_front}

  -- ConsumeAll of the stack, with the callback of TakeAll.
  consume_all : Stack → Carrier → Carrier
  consume_all [] reversed = reversed
  consume_all (value ∷ stack) reversed = consume_all stack (push_front value reversed)

  -- TakeAll
  unfoldable pub take_all : Stack → Carrier
  unfolding consume_all
  take_all stack = consume_all stack empty

  to_list-consume_all :
      (stack : Stack) (l : Carrier) → to_list (consume_all stack l) ≡ reverse stack ++ to_list l
  unfolding consume_all
  to_list-consume_all [] l = refl
  to_list-consume_all (x ∷ xs) l =
      to_list-consume_all xs (push_front x l)
      ∙ ap (◌++◌ (reverse xs)) (to_list-push_front x l)
      ∙ sym (append_assoc (reverse xs) (x ∷ []) (to_list l))
      ∙ ap (λ ys. ys ++ to_list l) (sym (reverse-cons x xs))

  pub to_list-take_all : (stack : Stack) → to_list (take_all stack) ≡ reverse stack ++ []
  unfolding take_all
  to_list-take_all stack = to_list-consume_all stack empty ∙ ap (◌++◌ (reverse stack)) to_list-empty
