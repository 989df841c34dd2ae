-- ===== src/Coroutines/Examples.antt =====
-- A generator that counts down and then throws, and a processor that stops at the first Close.
use magic_core.Prelude.{ℕ, zero, suc, ◌≡◌, refl, Bool, true, false, none, some, [], ◌∷◌}
use magic_core.Coroutines.Impl.{back, asserts}
use magic_core.Coroutines.Generator as Generator
use magic_core.Coroutines.Generator.Trace.{trace, pointer, generator_trace}
use magic_core.Coroutines.Processor as Processor
use magic_core.Coroutines.Processor.Feed.{Comes, fed, fed_from, processor_fed}

abbrev countdown : ℕ → Generator.Act ℕ Bool ℕ
countdown zero = Generator.raises true
countdown (suc n) = Generator.sends n n

generator_trace_example :
    ((Generator.receive_many countdown 1 4 none (Generator.new_generator countdown 1 2)).0
      ≡ trace countdown 4 2)
    × ((Generator.receive_many countdown 1 4 none (Generator.new_generator countdown 1 2)).1
        ≡ pointer countdown 1 4 2 none)
generator_trace_example = generator_trace countdown 1 4 none 2

countdown_traced :
    trace countdown 4 2
    ≡ Generator.gives (some 1)
      ∷ Generator.gives (some 0)
      ∷ Generator.thrown true
      ∷ Generator.gives none
      ∷ []
unfolding trace
countdown_traced = refl

-- `true` while it has not seen Close
abbrev until_close : Bool → Processor.Act Bool Bool ℕ
until_close true = Processor.receives λ v. elim v [ none ↦ false | some n ↦ true ]
until_close false = Processor.ends

processor_fed_example :
    Comes until_close
      (some 3 ∷ none ∷ some 4 ∷ [])
      (Processor.new_processor until_close true)
      (fed_from until_close true (some 3 ∷ none ∷ some 4 ∷ []))
processor_fed_example = processor_fed until_close (some 3 ∷ none ∷ some 4 ∷ []) true

until_close_fed :
    fed_from {E = Bool} until_close true (some 3 ∷ none ∷ some 4 ∷ []) ≡ back ∷ back ∷ asserts ∷ []
unfolding fed_from fed
until_close_fed = refl
