-- ===== src/Sync/BlockingQueue/Examples.antt =====
-- A consumer sleeps and is woken by Put; a second value is there when the queue is shut down.
use magic_core.Prelude.{◌≤◌, ◌<◌, ◌≡◌, refl, true, none, some, List, [], ◌∷◌, ◌++◌, length}
use magic_core.Sync.BlockingQueue.{
  got, State, Event, puts, takes, wakes, resumes, shuts_down, init, notify_one, put, take_or_wait,
  close, shutdown, step, run,
}
use magic_core.Sync.BlockingQueue.Invariant.{sleepers, awake}
use magic_core.Sync.BlockingQueue.Delivery.{queue_delivers}

abbrev events : List Event
events =
    takes 0
    ∷ takes 1
    ∷ puts 5 1
    ∷ wakes 0
    ∷ resumes 1
    ∷ resumes 0
    ∷ puts 6 0
    ∷ puts 7 1
    ∷ shuts_down
    ∷ puts 8 1
    ∷ resumes 0
    ∷ []

abbrev final : State
final = record {
  buffer = [];
  closed = true;
  consumers = got none ∷ got (some 5) ∷ [];
  accepted = 5 ∷ 6 ∷ 7 ∷ [];
  taken = 5 ∷ [];
  dropped = [];
  disposed = 6 ∷ 7 ∷ [];
}

reached : run events (init 2) ≡ some final
unfolding run step notify_one put take_or_wait close shutdown
reached = refl

queue_delivers_example :
    (final.taken ++ (final.buffer ++ (final.dropped ++ final.disposed)) ≡ final.accepted)
    × (final.closed ≡ true → (final.buffer ≡ []) × (sleepers final ≡ 0))
    × (0 < sleepers final → length final.buffer ≤ awake final)
queue_delivers_example = queue_delivers 2 events final reached
