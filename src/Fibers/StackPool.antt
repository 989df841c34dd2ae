-- ===== src/Fibers/StackPool.antt =====
-- src/magic/fibers/core/stack.cpp and metrics.h: the pool of stacks. A stack that AllocateBytes makes
-- has the next number. Each operation holds the mutex throughout.
use magic_core.Prelude.{ℕ, suc, ◌+◌, ◌*◌, ◌%◌, ◌^◌, List, [], ◌∷◌}

-- AllocatorMetrics
pub record Metrics : Type 0 where
  pub total_allocate : ℕ
  pub allocate_new_count : ℕ
  pub release_count : ℕ
  pub total_allocate_bytes : ℕ

pub record StackAllocator : Type 0 where
  pub stack_pool : List ℕ  -- stack_pool_, its back first
  pub metrics : Metrics
  pub fresh : ℕ  -- the next stack

abbrev pub init_metrics : Metrics
init_metrics = record {
  total_allocate = 0;
  allocate_new_count = 0;
  release_count = 0;
  total_allocate_bytes = 0;
}

abbrev pub no_stacks : StackAllocator
no_stacks = record { stack_pool = []; metrics = init_metrics; fresh = 0 }

-- operator++ on size_t
abbrev pub increment : ℕ → ℕ
increment n = (n + 1) % 2 ^ 64

abbrev pub count_allocate : Metrics → Metrics
count_allocate m = record m { total_allocate = increment m.total_allocate }

-- AllocateNew, with what Allocate counts for it
unfoldable pub allocate_new : StackAllocator → ℕ × StackAllocator
allocate_new a = (
  a.fresh,
  record a {
    fresh = suc a.fresh;
    metrics = record (count_allocate a.metrics) {
      allocate_new_count = increment a.metrics.allocate_new_count;
      total_allocate_bytes = (a.metrics.total_allocate_bytes + 16 * 1024 * 4) % 2 ^ 64;
    };
  },
)

-- TakeFromPool, where the pool is not empty
abbrev pub take_from_pool : ℕ → List ℕ → StackAllocator → ℕ × StackAllocator
take_from_pool stack rest a =
    (stack, record a { stack_pool = rest; metrics = count_allocate a.metrics })

unfoldable pub allocate_from : List ℕ → StackAllocator → ℕ × StackAllocator
unfolding allocate_new
allocate_from [] a = allocate_new a
allocate_from (stack ∷ rest) a = take_from_pool stack rest a

unfoldable pub allocate : StackAllocator → ℕ × StackAllocator
unfolding allocate_from
allocate a = allocate_from a.stack_pool a

unfoldable pub release : ℕ → StackAllocator → StackAllocator
release stack a = record a {
  stack_pool = stack ∷ a.stack_pool;
  metrics = record (a.metrics) { release_count = increment a.metrics.release_count };
}
