-- ===== src/Kunit.antt =====
-- The repository's own unit tests, kernel/tests, run in the model. A test is a command that returns
-- what its KUNIT_EXPECT lines find, in their order; a KUNIT_ASSERT that fails ends it. Addresses
-- that allocations return are arguments. Some tests and benchmarks call functions that no file
-- defines: test_perf_stats, test_stats_operations_benchmark and test_memory_usage.
pub mod Security
pub mod Sampling
pub mod Performance
pub mod Core
pub mod Benchmark
pub mod Concurrent
use ctrlxt_kernel.Base.{Bool, true, false, ◌&&◌, List, [], ◌∷◌}
use ctrlxt_kernel.Kernel.Pointer.{Pointer, null, addr, err_ptr}
use ctrlxt_kernel.Kernel.Run.{Cmd, pure}

abbrev pub all_true : List Bool → Bool
all_true [] = true
all_true (e ∷ es) = e && all_true es

-- KUNIT_ASSERT_NOT_ERR_OR_NULL, and the rest of the test behind it.
abbrev pub asserting : {S : Type 0} → (Pointer → Cmd S (List Bool)) → Pointer → Cmd S (List Bool)
asserting k null = pure (false ∷ [])
asserting k (err_ptr e) = pure (false ∷ [])
asserting k (addr a) = k (addr a)
