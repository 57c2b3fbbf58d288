-- ===== src/Lib.antt =====
-- A model of the CTRLxT kernel: its quantum subsystem, memory management, security, performance, file
-- system, network, start and architecture code, and what makes them correct.
--
-- Parts, and how they interact. The quantum device driver (kernel/drivers/quantum/quantum_device.c)
-- takes its memory from the quantum memory manager (kernel/quantum/quantum_memory.c). The
-- quantum-classical interface (kernel/quantum/quantum_classical.c) calls error correction
-- (kernel/quantum/error_correction.c). All four call quantum.h, which the repository does not hold.
-- Memory management (kernel/mm/memory.c), the security module (kernel/security/security.c) and the
-- performance monitor (kernel/performance/performance.c) stand alone; the last two each keep one
-- reference-counted global context. The start of the kernel (kernel/init/main.c) calls the quantum core
-- (kernel/quantum/quantum.c), which keeps the list of quantum devices. The file system
-- (kernel/fs/ctrlxt_fs.c), the network stack (kernel/net/ctrlxt_net.c) and the three architectures
-- (kernel/arch/x86/arch.c, kernel/arch/arm/arch.c, kernel/arch/riscv/arch.c) call Linux only. The
-- driver of the hardware abstraction layer (kernel/drivers/uhal/uhal_driver.c) hands the commands of
-- its users to three functions of kernel/include/uhal.h, which it takes as arguments here.
--
-- Files. A function keeps its name without the prefix ctrlxt_qmem_, ctrlxt_qec_, ctrlxt_qc_,
-- ctrlxt_mm_, ctrlxt_fs_, ctrlxt_net_, quantum_security_ or quantum_perf_, and in the device driver and
-- the quantum core without quantum_.
--   Base         Boolean tests, lists, integers, bits and the library's names
--   Kernel       error numbers, pointers, atomic_t, commands that may fault, and histories of calls
--   Quantum      the interface of quantum.h, a parameter of its clients
--   QMem         the memory manager: operations in QMem/Defs, what it promises in QMem/Pool, racing
--                threads in QMem/Race, where quantum states go in QMem/States, theorems in the other
--                children
--   Device       the device driver: Device/Open, Device/Ioctl and Device/Setup
--   Qec          error correction
--   Qc           the quantum-classical interface
--   Contexts     reference-counted contexts, shared by the next two
--   Security     the security module
--   Performance  the performance monitor, and in Performance/Threads the threads that report to it
--   Mm           memory management: operations in Mm, its clients in Mm/Pieces, theorems in the other
--                children
--   Vfs          the virtual file system: its calls and their laws, a parameter of Fs
--   Fs           the file system
--   Net          the network stack
--   Qdev         the quantum core
--   Boot         the start of the kernel
--   Uhal         the driver of the hardware abstraction layer
--   Arch         the three architectures, one child for each, over the calls of frequency scaling, a
--                parameter, and their laws
--   Kunit        the repository's own unit tests and, in Kunit/Benchmark and Kunit/Concurrent, its
--                benchmarks (kernel/tests)
--   Tests        runs at concrete inputs
--
-- State. Each structure of the source is a record, and each function a command on it: a function from
-- a state to a result and a state, or to a fault. A fault is what C leaves undefined or what stops the
-- machine: a read or write through NULL, an error pointer or a freed object, or past the end of the
-- caller's memory, memory freed that is not allocated, a division by zero, a spinlock taken by its
-- holder, or a list entry that is added twice or taken off a list that lacks it. Objects that are shared stand on a heap, a function from addresses; an object
-- that one owner holds is a slot that is empty, live or freed. An atomic_t is its 32-bit pattern and
-- an unsigned long is written out modulo 2 ^ 64 where it wraps; conversions between them are explicit.
-- What the kernel's calls and the user return is an argument.
--
-- Loops are by recursion on the list they walk, and those of the benchmarks on the number of rounds,
-- which is 1000, so there is no fuel.
--
-- Not modelled: printing (but for the architectures, which do little else), copies to the user's
-- memory, the functions that headers declare and no file defines, as most of kernel/include/fs.h and
-- kernel/include/net.h, and the tests and benchmarks that call such functions. A call under a spinlock
-- is one step, but for quantum_perf_update_metric in Performance/Threads, where every read and write of
-- a shared field is one; quantum_open is two atomic steps, and ctrlxt_qmem_alloc in QMem/Race its check
-- and what it does under the lock.
pub mod Base
pub mod Kernel
pub mod QMem
pub mod Contexts
pub mod Security
pub mod Performance
pub mod Mm
pub mod Vfs
pub mod Fs
pub mod Net
pub mod Qdev
pub mod Boot
pub mod Uhal
pub mod Arch
pub mod Kunit
pub mod Tests
pub mod Quantum
pub mod Device
pub mod Qec
pub mod Qc
