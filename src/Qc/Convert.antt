-- ===== src/Qc/Convert.antt =====
-- ctrlxt_qc_classical_to_quantum: the gates that it applies, and what it leaves.
use ctrlxt_kernel.Base.{
  ℕ, zero, suc, ◌+◌, ◌%◌, ◌≤◌, ◌≡◌, refl, true, false, some, List, [], ◌∷◌, ◌++◌, ℤ, is_neg, arith,
  ◌==◌, if◌then◌else◌, ltb-false, length, take, drop, length-append, length-take, length-take-drop,
  take-append,
}
use ctrlxt_kernel.Kernel.Errno.{success}
use ctrlxt_kernel.Kernel.Atomic.{atomic_inc}
use ctrlxt_kernel.Kernel.Run.{ok}
use ctrlxt_kernel.Kernel.Slot.{live}
use ctrlxt_kernel.Quantum.{Quantum}
use ctrlxt_kernel.Qc.{
  Qc, encode_byte, encode, encode_all, copy_in, read_buffer, finish_conversion,
  classical_to_quantum,
}

-- The interface as ctrlxt_qc_init leaves it: a quantum state, a buffer of the stated size, and
-- the lock free.
pub record IsReady {S : Type 0} (m : Qc S) (st : S) (old : List ℕ) : Type 0 where
  pub state : m.quantum_state ≡ live st
  pub buffer : m.classical_buffer ≡ live old
  pub sized : length old ≡ m.buffer_size
  pub unlocked : m.locked ≡ false

-- What memcpy leaves in the buffer, and what is then read from its front.
take-overwrite :
    (size : ℕ) (bytes old : List ℕ)
    → size ≤ length bytes
    → take size (take size bytes ++ drop size old) ≡ take size bytes
take-overwrite size bytes old h =
    let e = length-take size bytes h in
    let p = take-append (take size bytes) (drop size old) in rw e at p

length-overwrite :
    (size : ℕ) (bytes old : List ℕ)
    → size ≤ length bytes
    → size ≤ length old
    → length (take size bytes ++ drop size old) ≡ length old
length-overwrite size bytes old h k = omega (
  arith,
  length-append (take size bytes) (drop size old),
  length-take size bytes h,
  length-take-drop size old,
  length-take size old k,
)

module _ {S : Type 0} (bytes old : List ℕ) (m : Qc S) where
  abbrev copied : ℕ → Qc S
  copied size = record m { classical_buffer = live (take size bytes ++ drop size old) }

  copy_in-copied :
      (size : ℕ)
      → m.classical_buffer ≡ live old
      → size ≤ length bytes
      → copy_in size bytes m ≡ ok tt (copied size)
  unfolding copy_in
  copy_in-copied zero b h = ground arith
  copy_in-copied (suc n) b h = ground arith

  read_buffer-copied :
      (size : ℕ)
      → size ≤ length bytes
      → size ≤ length old
      → read_buffer size (copied size) ≡ ok (take size bytes) (copied size)
  unfolding read_buffer
  read_buffer-copied zero h k = refl
  read_buffer-copied (suc n) h k =
      ground (arith, take-overwrite (suc n) bytes old h, length-overwrite (suc n) bytes old h k)

module _ (q : Quantum) where
  open q use {State, Gate, gate_h, gate_phase, gate_apply}

  -- The gates that the bytes stand for: a Hadamard gate on the qubit of each byte, and a phase
  -- rotation behind it if the byte is odd.
  abbrev pub gates_of : ℕ → List ℕ → List (Gate × ℕ)
  gates_of i [] = []
  gates_of i (byte ∷ rest) =
      if byte % 2 == 1
      then (gate_h, i) ∷ (gate_phase, i) ∷ gates_of (i + 1) rest
      else (gate_h, i) ∷ gates_of (i + 1) rest

  -- Gates applied in order, up to the first that fails.
  abbrev pub run_gates : List (Gate × ℕ) → State → ℤ × State
  run_gates [] st = (success, st)
  run_gates ((g, i) ∷ rest) st =
      let (ret, st') = gate_apply g st i in if is_neg ret then (ret, st') else run_gates rest st'

  -- The loop applies the gates of its bytes in order, and stops at the first failure.
  pub encode-run_gates :
      (i : ℕ) (bytes : List ℕ) (st : State) → encode q i bytes st ≡ run_gates (gates_of i bytes) st
  unfolding encode encode_byte
  encode-run_gates i [] st = refl
  encode-run_gates i (byte ∷ rest) st =
      let s1 = (gate_apply gate_h st i).1 in
      let s2 = (gate_apply gate_phase s1 i).1 in
      ground (arith, encode-run_gates (i + 1) rest s1, encode-run_gates (i + 1) rest s2)

  encode_all-run_gates :
      (bytes : List ℕ) (st : State) (m : Qc State)
      → m.quantum_state ≡ live st
      → let r = run_gates (gates_of 0 bytes) st in
        encode_all q bytes m ≡ ok r.0 (record m { quantum_state = live r.1 })
  unfolding encode_all
  encode_all-run_gates [] st m e = ground arith
  encode_all-run_gates (b ∷ rest) st m e =
      rw (e, encode_all) (ground (arith, encode-run_gates 0 (b ∷ rest) st))

  -- The state behind a conversion that ended with `ret`.
  abbrev pub converted : List ℕ → ℤ → State → Qc State → Qc State
  converted buffer ret st m = record m {
    quantum_state = live st;
    classical_buffer = live buffer;
    locked = false;
    conversion_count = if is_neg ret then m.conversion_count else atomic_inc m.conversion_count;
  }

  -- In a ready interface, and for at most as many bytes as the buffer and the caller's memory
  -- hold, the bytes stand at the buffer's front, the rest of it is as before, the gates of the
  -- bytes are applied up to the first failure, whose code is returned, the conversion is counted
  -- exactly if none failed, and the lock is free.
  pub classical_to_quantum-converted :
      (bytes old : List ℕ) (size : ℕ) (st : State) (m : Qc State)
      → IsReady m st old
      → size ≤ m.buffer_size
      → size ≤ length bytes
      → let r = run_gates (gates_of 0 (take size bytes)) st in
        classical_to_quantum q (some bytes) size m
        ≡ ok
            (if is_neg r.0 then r.0 else success)
            (converted (take size bytes ++ drop size old) r.0 r.1 m)
  unfolding classical_to_quantum finish_conversion
  classical_to_quantum-converted bytes old size st m v fits enough =
      let m' : Qc State = record m { locked = true } in
      let room : size ≤ length old = omega (arith, v.sized) in
      rw
        (
          ltb-false m.buffer_size size fits,
          v.unlocked,
          copy_in-copied bytes old m' size v.buffer enough,
          read_buffer-copied bytes old m' size enough room,
          encode_all-run_gates (take size bytes) st (copied bytes old m' size) v.state,
        )
        (ground arith)
