-- ===== src/Contexts/References.antt =====
-- References to the global context: how long it lives.
use ctrlxt_kernel.Base.{
  zero, length, ℕ, suc, ◌+◌, ◌-◌, ◌%◌, ◌<◌, ◌^◌, ◌≡◌, refl, false, Option, none, some, List, [],
  ◌∷◌, arith, cons_opt,
}
use ctrlxt_kernel.Kernel.Errno.{success}
use ctrlxt_kernel.Kernel.Pointer.{Pointer, null, addr}
use ctrlxt_kernel.Kernel.Run.{
  ok, fault, Cmd, pure, ◌>>◌, write, write-write, write-read, Returns, returns, Returns-then,
  Returns-mono,
}
use ctrlxt_kernel.Contexts.Defs.{Context, Contexts, fresh, install, uninstall, get, put, destroy}

-- What clients do with the global context: take a reference, or give one back.
pub data Action : Type 0 where
  take_one : Action
  give_back : Action

-- The references that clients hold afterwards; `none` where one gives back what nobody holds.
abbrev pub holders_after : ℕ → List Action → Option ℕ
holders_after h [] = some h
holders_after h (take_one ∷ rest) = holders_after (suc h) rest
holders_after zero (give_back ∷ rest) = none
holders_after (suc h) (give_back ∷ rest) = holders_after h rest

module _ {B : Type 0} where
  -- The global context is allocated, with one reference for the module and one for each of the
  -- given holders, and the lock is free.
  pub record IsHeld (a holders : ℕ) (m : Contexts B) : Type 0 where
    pub global : m.global_context ≡ addr a
    pub context : (c : Context B) × (m.heap a ≡ some c) × (c.ref_count ≡ suc holders)
    pub unlocked : m.locked ≡ false

  pub install-IsHeld :
      (a : ℕ) (body : B) (m : Contexts B)
      → m.locked ≡ false
      → Returns (λ ret n. (ret ≡ success) × IsHeld a 0 n) (install (some a) body m)
  unfolding install
  install-IsHeld a body m u = rw u (
      returns (
        refl,
        record {
          global = refl;
          context = (fresh body, write-read m.heap a (some (fresh body)), refl);
          unlocked = refl;
        },
      ))

  -- The state behind a change of the reference count.
  abbrev recounted : ℕ → Context B → ℕ → Contexts B → Contexts B
  recounted a c n m = record m { heap = write m.heap a (some (record c { ref_count = n })) }

  -- The state behind the release of the last reference to the context.
  abbrev pub dropped : ℕ → Context B → Contexts B → Contexts B
  dropped a c m = record m {
    heap = write m.heap a none;
    freed_data = cons_opt c.private_data m.freed_data;
  }

  module _ (a : ℕ) (c : Context B) (m : Contexts B) where
    pub get-recounted :
        (n : ℕ)
        → m.locked ≡ false
        → m.global_context ≡ addr a
        → m.heap a ≡ some c
        → c.ref_count + 1 ≡ n
        → n < 2 ^ 32
        → get m ≡ ok (addr a) (recounted a c n m)
    unfolding get
    get-recounted n u g e more fits =
        let r : (c.ref_count + 1) % 2 ^ 32 ≡ n = omega arith in ground arith

    pub put-recounted :
        (n : ℕ)
        → m.locked ≡ false
        → m.heap a ≡ some c
        → c.ref_count ≡ suc (suc n)
        → suc (suc n) < 2 ^ 32
        → put (addr a) m ≡ ok tt (recounted a c (suc n) m)
    unfolding put
    put-recounted n u e more fits =
        let r : (c.ref_count + 2 ^ 32 - 1) % 2 ^ 32 ≡ suc n = omega arith in ground arith

    pub put-dropped :
        m.locked ≡ false
        → m.heap a ≡ some c
        → c.ref_count ≡ 1
        → put (addr a) m ≡ ok tt (dropped a c m)
    unfolding put destroy
    put-dropped u e one =
        ground (arith, write-write m.heap a (some (record c { ref_count = 0 })) none)

  pub recounted-IsHeld :
      (a holders n : ℕ) (c : Context B) (m : Contexts B)
      → IsHeld a holders m
      → IsHeld a n (recounted a c (suc n) m)
  recounted-IsHeld a h n c m v = record {
    global = v.global;
    context = (record c { ref_count = suc n }, write-read m.heap a _, refl);
    unlocked = v.unlocked;
  }

  pub get-IsHeld :
      (a holders : ℕ) (m : Contexts B)
      → IsHeld a holders m
      → holders + 2 < 2 ^ 32
      → Returns (λ p n. (p ≡ addr a) × IsHeld a (suc holders) n) (get m)
  get-IsHeld a h m v room =
      let (c, e, r) = v.context in
      rw (get-recounted a c m (suc (suc h)) v.unlocked v.global e (omega arith) (omega arith))
        (returns (refl, recounted-IsHeld a h (suc h) c m v))

  pub put-IsHeld :
      (a holders : ℕ) (m : Contexts B)
      → IsHeld a (suc holders) m
      → holders + 2 < 2 ^ 32
      → Returns (λ _ n. IsHeld a holders n) (put (addr a) m)
  put-IsHeld a h m v room =
      let (c, e, r) = v.context in
      rw (put-recounted a c m h v.unlocked e (omega arith) (omega arith))
        (returns (recounted-IsHeld a (suc h) h c m v))

  abbrev pub act : Pointer → Action → Cmd (Contexts B) (Unit {0})
  act p take_one = do get; pure tt
  act p give_back = put p

  abbrev pub act_all : Pointer → List Action → Cmd (Contexts B) (Unit {0})
  act_all p [] = pure tt
  act_all p (x ∷ rest) = do act p x; act_all p rest

  -- Clients that take references to a global context, and give back only what they hold, end with
  -- the context allocated and its count one above what they still hold, without a fault, while the
  -- references held at first and the calls number fewer than 2 ^ 32 - 2 together.
  pub act_all-IsHeld :
      (a h n : ℕ) (actions : List Action) (m : Contexts B)
      → IsHeld a h m
      → h + length actions + 2 < 2 ^ 32
      → holders_after h actions ≡ some n
      → Returns (λ _ k. IsHeld a n k) (act_all (addr a) actions m)
  act_all-IsHeld a h n [] m v room e = let i : n ≡ h = cc in returns (rw i v)
  act_all-IsHeld a h n (take_one ∷ rest) m v room e =
      Returns-then (Returns-then (get-IsHeld a h m v (omega arith)) λ _ k w. returns w.1)
        λ _ k w. act_all-IsHeld a (suc h) n rest k w (omega arith) e
  act_all-IsHeld a zero n (give_back ∷ rest) m v room e = cc
  act_all-IsHeld a (suc h) n (give_back ∷ rest) m v room e =
      Returns-then (put-IsHeld a h m v (omega arith))
        λ _ k w. act_all-IsHeld a h n rest k w (omega arith) e

  -- After uninstall nothing is at the address.
  pub uninstall-gone :
      (a h : ℕ) (m : Contexts B)
      → IsHeld a h m
      → Returns
          (λ _ n. (n.global_context ≡ null) × (n.heap a ≡ none) × (n.locked ≡ false))
          (uninstall m)
  unfolding uninstall destroy
  uninstall-gone a h m v =
      let (c, e, r) = v.context in
      let u = v.unlocked in
      let g = v.global in
      let gone : uninstall m
          ≡ ok tt (record (dropped a c m) { global_context = null; locked = false }) =
        ground arith in
      rw gone (returns (refl, write-read m.heap a none, refl))

  pub put-gone : (a : ℕ) (m : Contexts B) → m.heap a ≡ none → put (addr a) m ≡ fault
  unfolding put
  put-gone a m e = ground (arith)

  -- Unloading frees the global context whatever its references: a client that still holds one and
  -- gives it back reads freed memory, a fault.
  pub uninstall-put_fault :
      (a h : ℕ) (m : Contexts B)
      → IsHeld a (suc h) m
      → Returns (λ _ n. put (addr a) n ≡ fault) (uninstall m)
  uninstall-put_fault a h m v =
      Returns-mono (uninstall-gone a (suc h) m v) λ _ n w. put-gone a n w.1

  -- One reference given back too often frees the context behind the global pointer, and the next
  -- client that asks for it reads freed memory, a fault.
  pub put-get_fault :
      (a : ℕ) (m : Contexts B) → IsHeld a 0 m → Returns (λ _ n. get n ≡ fault) (put (addr a) m)
  unfolding get
  put-get_fault a m v =
      let (c, e, r) = v.context in
      rw (put-dropped a c m v.unlocked e r)
        (returns (ground (arith, v.global, v.unlocked, write-read m.heap a none)))
