-- ===== src/Net/Lifecycle.antt =====
-- ctrlxt_net_init and net_exit, and what the operations between them keep.
use ctrlxt_kernel.Base.{
  ℕ, ◌≡◌, refl, sym, ap, ◌∙◌, ◌⊎◌, inl, inr, Bool, true, Option, none, some, List, ℤ, is_neg, take,
  Bool-cases,
}
use ctrlxt_kernel.Kernel.Errno.{success, enomem, enodev}
use ctrlxt_kernel.Kernel.Slot.{empty, live, freed}
use ctrlxt_kernel.Kernel.Run.{ok, pure, Cmd, ◌>>◌, Returns, returns, Returns-mono, Returns-ok}
use ctrlxt_kernel.Kernel.History.{run_all, run_all-always}
use ctrlxt_kernel.Net.{
  Netdev, Net, Skb, eth_alen, register_netdev, init_quantum_networking, init, net_open, net_stop,
  net_xmit, net_set_mac, exit,
}

-- What ctrlxt_net_init leaves, by its code: no device, a pointer to a device that has been freed,
-- or a registered device.
pub data Outcome (netdev : Option Netdev) (ret r : ℤ) (n : Net) : Type 0 where
  no_memory : netdev ≡ none → r ≡ enomem → n.dev ≡ empty → Outcome netdev ret r n
  refused : is_neg ret ≡ true → r ≡ enodev → n.dev ≡ freed → Outcome netdev ret r n
  started :
      (d : Netdev)
      → netdev ≡ some d
      → r ≡ success
      → n.dev ≡ live (record d { registered = true })
      → Outcome netdev ret r n

-- Initialisation ends without a fault. It returns -ENOMEM and holds no device, or returns -ENODEV
-- and keeps the pointer to the device that it has freed, or returns 0 and holds the device
-- registered.
pub init-outcome :
    (netdev : Option Netdev) (ret : ℤ) (m : Net) → Returns (Outcome netdev ret) (init netdev ret m)
unfolding init register_netdev init_quantum_networking
init-outcome none ret m = returns (no_memory refl refl refl)
init-outcome (some d) ret m = elim (Bool-cases (is_neg ret)) [
  | inl e ↦ rw e (returns (refused e refl refl))
  | inr e ↦ rw e (returns (started d refl refl refl))
]

-- The calls that the kernel makes through ctrlxt_netdev_ops.
pub data NetOp : Type 0 where
  opens stops : NetOp
  xmits : Skb → NetOp
  sets_mac : List ℕ → NetOp

module _ (is_valid : List ℕ → Bool) where
  -- A call whose code the history does not read.
  unfoldable pub net_step : NetOp → Cmd Net (Unit {0})
  net_step opens m = (net_open >> pure tt) m
  net_step stops m = (net_stop >> pure tt) m
  net_step (xmits p) m = (net_xmit p >> pure tt) m
  net_step (sets_mac a) m = (net_set_mac is_valid a >> pure tt) m

  -- The device is registered, and its address is `old` or a valid one.
  abbrev pub IsUp : List ℕ → Net → Type 0
  IsUp old m =
      (d : Netdev) × (m.dev ≡ live d)
      × (d.registered ≡ true)
      × ((d.dev_addr ≡ old) ⊎ (is_valid d.dev_addr ≡ true))

-- is_valid_ether_addr reads the first ETH_ALEN bytes.
module _ (is_valid : List ℕ → Bool)
    (reads : (a : List ℕ) → is_valid (take eth_alen a) ≡ is_valid a) where
  net_step-IsUp :
      (old : List ℕ) (o : NetOp) (m : Net)
      → IsUp is_valid old m
      → Returns (λ _. IsUp is_valid old) (net_step is_valid o m)
  unfolding net_step net_open net_stop net_xmit net_set_mac
  net_step-IsUp old opens m (d, e, r, a) = rw e (returns (_, refl, r, a))
  net_step-IsUp old stops m (d, e, r, a) = rw e (returns (_, refl, r, a))
  net_step-IsUp old (xmits p) m (d, e, r, a) = returns (d, e, r, a)
  net_step-IsUp old (sets_mac x) m (d, e, r, a) = elim (Bool-cases (is_valid x)) [
    | inl v ↦ rw (v, e) (returns (_, refl, r, inr (reads x ∙ v)))
    | inr v ↦ rw v (returns (d, e, r, a))
  ]

  exit-freed :
      (old : List ℕ) (m : Net) → IsUp is_valid old m → Returns (λ _ n. n.dev ≡ freed) (exit m)
  unfolding exit
  exit-freed old m (d, e, r, a) = rw e (returns refl)

  started-IsUp :
      (d : Netdev) (ret : ℤ) (n : Net) → Outcome (some d) ret success n → IsUp is_valid d.dev_addr n
  started-IsUp d ret n (no_memory e f g) = cc
  started-IsUp d ret n (refused e f g) = cc
  started-IsUp d ret n (started d' e f g) =
      let same : d ≡ d' = cc in (_, g, refl, inl (sym (ap (λ x. x.dev_addr) same)))

  -- Where is_valid_ether_addr depends on the first six bytes only, any history of the calls through
  -- ctrlxt_netdev_ops, after an initialisation that returned 0, ends without a fault, with the
  -- device registered and its address the one that alloc_etherdev gave or a valid one; net_exit
  -- then frees the device.
  pub init-run_all-exit :
      (d : Netdev) (ret : ℤ) (ops : List NetOp) (m n : Net)
      → init (some d) ret m ≡ ok success n
      → Returns
          (λ _ k. IsUp is_valid d.dev_addr k × Returns (λ _ e. e.dev ≡ freed) (exit k))
          (run_all (net_step is_valid) ops n)
  init-run_all-exit d ret ops m n h =
      Returns-mono
        (run_all-always (net_step is_valid) (IsUp is_valid d.dev_addr) (net_step-IsUp d.dev_addr)
          ops n (started-IsUp d ret n (Returns-ok (init-outcome (some d) ret m) h)))
        λ _ k w. (w, exit-freed d.dev_addr k w)
