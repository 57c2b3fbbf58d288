-- ===== src/Tests/Network.antt =====
-- Runs of the network stack, kernel/net/ctrlxt_net.c.
use ctrlxt_kernel.Base.{ℕ, ◌≡◌, refl, Bool, true, false, ◌==◌, some, List, [], ◌∷◌, arith, take}
use ctrlxt_kernel.Kernel.Errno.{success}
use ctrlxt_kernel.Kernel.Run.{ok, ◌>>◌, Returns}
use ctrlxt_kernel.Kernel.Slot.{empty, live, freed}
use ctrlxt_kernel.Kernel.History.{run_all}
use ctrlxt_kernel.Net.{
  Netdev, Net, Skb, eth_alen, net_get_stats, init, register_netdev, init_quantum_networking, exit,
}
use ctrlxt_kernel.Net.Transmit.{xmit_all, xmit_all-get_stats}
use ctrlxt_kernel.Net.Lifecycle.{
  NetOp, opens, stops, xmits, sets_mac, net_step, IsUp, init-run_all-exit,
}

abbrev old_dev : Netdev
old_dev = record {
  registered = false;
  queue_started = false;
  dev_addr = 0 ∷ 0 ∷ 0 ∷ 0 ∷ 0 ∷ 0 ∷ [];
}

abbrev static_net : Net
static_net = record {
  dev = empty;
  stats = record { tx_packets = 0; tx_bytes = 0 };
  quantum_connections = 0;
  classical_connections = 0;
  freed_skbs = [];
}

abbrev up_net : Net
up_net = record static_net { dev = live (record old_dev { registered = true }) }

-- The byte counter is about to overflow.
abbrev busy_net : Net
busy_net = record up_net { stats = record { tx_packets = 41; tx_bytes = 18446744073709551600 } }

abbrev small_skb : Skb
small_skb = record { place = 3; len = 60; protocol = 6 }

abbrev large_skb : Skb
large_skb = record { place = 4; len = 1500; protocol = 17 }

xmit_all-get_stats_example :
    Returns
      (λ s n.
        (n.freed_skbs ≡ 4 ∷ 3 ∷ [])
        × (n.dev ≡ busy_net.dev)
        × (s.tx_packets ≡ 43)
        × (s.tx_bytes ≡ 1544))
      ((xmit_all (small_skb ∷ large_skb ∷ []) >> net_get_stats) busy_net)
xmit_all-get_stats_example =
    xmit_all-get_stats (small_skb ∷ large_skb ∷ []) busy_net
      (record { packets = omega arith; bytes = omega arith })

-- The addresses that are valid here start with the byte 2.
abbrev starts_with_two : List ℕ → Bool
starts_with_two [] = false
starts_with_two (x ∷ xs) = x == 2

starts_with_two-take : (a : List ℕ) → starts_with_two (take eth_alen a) ≡ starts_with_two a
starts_with_two-take [] = refl
starts_with_two-take (x ∷ xs) = refl

init_run : init (some old_dev) success static_net ≡ ok success up_net
unfolding init register_netdev init_quantum_networking
init_run = refl

abbrev net_ops : List NetOp
net_ops =
    opens
    ∷ sets_mac (2 ∷ 0 ∷ 0 ∷ 0 ∷ 0 ∷ 9 ∷ 9 ∷ [])
    ∷ xmits small_skb
    ∷ sets_mac (1 ∷ 0 ∷ 0 ∷ 0 ∷ 0 ∷ 9 ∷ [])
    ∷ stops
    ∷ []

init-run_all-exit_example :
    Returns
      (λ _ k. IsUp starts_with_two old_dev.dev_addr k × Returns (λ _ e. e.dev ≡ freed) (exit k))
      (run_all (net_step starts_with_two) net_ops up_net)
init-run_all-exit_example =
    init-run_all-exit starts_with_two starts_with_two-take old_dev success net_ops static_net up_net
      init_run
