-- ===== src/Net.antt =====
-- The network stack, kernel/net/ctrlxt_net.c. `struct ctrlxt_net` is the record `Net`, whose `dev`
-- is the device that alloc_etherdev returned. What the kernel's calls return, and whether
-- is_valid_ether_addr holds, are arguments; of struct net_device the model keeps what the source
-- changes. Freed packets are logged, newest first. The other two counters of connections are set
-- to 0 and never used again, and the TCP and UDP branches of ctrlxt_net_xmit are empty.
pub mod Transmit
pub mod Lifecycle
use ctrlxt_kernel.Base.{
  ℕ, ◌+◌, ◌%◌, ◌^◌, Bool, true, false, Option, none, some, List, [], ◌∷◌, ℤ, is_neg, if◌then◌else◌,
  take,
}
use ctrlxt_kernel.Kernel.Errno.{success, enomem, enodev, eaddrnotavail}
use ctrlxt_kernel.Kernel.Run.{Run, ok, fault, Cmd, pure, ◌>>=◌, ◌>>◌, modify}
use ctrlxt_kernel.Kernel.Slot.{Slot, empty, live, freed}

pub record Netdev : Type 0 where
  pub registered : Bool
  pub queue_started : Bool
  pub dev_addr : List ℕ

pub record NetStats : Type 0 where
  pub tx_packets : ℕ
  pub tx_bytes : ℕ

pub record Net : Type 0 where
  pub dev : Slot Netdev
  pub stats : NetStats
  pub quantum_connections : ℕ
  pub classical_connections : ℕ
  pub freed_skbs : List ℕ

-- A packet: its place in memory, its length and the protocol of its IP header.
pub record Skb : Type 0 where
  pub place : ℕ
  pub len : ℕ
  pub protocol : ℕ

abbrev pub eth_alen : ℕ
eth_alen = 6

-- What the source does to the device that it holds.
abbrev pub at_dev : {A : Type 0} → (Netdev → A × Netdev) → Slot Netdev → Cmd Net A
at_dev f empty m = fault
at_dev f freed m = fault
at_dev f (live d) m = let (a, d') = f d in ok a (record m { dev = live d' })

abbrev pub on_dev : {A : Type 0} → (Netdev → A × Netdev) → Cmd Net A
on_dev f m = at_dev f m.dev m

-- free_netdev
abbrev pub free_netdev : Slot Netdev → Cmd Net (Unit {0})
free_netdev empty m = ok tt m
free_netdev (live d) m = ok tt (record m { dev = freed })
free_netdev freed m = fault

-- The end of register_netdev, behind register_netdevice.
abbrev pub registered_or : ℤ → Cmd Net ℤ
registered_or ret m =
    if is_neg ret
    then (do free_netdev m.dev; pure enodev) m
    else (do on_dev λ d. (tt, record d { registered = true }); pure success) m

-- `netdev` is what alloc_etherdev returns, `ret` what register_netdevice returns.
unfoldable pub register_netdev : Option Netdev → (ret : ℤ) → Cmd Net ℤ
register_netdev none ret m = ok enomem (record m { dev = empty })
register_netdev (some d) ret m = registered_or ret (record m { dev = live d })

unfoldable pub init_quantum_networking : Cmd Net ℤ
init_quantum_networking m = ok success m

-- unregister_netdevice
abbrev pub unregister_netdevice : Cmd Net (Unit {0})
unregister_netdevice = on_dev λ d. (tt, record d { registered = false; queue_started = false })

-- The end of ctrlxt_net_init, behind init_quantum_networking.
abbrev pub init_rest : ℤ → Cmd Net ℤ
init_rest ret = if is_neg ret then (do unregister_netdevice; pure ret) else pure success

unfoldable pub init : Option Netdev → (ret : ℤ) → Cmd Net ℤ
unfolding register_netdev init_quantum_networking
init netdev ret m =
    (do
      modify λ n. record n { quantum_connections = 0; classical_connections = 0 }
      r ← register_netdev netdev ret
      if is_neg r then pure r else do q ← init_quantum_networking; init_rest q)
      m

unfoldable pub net_open : Cmd Net ℤ
net_open m = (on_dev λ d. (success, record d { queue_started = true })) m

unfoldable pub net_stop : Cmd Net ℤ
net_stop m = (on_dev λ d. (success, record d { queue_started = false })) m

-- The code of ctrlxt_net_xmit, NETDEV_TX_OK, is 0.
unfoldable pub net_xmit : Skb → Cmd Net ℤ
net_xmit skb m = ok success (record m {
  stats = record {
    tx_packets = (m.stats.tx_packets + 1) % 2 ^ 64;
    tx_bytes = (m.stats.tx_bytes + skb.len) % 2 ^ 64;
  };
  freed_skbs = skb.place ∷ m.freed_skbs;
})

unfoldable pub net_get_stats : Cmd Net NetStats
net_get_stats m = ok m.stats m

-- `address` is the caller's sa_data.
unfoldable pub net_set_mac : (is_valid : List ℕ → Bool) → (address : List ℕ) → Cmd Net ℤ
net_set_mac is_valid address m =
    if is_valid address
    then (on_dev λ d. (success, record d { dev_addr = take eth_alen address })) m
    else ok eaddrnotavail m

-- net_exit at the pointer that the module holds.
abbrev pub exit_dev : Slot Netdev → Cmd Net (Unit {0})
exit_dev empty m = ok tt m
exit_dev (live d) m = (do unregister_netdevice; λ n. free_netdev n.dev n) m
exit_dev freed m = fault

unfoldable pub exit : Cmd Net (Unit {0})
exit m = exit_dev m.dev m
