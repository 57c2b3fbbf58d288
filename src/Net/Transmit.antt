-- ===== src/Net/Transmit.antt =====
-- ctrlxt_net_xmit over a queue of packets, and the statistics that ctrlxt_net_get_stats shows.
use ctrlxt_kernel.Base.{ℕ, ◌+◌, ◌%◌, ◌^◌, ◌<◌, ◌≡◌, refl, List, [], ◌∷◌, arith, length, total}
use ctrlxt_kernel.Kernel.Run.{ok, Cmd, ◌>>◌, Returns, returns, Returns-mono, Returns-then}
use ctrlxt_kernel.Net.{NetStats, Net, Skb, net_xmit, net_get_stats}

unfoldable pub xmit_all : List Skb → Cmd Net (Unit {0})
xmit_all [] m = ok tt m
xmit_all (p ∷ ps) m = (net_xmit p >> xmit_all ps) m

-- The places of a queue of packets, the last first, in front of others.
abbrev pub places_onto : List Skb → List ℕ → List ℕ
places_onto [] rest = rest
places_onto (p ∷ ps) rest = places_onto ps (p.place ∷ rest)

-- Both counters fit an unsigned long.
pub record InRange (s : NetStats) : Type 0 where
  pub packets : s.tx_packets < 2 ^ 64
  pub bytes : s.tx_bytes < 2 ^ 64

-- What a queue of packets does to the state, but for the statistics.
pub record Sent (ps : List Skb) (m n : Net) : Type 0 where
  pub freed : n.freed_skbs ≡ places_onto ps m.freed_skbs
  pub dev : n.dev ≡ m.dev
  pub packets : n.stats.tx_packets ≡ (m.stats.tx_packets + length ps) % 2 ^ 64
  pub bytes : n.stats.tx_bytes ≡ (m.stats.tx_bytes + total (λ p. p.len) ps) % 2 ^ 64

xmit_all-Sent :
    (ps : List Skb) (m : Net) → InRange m.stats → Returns (λ _ n. Sent ps m n) (xmit_all ps m)
unfolding xmit_all net_xmit
xmit_all-Sent [] m r = returns (record {
  freed = refl;
  dev = refl;
  packets = omega (arith, r.packets);
  bytes = omega (arith, r.bytes);
})
xmit_all-Sent (p ∷ ps) m r =
    let s : NetStats = record {
      tx_packets = (m.stats.tx_packets + 1) % 2 ^ 64;
      tx_bytes = (m.stats.tx_bytes + p.len) % 2 ^ 64;
    } in
    Returns-mono
      (xmit_all-Sent ps (record m { stats = s; freed_skbs = p.place ∷ m.freed_skbs })
        (record { packets = omega arith; bytes = omega arith }))
      λ _ n w. record {
        freed = w.freed;
        dev = w.dev;
        packets = omega (arith, w.packets);
        bytes = omega (arith, w.bytes);
      }

-- From counters that fit an unsigned long, a queue of packets is sent without a fault. Each packet
-- is freed once, in the order of the queue, the device is as before, and ctrlxt_net_get_stats then
-- shows both counters raised by the number of the packets and by the sum of their lengths, modulo
-- 2 ^ 64.
pub xmit_all-get_stats :
    (ps : List Skb) (m : Net)
    → InRange m.stats
    → Returns
        (λ s n.
          (n.freed_skbs ≡ places_onto ps m.freed_skbs)
          × (n.dev ≡ m.dev)
          × (s.tx_packets ≡ (m.stats.tx_packets + length ps) % 2 ^ 64)
          × (s.tx_bytes ≡ (m.stats.tx_bytes + total (λ p. p.len) ps) % 2 ^ 64))
        ((xmit_all ps >> net_get_stats) m)
unfolding net_get_stats
xmit_all-get_stats ps m r =
    Returns-then (xmit_all-Sent ps m r) λ _ n w. returns (w.freed, w.dev, w.packets, w.bytes)
