-- ===== src/Talker/Run.antt =====
-- What the cores are started with, from a table of flows.
use rtgen_dpdk_next.Base.{
  ℕ, ◌+◌, ◌^◌, ◌<◌, ◌≤◌, arith, ◌≡◌, ◌≢◌, refl, subst, inl, inr, Bool, true, none, some, List, [],
  ◌∷◌, map, All, length, ◌>>=◌,
}
use rtgen_dpdk_next.Flow.{Flow, FlowState, init_flow_timer, init_flowset_timer}
use rtgen_dpdk_next.Flow.Table.{Represents}
use rtgen_dpdk_next.Flow.Timer.{init_flowset_timer-Represents}
use rtgen_dpdk_next.Sche.{ScheduleState, Malloc, create_schedule_state}
use rtgen_dpdk_next.Sche.Lcm.{IsLcm}
use rtgen_dpdk_next.Sche.Frames.{IsReady, queue_frames}
use rtgen_dpdk_next.Sche.Build.{IsMalloc, AreSchedules, create_schedule_state-AreSchedules}
use rtgen_dpdk_next.Packet.{Mbuf, Dpdk}
use rtgen_dpdk_next.Sending.{Supply, prepare_pkts}
use rtgen_dpdk_next.Packet.Layout.{AppendLaws}
use rtgen_dpdk_next.Sending.Table.{AllCanPrepare, Packets, addressed_from, prepare_pkts-Packets}
use rtgen_dpdk_next.Launch.{CoreStart, enough, launch_queues, first_lcore}
use rtgen_dpdk_next.Launch.Queues.{HasNet, Started, launch_queues-Started}
use rtgen_dpdk_next.Talker.{Launched, plenty, run_table}
use rtgen_dpdk_next.Ports.{num_tx_queue}
use rtgen_dpdk_next.Base.Int.{ℤ}

addressed_from-HasNet :
    (room : ℕ) (sup : Supply) (i : ℕ) (fs : List Flow)
    → AllCanPrepare room sup i fs
    → All HasNet (addressed_from sup i fs)
addressed_from-HasNet room sup i [] h = tt
addressed_from-HasNet room sup i (f ∷ fs) h =
    (rw (h.0.has_net) (_, refl), addressed_from-HasNet room sup (i + 1) fs h.1)

-- What the cores are started with, for the flows `timed`, whose timers are set: the state of the table
-- after the packets are made, one schedule for each queue, the packets, and the cores.
pub record IsLaunched (l : Dpdk) (room : ℕ) (sup : Supply) (pit_port : ℤ) (pit_hw pit_etf : Bool)
    (base_time cycle num_queues : ℕ) (fs timed : List Flow) (ok : AllCanPrepare room sup 0 timed)
    (r : Launched) : Type 0 where
  pub table : Represents r.state (addressed_from sup 0 timed)
  pub queues : length r.schedules ≡ num_queues
  pub schedules : AreSchedules 0 cycle fs r.schedules
  pub packets : Packets l room sup pit_hw pit_etf 0 timed ok r.pkts
  pub cores :
      Started pit_port base_time (addressed_from sup 0 timed) r.schedules 0 first_lcore r.cores

run_table-chain :
    (malloc : Malloc) (l : Dpdk) (sup : Supply) (port : ℤ) (hw etf : Bool) (base n : ℕ)
    (s s1 s2 : FlowState) (xs : List ScheduleState) (ms : List Mbuf) (cs : List CoreStart)
    → create_schedule_state malloc true true s n ≡ some (some xs)
    → init_flowset_timer s base ≡ some s1
    → prepare_pkts l sup hw etf s1 ≡ some (ms, s2)
    → launch_queues true (λ q. enough) port base s2 xs n ≡ some cs
    → run_table malloc l sup plenty port hw etf base n s
      ≡ some (record { state = s2; schedules = xs; pkts = ms; cores = cs })
unfolding run_table
run_table-chain malloc l sup port hw etf base n s s1 s2 xs ms cs a b c d =
    rw (a, ◌>>=◌, b, ◌>>=◌, c, ◌>>=◌, d, ◌>>=◌) refl

-- Let a table of at least one flow have periods with the least common multiple `cycle`, flows that fit the
-- cycle and, with their timers set, can be sent from empty packet buffers, and fewer than 2 ^ 31 frames
-- for a queue; let there be at most 2 queues and
-- malloc never fail. Then `run_table`, the part of `main` from the schedules to the
-- start of the cores, does not fault: each queue has the schedule of its flows, each flow the packet of
-- its interface, and each queue with frames a core, on the one table in which all timers start at
-- `base`.
pub run_table-IsLaunched :
    (malloc : Malloc) (l : Dpdk) (room : ℕ) (sup : Supply) (port : ℤ) (hw etf : Bool)
    (base cycle n : ℕ) (s : FlowState) (f : Flow) (fs : List Flow)
    → IsMalloc malloc
    → ((call size : ℕ) → malloc call size ≢ none)
    → AppendLaws l room
    → Represents s (f ∷ fs)
    → IsLcm cycle (map (λ g. g.period) (f ∷ fs))
    → All (IsReady cycle) (f ∷ fs)
    → ((q : ℕ) → length (queue_frames q cycle 0 (f ∷ fs)) < 2 ^ 31)
    → n ≤ num_tx_queue
    → (ok : AllCanPrepare room sup 0 (map (init_flow_timer base) (f ∷ fs)))
    → (r : Launched) × (run_table malloc l sup plenty port hw etf base n s ≡ some r)
      × IsLaunched l room sup port hw etf base cycle n
          (f ∷ fs)
          (map (init_flow_timer base) (f ∷ fs))
          ok
          r
run_table-IsLaunched malloc l room sup port hw etf base cycle n s f fs law never laws r lcm ready
      small few ok =
    elim (create_schedule_state-AreSchedules malloc s f fs cycle n law r lcm ready small) [
      | inl (e, (call, size, failed)) ↦ absurd (never call size failed)
      | inr (xs, e, len, good) ↦
          let timed : List Flow = map (init_flow_timer base) (f ∷ fs) in
          let (s1, e1, r1) = init_flowset_timer-Represents s (f ∷ fs) base r in
          let (ms, s2, e2, r2, ps) = prepare_pkts-Packets l room laws sup hw etf s1 timed r1 ok in
          let (cs, e3, started) =
            launch_queues-Started port base s2 (addressed_from sup 0 timed) xs r2
              (addressed_from-HasNet room sup 0 timed ok) (omega (arith, len, few)) in
          (
            record { state = s2; schedules = xs; pkts = ms; cores = cs },
            run_table-chain malloc l sup port hw etf base n s s1 s2 xs ms cs e e1 e2
                (subst (λ k. launch_queues true (λ q. enough) port base s2 xs k ≡ some cs) len e3),
            record { table = r2; queues = len; schedules = good; packets = ps; cores = started },
          )
    ]
