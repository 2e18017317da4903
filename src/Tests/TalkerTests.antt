-- ===== src/Tests/TalkerTests.antt =====
-- `main` of src/talker.c from the table of flows on, with timers that start at 100.
use rtgen_dpdk_next.Base.{ℕ, ◌≡◌, refl, true, false, some, [], ◌∷◌, map, arith}
use rtgen_dpdk_next.Flow.{init_flow_timer}
use rtgen_dpdk_next.Sending.Table.{CanPrepare, AllCanPrepare}
use rtgen_dpdk_next.Talker.{Launched, plenty, run_table}
use rtgen_dpdk_next.Base.Int.{pos}
use rtgen_dpdk_next.Talker.Run.{IsLaunched, run_table-IsLaunched}
use rtgen_dpdk_next.Tests.Data.{
  flow_of, flows, first, second, third, table, table-Represents, flows-IsLcm, flows-IsReady, zeros,
}
use rtgen_dpdk_next.Tests.PacketTests.{room, dpdk, supply, dpdk-AppendLaws, flow-CanPrepare}
use rtgen_dpdk_next.Tests.ScheTests.{zeros-IsMalloc, few_frames}

timed-CanPrepare :
    (q period offset i : ℕ)
    → CanPrepare room supply i (init_flow_timer 100 (flow_of q period offset))
unfolding init_flow_timer
timed-CanPrepare q period offset i =
    let c = flow-CanPrepare q period offset i in
    record {
      net = c.net;
      id = c.id;
      prio = c.prio;
      bytes = c.bytes;
      has_net = c.has_net;
      has_size = c.has_size;
      sendable = c.sendable;
      empty_buffer = c.empty_buffer;
      has_array = refl;
      has_buffer = refl;
      has_memory = refl;
    }

flows_timed-AllCanPrepare : AllCanPrepare room supply 0 (map (init_flow_timer 100) flows)
flows_timed-AllCanPrepare =
    (timed-CanPrepare 0 2 0 0, (timed-CanPrepare 0 4 1 1, (timed-CanPrepare 1 4 3 2, tt)))

run_table-IsLaunched_example :
    (r : Launched) × (run_table zeros dpdk supply plenty (pos 0) true false 100 2 table ≡ some r)
    × IsLaunched dpdk room supply
        (pos 0)
        true
        false
        100
        4
        2
        flows
        (map (init_flow_timer 100) flows)
        flows_timed-AllCanPrepare
        r
run_table-IsLaunched_example =
    run_table-IsLaunched zeros dpdk room supply (pos 0) true false 100 4 2 table first
      (second ∷ third ∷ []) zeros-IsMalloc (λ call size e. absurd (cc)) dpdk-AppendLaws
      table-Represents flows-IsLcm flows-IsReady few_frames (omega arith) flows_timed-AllCanPrepare
