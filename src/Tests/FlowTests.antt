-- ===== src/Tests/FlowTests.antt =====
-- src/flow.c.
use rtgen_dpdk_next.Base.{◌≡◌, refl, some, [], take}
use rtgen_dpdk_next.Flow.{
  FlowState, init_flow_timer, inc_flow_timer, create_flow_state, max_num_flows,
}
use rtgen_dpdk_next.Flow.Table.{Represents, add_flows, add_flows_lem}
use rtgen_dpdk_next.Flow.Timer.{inc_times}
use rtgen_dpdk_next.Tests.Data.{first, flows}

abbrev garbage : FlowState
garbage = record { flows = []; num_flows = 77 }

add_flows_lem_example :
    (s : FlowState) × (create_flow_state (some garbage) ≡ some s)
    × Represents (add_flows s flows) (take max_num_flows flows)
add_flows_lem_example = add_flows_lem garbage flows

sche_time_runs : (inc_times 3 (init_flow_timer 5000000000 first)).sche_time ≡ 5000000006
unfolding init_flow_timer inc_flow_timer
sche_time_runs = refl
