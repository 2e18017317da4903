-- ===== src/Tests/Data.antt =====
-- Two flows of queue 0, one of queue 1, and the table that holds them.
use native.Mathlib.Nat.{dvd-mul_right, dvd_refl}
use rtgen_dpdk_next.Base.{ℕ, ◌<◌, refl, some, List, [], ◌∷◌, map, arith, All, replicate}
use rtgen_dpdk_next.Base.Int.{pos}
use rtgen_dpdk_next.Flow.{Flow, FlowState, InterfaceConfig}
use rtgen_dpdk_next.Flow.Table.{
  Represents, fresh_table, fresh_table-Represents, add_flows, add_flows-Represents,
}
use rtgen_dpdk_next.Launch.Queues.{HasNet}
use rtgen_dpdk_next.Sche.{Malloc}
use rtgen_dpdk_next.Sche.Lcm.{IsLcm}
use rtgen_dpdk_next.Sche.Frames.{IsReady}

abbrev pub net_of : ℕ → InterfaceConfig
net_of q = record {
  port = pos 0;
  queue = pos q;
  mac_src = "00:00:00:00:00:00";
  mac_dst = "00:00:00:00:00:00";
  vlan_enabled = pos 0;
  vlan = pos 0;
  priority = pos 0;
  ip_enabled = pos 0;
  ip_src = "192.168.0.96";
  ip_dst = "-";
  port_src = pos 12345;
  port_dst = pos 12345;
  rt_enabled = pos 0;
  txtime_enabled = pos 0;
}

abbrev pub flow_of : (q period offset : ℕ) → Flow
flow_of q period offset = record {
  size = pos 200;
  priority = pos 0;
  delta = 1;
  transmission_time = 0;
  period = period;
  offset_sec = 0;
  offset_nsec = offset;
  count = 0;
  sche_time = 100;
  net = some (net_of q);
}

abbrev pub first : Flow
first = flow_of 0 2 0

abbrev pub second : Flow
second = flow_of 0 4 1

abbrev pub third : Flow
third = flow_of 1 4 3

abbrev pub flows : List Flow
flows = first ∷ second ∷ third ∷ []

pub table : FlowState
table = add_flows fresh_table flows

pub table-Represents : Represents table flows
unfolding table
table-Represents = add_flows-Represents fresh_table [] flows fresh_table-Represents

pub flows-IsLcm : IsLcm 4 (map (λ f. f.period) flows)
flows-IsLcm = record {
  positive = omega arith;
  multiple = (dvd-mul_right 2 2, (dvd_refl 4, (dvd_refl 4, tt)));
  least = λ k h. h.1.0;
}

pub flows-HasNet : All HasNet flows
flows-HasNet = ((net_of 0, refl), ((net_of 0, refl), ((net_of 1, refl), tt)))

pub flow_of-IsReady :
    (q period offset : ℕ) → 0 < period → offset < 1000 → IsReady 4 (flow_of q period offset)
flow_of-IsReady q period offset h k = record {
  net = net_of q;
  has_net = refl;
  period_pos = h;
  fits = omega arith;
}

pub flows-IsReady : All (IsReady 4) flows
flows-IsReady = (
  flow_of-IsReady 0 2 0 (omega arith) (omega arith),
  (
    flow_of-IsReady 0 4 1 (omega arith) (omega arith),
    (flow_of-IsReady 1 4 3 (omega arith) (omega arith), tt),
  ),
)

abbrev pub zeros : Malloc
zeros call n = some (replicate n 0)
