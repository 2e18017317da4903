-- ===== src/Flow.antt =====
-- src/flow.h and src/flow.c: interfaces, flows and the table of flows. An `int` is an integer, a
-- `uint64_t` a number below 2 ^ 64, a `char *` its text. What malloc returns is an argument: `none`
-- for NULL, or the object with whatever the fresh memory holds.
pub mod Table
pub mod Timer
use Prim.Native.String.{String}
use rtgen_dpdk_next.Base.{
  ℕ, zero, suc, ◌+◌, ◌*◌, Option, none, some, List, [], ◌∷◌, add64, mul64, leb, if◌then◌else◌, set,
  get_elem?, replicate, ◌>>=◌,
}
use rtgen_dpdk_next.Base.Int.{ℤ}

abbrev pub max_num_flows : ℕ
max_num_flows = 128

abbrev pub one_second_in_ns : ℕ
one_second_in_ns = 1000000000

abbrev pub fudge_factor : ℕ
fudge_factor = 1000000

abbrev pub default_ip_src : String
default_ip_src = "192.168.0.96"

pub record InterfaceConfig : Type 0 where
  pub port : ℤ
  pub queue : ℤ
  pub mac_src : String
  pub mac_dst : String
  pub vlan_enabled : ℤ
  pub vlan : ℤ
  pub priority : ℤ
  pub ip_enabled : ℤ
  pub ip_src : String
  pub ip_dst : String
  pub port_src : ℤ
  pub port_dst : ℤ
  pub rt_enabled : ℤ
  pub txtime_enabled : ℤ

-- `net` is owned by its flow.
pub record Flow : Type 0 where
  pub size : ℤ
  pub priority : ℤ
  pub delta : ℕ
  pub transmission_time : ℕ
  pub period : ℕ
  pub offset_sec : ℕ
  pub offset_nsec : ℕ
  pub count : ℕ
  pub sche_time : ℕ
  pub net : Option InterfaceConfig

-- An array of `max_num_flows` pointers.
pub record FlowState : Type 0 where
  pub flows : List (Option Flow)
  pub num_flows : ℕ

-- `pit_mac_src` is the global of that name. The address written is not the `pit_ip_src` of the
-- same file but its default.
unfoldable pub create_interface :
    (mem : Option InterfaceConfig) (pit_mac_src : String) (port queue : ℤ) (mac_dst : String)
    (vlan_enabled vlan priority ip_enabled : ℤ) (ip_dst : String) (port_src port_dst : ℤ)
    → Option InterfaceConfig
create_interface none mac port queue mac_dst vlan_on vlan prio ip_on ip_dst psrc pdst = none
create_interface (some m) mac port queue mac_dst vlan_on vlan prio ip_on ip_dst psrc pdst =
    some (record m {
      port = port;
      queue = queue;
      mac_src = mac;
      mac_dst = mac_dst;
      vlan_enabled = vlan_on;
      vlan = vlan;
      priority = prio;
      ip_enabled = ip_on;
      ip_src = default_ip_src;
      ip_dst = ip_dst;
      port_src = psrc;
      port_dst = pdst;
    })

-- `sche_time` and `transmission_time` keep what the fresh memory holds.
unfoldable pub create_flow :
    (mem : Option Flow) (size priority : ℤ) (delta period offset_sec offset_nsec : ℕ)
    (net : Option InterfaceConfig)
    → Option Flow
create_flow none size priority delta period offset_sec offset_nsec net = none
create_flow (some m) size priority delta period offset_sec offset_nsec net = some (record m {
  size = size;
  priority = priority;
  delta = delta;
  period = period;
  offset_sec = offset_sec;
  offset_nsec = offset_nsec;
  net = net;
  count = 0;
})

unfoldable pub init_flow_timer : ℕ → Flow → Flow
init_flow_timer base f = record f {
  sche_time = add64 (add64 base (mul64 f.offset_sec one_second_in_ns)) f.offset_nsec;
}

unfoldable pub inc_flow_timer : Flow → Flow
inc_flow_timer f = record f { sche_time = add64 f.sche_time f.period }

-- `*state->flows[i]`: a fault when the slot is out of range or NULL.
abbrev pub load_flow : FlowState → ℕ → Option Flow
load_flow s i = elim (get_elem? s.flows i) [ none ↦ none | some p ↦ p ]

-- The rounds that are left, from index `i`, of a loop
-- `for (int i = 0; i < state->num_flows; i++)` whose body reads `*state->flows[i]`.
unfoldable pub for_flows_from {ℓ} :
    {S : Type ℓ} → FlowState → (ℕ → Flow → S → Option S) → (rounds i : ℕ) → S → Option S
for_flows_from s body zero i acc = some acc
for_flows_from s body (suc n) i acc = do
  f ← load_flow s i
  acc' ← body i f acc
  for_flows_from s body n (i + 1) acc'

abbrev pub for_flows {ℓ} : {S : Type ℓ} → FlowState → (ℕ → Flow → S → Option S) → S → Option S
for_flows s body acc = for_flows_from s body s.num_flows 0 acc

-- The rounds of the loop of `init_flowset_timer` that are left, from index `i`.
init_timers_from : (rounds i base : ℕ) → FlowState → Option FlowState
init_timers_from zero i base s = some s
init_timers_from (suc n) i base s = do
  f ← load_flow s i
  init_timers_from n (i + 1) base
      (record s { flows = set s.flows i (some (init_flow_timer base f)) })

unfoldable pub init_flowset_timer : FlowState → ℕ → Option FlowState
unfolding init_timers_from
init_flowset_timer s base = init_timers_from s.num_flows 0 base s

unfoldable pub create_flow_state : Option FlowState → Option FlowState
create_flow_state none = none
create_flow_state (some m) = some (record { flows = replicate max_num_flows none; num_flows = 0 })

-- The pointer may be NULL: `add_flow` does not look.
unfoldable pub add_flow : FlowState → Option Flow → FlowState
add_flow s flow =
    if leb max_num_flows s.num_flows
    then s
    else record { flows = set s.flows s.num_flows flow; num_flows = s.num_flows + 1 }
