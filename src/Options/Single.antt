-- ===== src/Options/Single.antt =====
-- The flow that `parse_command_arguments` of src/talker.c makes of the options.
use Prim.Native.String.{String}
use rtgen_dpdk_next.Base.{ℕ, ◌≡◌, refl, Option, some, List, [], ◌∷◌, arith}
use rtgen_dpdk_next.Base.Int.{ℤ, pos}
use rtgen_dpdk_next.Flow.{Flow, InterfaceConfig, create_interface, create_flow, default_ip_src}
use rtgen_dpdk_next.Flow.Table.{
  Represents, fresh_table, fresh_table-Represents, add_flow-Represents,
}
use rtgen_dpdk_next.Options.{CLib, Mem, Globals, parser, parse_command_arguments, initial_globals}
use rtgen_dpdk_next.Options.Kept.{parser-SameRest}

-- The flow of a command line: `f` and its interface `net` have the values of the globals, and no offset.
pub record FromGlobals (g : Globals) (f : Flow) : Type 0 where
  pub net : InterfaceConfig
  pub has_net : f.net ≡ some net
  pub port : net.port ≡ g.pit_port
  pub queue : net.queue ≡ g.pit_queue
  pub mac_dst : net.mac_dst ≡ g.pit_mac_dst
  pub vlan_enabled : net.vlan_enabled ≡ g.pit_vlan_enabled
  pub vlan : net.vlan ≡ g.pit_vlan
  pub priority : net.priority ≡ g.pit_priority
  pub ip_dst : net.ip_dst ≡ g.pit_ip_dst
  pub port_dst : net.port_dst ≡ g.pit_port_dst
  pub size : f.size ≡ g.pit_payload_size
  pub period : f.period ≡ g.pit_period
  pub delta : f.delta ≡ g.pit_delta
  pub no_seconds : f.offset_sec ≡ 0
  pub no_nanoseconds : f.offset_nsec ≡ 0
  pub no_ip_header : net.ip_enabled ≡ pos 0

-- Where `parser` starts from the initial globals and finds any options, the table that
-- `parse_command_arguments` then fills, malloc giving memory, has one flow, with the options' values and
-- no offset; its packets have no IP header, whatever `ip_dst` and the ports are.
pub parse_command_arguments-FromGlobals :
    (l : CLib) (calls : List (ℕ × Option String)) (g : Globals) (r : ℤ) (mem : Mem)
    (i : InterfaceConfig) (m : Flow)
    → parser l calls initial_globals ≡ some (r, g)
    → mem.new_interface 0 ≡ some i
    → mem.new_flow 0 ≡ some m
    → (f : Flow) × Represents (parse_command_arguments mem g fresh_table) (f ∷ []) × FromGlobals g f
unfolding parse_command_arguments create_interface create_flow
parse_command_arguments-FromGlobals l calls g r mem i m e hi hm =
    let kept = parser-SameRest l calls initial_globals g r e in
    let net : InterfaceConfig = record i {
      port = g.pit_port;
      queue = g.pit_queue;
      mac_src = g.pit_mac_src;
      mac_dst = g.pit_mac_dst;
      vlan_enabled = g.pit_vlan_enabled;
      vlan = g.pit_vlan;
      priority = g.pit_priority;
      ip_enabled = g.pit_ip_enabled;
      ip_src = default_ip_src;
      ip_dst = g.pit_ip_dst;
      port_src = g.pit_port_src;
      port_dst = g.pit_port_dst;
    } in
    let f : Flow = record m {
      size = g.pit_payload_size;
      priority = g.pit_priority;
      delta = g.pit_delta;
      period = g.pit_period;
      offset_sec = 0;
      offset_nsec = 0;
      net = some net;
      count = 0;
    } in
    (
      f,
      rw (hi, hm) (add_flow-Represents fresh_table [] f fresh_table-Represents (omega arith)),
      record {
        net = net;
        has_net = refl;
        port = refl;
        queue = refl;
        mac_dst = refl;
        vlan_enabled = refl;
        vlan = refl;
        priority = refl;
        ip_dst = refl;
        port_dst = refl;
        size = refl;
        period = refl;
        delta = refl;
        no_seconds = refl;
        no_nanoseconds = refl;
        no_ip_header = kept.ip_enabled;
      },
    )
