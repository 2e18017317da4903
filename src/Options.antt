-- ===== src/Options.antt =====
-- The options of the talker: `parser` and `parse_command_arguments` of src/talker.c, the globals of
-- src/flow.c that they set, and the defaults of src/flow.h. What getopt_long, atoi and strtok give is an
-- argument. A NULL pointer that is read through is a fault, `none`.
pub mod Command
pub mod Kept
pub mod Single
use Prim.Native.Nat.{Ordering}
use Prim.Native.String.{String}
use Prim.Native.String as Str
use rtgen_dpdk_next.Base.{
  ℕ, Bool, true, false, ◌||◌, Option, none, some, List, [], ◌∷◌, ◌==◌, if◌then◌else◌,
}
use rtgen_dpdk_next.Base.Int.{ℤ, pos, negsuc}
use rtgen_dpdk_next.Flow.{InterfaceConfig, Flow, FlowState, create_interface, create_flow, add_flow}
use rtgen_dpdk_next.Packet.{to_size}

abbrev pub default_mac : String
default_mac = "00:00:00:00:00:00"

abbrev pub default_ip_dst : String
default_ip_dst = ""

abbrev pub default_config_path : String
default_config_path = "../config/flow_config.txt"

pub record Globals : Type 0 where
  pub pit_port : ℤ
  pub pit_queue : ℤ
  pub pit_mac_src : String
  pub pit_mac_dst : String
  pub pit_vlan_enabled : ℤ
  pub pit_vlan : ℤ
  pub pit_priority : ℤ
  pub pit_ip_enabled : ℤ
  pub pit_ip_src : String
  pub pit_ip_dst : String
  pub pit_port_src : ℤ
  pub pit_port_dst : ℤ
  pub pit_delta : ℕ
  pub pit_period : ℕ
  pub pit_offset : ℕ
  pub pit_ns_offset : ℕ
  pub pit_payload_size : ℤ
  pub pit_etf : ℤ
  pub pit_hw : ℤ
  pub pit_verbose : ℤ
  pub pit_loopback : ℤ
  pub pit_relay : ℤ
  pub pit_multi_flow : ℤ
  pub pit_runtime : ℕ
  pub pit_config_path : String

abbrev pub initial_globals : Globals
initial_globals = record {
  pit_port = pos 0;
  pit_queue = pos 0;
  pit_mac_src = default_mac;
  pit_mac_dst = default_mac;
  pit_vlan_enabled = pos 0;
  pit_vlan = pos 0;
  pit_priority = pos 0;
  pit_ip_enabled = pos 0;
  pit_ip_src = "192.168.0.96";
  pit_ip_dst = default_ip_dst;
  pit_port_src = pos 12345;
  pit_port_dst = pos 12345;
  pit_delta = 1000000;
  pit_period = 1000000000;
  pit_offset = 0;
  pit_ns_offset = 0;
  pit_payload_size = pos 256;
  pit_etf = pos 1;
  pit_hw = pos 1;
  pit_verbose = pos 1;
  pit_loopback = pos 1;
  pit_relay = pos 1;
  pit_multi_flow = pos 0;
  pit_runtime = 9999999999;
  pit_config_path = default_config_path;
}

-- What the code takes from the C library: `strtok` with ".", called on a text and then once more.
pub record CLib : Type 0 where
  pub atoi : String → ℤ
  pub strtok : String → Option String × Option String
  pub strlen : String → ℕ

-- What getopt_long returns, by the cases of the switch; `invalid` is '?', and `other` any result with no
-- case. The end of the options, -1, is the end of the list of calls.
pub data Choice : Type 0 where
  port : Choice
  queue : Choice
  mac_dst : Choice
  vlan : Choice
  priority : Choice
  ip_dst : Choice
  port_src : Choice
  port_dst : Choice
  delta : Choice
  period : Choice
  offset : Choice
  size : Choice
  runtime : Choice
  multi_flow : Choice
  no_verbose : Choice
  no_loop : Choice
  no_rt : Choice
  no_stamp : Choice
  help : Choice
  invalid : Choice
  other : Choice

-- The cases of the switch.
abbrev pub switch_cases : List (ℕ × Choice)
switch_cases =
    (105, Choice.port)
    ∷ (113, Choice.queue)
    ∷ (256, Choice.mac_dst)
    ∷ (257, Choice.vlan)
    ∷ (107, Choice.priority)
    ∷ (100, Choice.ip_dst)
    ∷ (258, Choice.port_src)
    ∷ (112, Choice.port_dst)
    ∷ (111, Choice.delta)
    ∷ (116, Choice.period)
    ∷ (98, Choice.offset)
    ∷ (108, Choice.size)
    ∷ (110, Choice.runtime)
    ∷ (109, Choice.multi_flow)
    ∷ (97, Choice.no_verbose)
    ∷ (118, Choice.no_loop)
    ∷ (115, Choice.no_rt)
    ∷ (119, Choice.no_stamp)
    ∷ (104, Choice.help)
    ∷ (63, Choice.invalid)
    ∷ []

abbrev pub find_case : List (ℕ × Choice) → ℕ → Choice
find_case [] c = Choice.other
find_case ((a, x) ∷ l) c = if a == c then x else find_case l c

-- The test behind the call of getopt_long: every option but 'a', 'v', 's', 'w' and 'h' needs a value.
unfoldable pub choice_of : ℕ → (optarg : Option String) → Choice
choice_of c none =
    if (c == 97) || (c == 118) || (c == 115) || (c == 119) || (c == 104)
    then find_case switch_cases c
    else Choice.invalid
choice_of c (some v) = find_case switch_cases c

-- The table of long options, with the results that stand for them.
abbrev pub long_options : List (String × ℕ)
long_options =
    ("port", 105)
    ∷ ("queue", 113)
    ∷ ("mac-dst", 256)
    ∷ ("vlan", 257)
    ∷ ("priority", 107)
    ∷ ("ip-dst", 100)
    ∷ ("port-src", 258)
    ∷ ("port-dst", 112)
    ∷ ("delta", 111)
    ∷ ("period", 116)
    ∷ ("offset", 98)
    ∷ ("size", 108)
    ∷ ("runtime", 110)
    ∷ ("multi-flow", 109)
    ∷ ("no-verbose", 97)
    ∷ ("no-loop", 118)
    ∷ ("no-rt", 115)
    ∷ ("no-stamp", 119)
    ∷ ("help", 104)
    ∷ []

-- `strcmp (s, t) == 0`.
abbrev pub same_text : String → String → Bool
same_text s t = elim (Str.compare s t) [ Ordering.eq ↦ true | _ ↦ false ]

-- After one case: the loop goes on, or `parser` returns -1.
pub data Step : Type 0 where
  go_on : Globals → Step
  stop : Globals → Step

-- `strtok` gives NULL where there is no part, and atoi reads through it.
abbrev pub set_offset : CLib → Option String × Option String → Globals → Option Step
set_offset l (none, b) g = none
set_offset l (some a, none) g = none
set_offset l (some a, some b) g =
    some (
      Step.go_on (record g { pit_offset = to_size (l.atoi a); pit_ns_offset = to_size (l.atoi b) }))

unfoldable pub option_step : CLib → Choice → (optarg : Option String) → Globals → Option Step
option_step l Choice.no_verbose v g = some (Step.go_on (record g { pit_verbose = pos 0 }))
option_step l Choice.no_loop v g = some (Step.go_on (record g { pit_loopback = pos 0 }))
option_step l Choice.no_rt v g = some (Step.go_on (record g { pit_etf = pos 0 }))
option_step l Choice.no_stamp v g = some (Step.go_on (record g { pit_hw = pos 0 }))
option_step l Choice.help v g = some (Step.stop g)
option_step l Choice.invalid v g = some (Step.stop g)
option_step l Choice.other v g = some (Step.go_on g)
option_step l _ none g = none
option_step l Choice.port (some v) g = some (Step.go_on (record g { pit_port = l.atoi v }))
option_step l Choice.queue (some v) g = some (Step.go_on (record g { pit_queue = l.atoi v }))
option_step l Choice.mac_dst (some v) g = some (Step.go_on (record g { pit_mac_dst = v }))
option_step l Choice.vlan (some v) g =
    if same_text v "-"
    then some (Step.go_on (record g { pit_vlan_enabled = pos 0 }))
    else some (Step.go_on (record g { pit_vlan_enabled = pos 1; pit_vlan = l.atoi v }))
option_step l Choice.priority (some v) g = some (Step.go_on (record g { pit_priority = l.atoi v }))
option_step l Choice.ip_dst (some v) g = some (Step.go_on (record g { pit_ip_dst = v }))
option_step l Choice.port_src (some v) g = some (Step.go_on (record g { pit_port_src = l.atoi v }))
option_step l Choice.port_dst (some v) g = some (Step.go_on (record g { pit_port_dst = l.atoi v }))
option_step l Choice.delta (some v) g =
    some (Step.go_on (record g { pit_delta = to_size (l.atoi v) }))
option_step l Choice.period (some v) g =
    some (Step.go_on (record g { pit_period = to_size (l.atoi v) }))
option_step l Choice.offset (some v) g = set_offset l (l.strtok v) g
option_step l Choice.size (some v) g = some (Step.go_on (record g { pit_payload_size = l.atoi v }))
option_step l Choice.runtime (some v) g =
    some (Step.go_on (record g { pit_runtime = to_size (l.atoi v) }))
option_step l Choice.multi_flow (some v) g = some (
    Step.go_on (record g {
      pit_multi_flow = pos 1;
      pit_config_path = if same_text v "" then g.pit_config_path else v;
    }))

-- What the loop of `parser` does after a case, where `rest` is its further run.
abbrev pub after_step : Option Step → (rest : Globals → Option (ℤ × Globals)) → Option (ℤ × Globals)
after_step none rest = none
after_step (some (Step.stop g)) rest = some (negsuc 0, g)
after_step (some (Step.go_on g)) rest = rest g

-- What `parser` returns and leaves in the globals, for the results of getopt_long before its -1.
unfoldable pub parser : CLib → (calls : List (ℕ × Option String)) → Globals → Option (ℤ × Globals)
parser l [] g = some (pos 0, g)
parser l ((c, v) ∷ calls) g =
    after_step (option_step l (choice_of c v) v g) (λ g'. parser l calls g')

-- What malloc returns for the interface and the flow, by the number of the flow.
pub record Mem : Type 0 where
  pub new_interface : ℕ → Option InterfaceConfig
  pub new_flow : ℕ → Option Flow

unfoldable pub parse_command_arguments : Mem → Globals → FlowState → FlowState
parse_command_arguments mem g state =
    let config =
      create_interface (mem.new_interface 0) g.pit_mac_src g.pit_port g.pit_queue g.pit_mac_dst
        g.pit_vlan_enabled g.pit_vlan g.pit_priority g.pit_ip_enabled g.pit_ip_dst g.pit_port_src
        g.pit_port_dst in
    let flow =
      create_flow (mem.new_flow 0) g.pit_payload_size g.pit_priority g.pit_delta g.pit_period 0 0
        config in
    add_flow state flow
