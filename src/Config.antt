-- ===== src/Config.antt =====
-- The talker's file of flows: `parse_config_file` of src/talker.c, and how `main` fills the table. What
-- fopen, fgets, sscanf and atoi give is an argument. A NULL pointer that is read
-- through, and a text that is longer than its buffer, are faults, `none`.
pub mod Lines
use Prim.Native.String.{String}
use rtgen_dpdk_next.Base.{
  ℕ, zero, ◌+◌, Bool, true, not, ◌&&◌, Option, none, some, List, [], ◌∷◌, ◌==◌, if◌then◌else◌, ltb,
  ◌>>=◌,
}
use rtgen_dpdk_next.Base.Int.{ℤ, pos, ltb_ℤ}
use rtgen_dpdk_next.Flow.{FlowState, create_interface, create_flow, add_flow}
use rtgen_dpdk_next.Options.{CLib, Mem, Globals, same_text, parse_command_arguments}

abbrev pub default_priority : String
default_priority = "0"

abbrev pub default_port : String
default_port = "12345"

-- The variables that sscanf sets from a line, as `parse_config_file` keeps them from line to line.
pub record Fields : Type 0 where
  pub port : ℤ
  pub queue : ℤ
  pub mac_dst : String
  pub vlan : String
  pub priority : String
  pub ip_dst : String
  pub port_src : String
  pub port_dst : String
  pub delta : ℕ
  pub period : ℕ
  pub offset_sec : ℕ
  pub offset_nsec : ℕ
  pub size : ℤ

-- All that the loop keeps: those variables, `vlan_enabled`, the flows, and how many lines made one.
pub record Reading : Type 0 where
  pub fields : Fields
  pub vlan_enabled : ℤ
  pub state : FlowState
  pub made : ℕ

-- A text up to its first newline; a line is the codes of its characters, with no 0 among them.
abbrev pub strip_newline : List ℕ → List ℕ
strip_newline [] = []
strip_newline (c ∷ l) = if c == 10 then [] else c ∷ strip_newline l

-- An empty line, or one that starts with '#'.
abbrev pub is_skipped : List ℕ → Bool
is_skipped [] = true
is_skipped (c ∷ l) = c == 35

-- What the code takes for `vlan_enabled`: an identifier out of its range leaves the value of the line
-- before.
unfoldable pub vlan_flag : CLib → (text : String) → (before : ℤ) → ℤ
vlan_flag l text before =
    if same_text text "-"
    then pos 0
    else if not (ltb_ℤ (l.atoi text) (pos 0)) && ltb_ℤ (l.atoi text) (pos 4095)
    then pos 1
    else before

abbrev pub or_default : String → (value : String) → String
or_default d v = if same_text v "-" then d else v

-- One line that is not skipped, after sscanf has set `f`.
unfoldable pub config_line : CLib → Mem → (pit_mac_src : String) → Fields → Reading → Reading
config_line l mem mac f0 r =
    let f : Fields = record f0 {
      priority = or_default default_priority f0.priority;
      port_src = or_default default_port f0.port_src;
      port_dst = or_default default_port f0.port_dst;
    } in
    let vlan_on : ℤ = vlan_flag l f.vlan r.vlan_enabled in
    let ip_on : ℤ = if same_text f.ip_dst "-" then pos 0 else pos 1 in
    let config =
      create_interface (mem.new_interface r.made) mac f.port f.queue f.mac_dst vlan_on
        (l.atoi f.vlan) (l.atoi f.priority) ip_on f.ip_dst (l.atoi f.port_src)
        (l.atoi f.port_dst) in
    let flow =
      create_flow (mem.new_flow r.made) f.size (l.atoi f.priority) f.delta f.period f.offset_sec
        f.offset_nsec config in
    record { fields = f; vlan_enabled = vlan_on; state = add_flow r.state flow; made = r.made + 1 }

-- The texts and their ends fit the buffers that sscanf writes them to.
abbrev pub fits_buffers : CLib → Fields → Bool
fits_buffers l f =
    ltb (l.strlen f.mac_dst) 18
    && ltb (l.strlen f.vlan) 6
    && ltb (l.strlen f.priority) 2
    && ltb (l.strlen f.ip_dst) 16
    && ltb (l.strlen f.port_src) 6
    && ltb (l.strlen f.port_dst) 6

unfoldable pub read_line : CLib → Mem → (pit_mac_src : String) → Fields → Reading → Option Reading
read_line l mem mac f r = if fits_buffers l f then some (config_line l mem mac f r) else none

-- The loop over the lines that fgets gives; `scan` is sscanf, which leaves the variables that it finds no
-- text for.
unfoldable pub config_lines :
    CLib
    → Mem
    → (scan : List ℕ → Fields → Fields) (pit_mac_src : String) → List (List ℕ)
    → Reading
    → Option Reading
config_lines l mem scan mac [] r = some r
config_lines l mem scan mac (line ∷ lines) r = do
  r' ←
      if is_skipped (strip_newline line)
      then some r
      else read_line l mem mac (scan (strip_newline line) r.fields) r
  config_lines l mem scan mac lines r'

-- `none` for the file is fopen's NULL, which fgets reads through; `fields` and `vlan_enabled` are what
-- the variables hold before they are set.
unfoldable pub parse_config_file :
    CLib
    → Mem
    → (scan : List ℕ → Fields → Fields) (pit_mac_src : String) (fields : Fields) (vlan_enabled : ℤ)
    → (file : Option (List (List ℕ))) → FlowState
    → Option FlowState
parse_config_file l mem scan mac fields vlan_on none state = none
parse_config_file l mem scan mac fields vlan_on (some lines) state = do
  r ←
      config_lines l mem scan mac lines
        (record { fields = fields; vlan_enabled = vlan_on; state = state; made = 0 })
  some r.state

-- How `main` fills the table of flows.
unfoldable pub load_flows :
    CLib
    → Mem
    → (scan : List ℕ → Fields → Fields) (fields : Fields) (vlan_enabled : ℤ)
    → (open_file : String → Option (List (List ℕ))) → Globals
    → FlowState
    → Option FlowState
load_flows l mem scan fields vlan_on open_file g state = elim g.pit_multi_flow [
  | pos zero ↦ some (parse_command_arguments mem g state)
  | _ ↦
      parse_config_file l mem scan g.pit_mac_src fields vlan_on (open_file g.pit_config_path) state
]
