-- ===== src/Tests/OptionsTests.antt =====
-- The options of the talker, and its file of flows.
use Prim.Native.String.{String}
use rtgen_dpdk_next.Base.{
  ℕ, ◌≡◌, Bool, true, false, ◌&&◌, refl, inl, inr, Option, none, some, List, [], ◌∷◌, take,
  if◌then◌else◌, arith,
}
use rtgen_dpdk_next.Base.Int.{pos, negsuc}
use rtgen_dpdk_next.Flow.{FlowState, max_num_flows}
use rtgen_dpdk_next.Flow.Table.{Represents, fresh_table}
use rtgen_dpdk_next.Options.{
  CLib, Mem, Globals, Choice, long_options, choice_of, option_step, parser, initial_globals,
  switch_cases, find_case,
}
use rtgen_dpdk_next.Options.Command.{any_wrong, parser-returns}
use rtgen_dpdk_next.Config.{Fields, parse_config_file}
use rtgen_dpdk_next.Config.Lines.{FitsBuffers, flows_of, parse_config_file-Represents}
use rtgen_dpdk_next.Tests.Data.{net_of, first}

-- A text with a dot is split in two; "-" is read as 0, as atoi does.
abbrev lib : CLib
lib = record { atoi = λ s. pos 7; strtok = λ s. (some "1", some "5"); strlen = λ s. 1 }

abbrev lib_no_dot : CLib
lib_no_dot = record { atoi = λ s. pos 7; strtok = λ s. (some s, none); strlen = λ s. 1 }

abbrev mem : Mem
mem = record { new_interface = λ k. some (net_of 0); new_flow = λ k. some first }

-- `--port=7 --offset=1.5 --no-loop`.
abbrev calls : List (ℕ × Option String)
calls = (105, some "7") ∷ (98, some "1.5") ∷ (118, none) ∷ []

parser-returns_example :
    (g' : Globals) × (parser lib calls initial_globals
      ≡ some (if any_wrong calls then negsuc 0 else pos 0, g'))
parser-returns_example =
    parser-returns lib calls initial_globals
      (λ h. ("1", "5", refl), (λ h. ("1", "5", refl), (tt, tt)))

-- An offset with no dot.
parser_faults : parser lib_no_dot ((98, some "10") ∷ []) initial_globals ≡ none
unfolding parser option_step choice_of
parser_faults = refl

-- Each long option has a case in the switch.
abbrev is_known : Choice → Bool
is_known Choice.other = false
is_known _ = true

abbrev all_known : List (String × ℕ) → Bool
all_known [] = true
all_known ((name, c) ∷ l) = is_known (find_case switch_cases c) && all_known l

long_options_known : all_known long_options ≡ true
long_options_known = refl

abbrev port_7 : Globals
port_7 = record initial_globals { pit_port = pos 7 }

parser_port : parser lib ((105, some "7") ∷ []) initial_globals ≡ some (pos 0, port_7)
unfolding parser option_step choice_of
parser_port = refl

-- What sscanf sets from the second line.
abbrev line_fields : Fields
line_fields = record {
  port = pos 0;
  queue = pos 1;
  mac_dst = "00:00:00:00:00:00";
  vlan = "-";
  priority = "-";
  ip_dst = "-";
  port_src = "-";
  port_dst = "-";
  delta = 300000;
  period = 1000000000;
  offset_sec = 0;
  offset_nsec = 0;
  size = pos 100;
}

abbrev scan : List ℕ → Fields → Fields
scan line f = line_fields

-- A comment, "0", and an empty line.
abbrev lines : List (List ℕ)
lines = (35 ∷ 32 ∷ 10 ∷ []) ∷ (48 ∷ 10 ∷ []) ∷ (10 ∷ []) ∷ []

line-FitsBuffers : FitsBuffers lib line_fields
line-FitsBuffers = record {
  mac_dst = omega arith;
  vlan = omega arith;
  priority = omega arith;
  ip_dst = omega arith;
  port_src = omega arith;
  port_dst = omega arith;
}

parse_config_file-Represents_example :
    (s : FlowState) × (parse_config_file lib mem scan "00" line_fields
        (pos 5)
        (some lines)
        fresh_table
      ≡ some s)
    × Represents s (
        take max_num_flows
          (flows_of lib mem scan "00" line_fields (λ k. net_of 0) (λ k. first) lines 0))
parse_config_file-Represents_example =
    parse_config_file-Represents lib mem scan "00" line_fields (λ k. net_of 0) (λ k. first)
      (λ k. (refl, refl)) lines line_fields (pos 5)
      (inl refl, (inr (λ f. refl, refl, line-FitsBuffers), (inl refl, tt)))
