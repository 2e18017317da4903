-- ===== src/Config/Lines.antt =====
-- The flows of a file: a line that is neither empty nor a comment stands for one flow.
use Prim.Native.String.{String}
use rtgen_dpdk_next.Base.{
  ℕ, ◌+◌, ◌<◌, lt→ltb, ◌==◌, Bool-cases, Option, ◌>>=◌, ◌≡◌, ◌⊎◌, inl, inr, refl, ap, ◌∙◌, Bool,
  true, false, not, ◌&&◌, ◌||◌, some, List, [], ◌∷◌, if◌then◌else◌, All, take,
}
use rtgen_dpdk_next.Base.Int.{ℤ, pos, ltb_ℤ}
use rtgen_dpdk_next.Flow.{
  InterfaceConfig, Flow, FlowState, create_interface, create_flow, add_flow, max_num_flows,
  default_ip_src,
}
use rtgen_dpdk_next.Flow.Table.{
  Represents, add_flows, fresh_table, fresh_table-Represents, add_flows-Represents,
}
use rtgen_dpdk_next.Options.{CLib, Mem, same_text}
use rtgen_dpdk_next.Config.{
  Fields, Reading, strip_newline, is_skipped, vlan_flag, fits_buffers, read_line, config_line,
  config_lines, parse_config_file,
}

-- No VLAN, or an identifier that the code takes: from 0, and less than 4095.
abbrev pub is_vlan : CLib → String → Bool
is_vlan l text =
    same_text text "-" || (not (ltb_ℤ (l.atoi text) (pos 0)) && ltb_ℤ (l.atoi text) (pos 4095))

-- A line up to its end.
abbrev pub text_of : List ℕ → List ℕ
text_of [] = []
text_of (c ∷ l) = if c == 10 then [] else c ∷ text_of l

-- A text that is neither empty nor a comment, which '#' begins.
abbrev pub has_flow : List ℕ → Bool
has_flow [] = false
has_flow (c ∷ l) = not (c == 35)

-- The texts, with the zero behind them, have room in the buffers of the code.
pub record FitsBuffers (l : CLib) (f : Fields) : Type 0 where
  pub mac_dst : l.strlen f.mac_dst < 18
  pub vlan : l.strlen f.vlan < 6
  pub priority : l.strlen f.priority < 2
  pub ip_dst : l.strlen f.ip_dst < 16
  pub port_src : l.strlen f.port_src < 6
  pub port_dst : l.strlen f.port_dst < 6

strip_newline-text_of : (line : List ℕ) → strip_newline line ≡ text_of line
strip_newline-text_of [] = refl
strip_newline-text_of (c ∷ line) =
    ap (λ l. if c == 10 then [] else c ∷ l) (strip_newline-text_of line)

is_skipped-has_flow : (text : List ℕ) → is_skipped text ≡ not (has_flow text)
is_skipped-has_flow [] = refl
is_skipped-has_flow (c ∷ text) = elim (Bool-cases (c == 35)) [
  | inl e ↦ rw e refl
  | inr e ↦ rw e refl
]

-- The flow of a line, malloc's memory being `i` and `m`: "-" stands for no VLAN, no IP header, and the
-- default priority and ports.
abbrev pub flow_of_line : CLib → (mac : String) → InterfaceConfig → Flow → Fields → Flow
flow_of_line l mac i m f =
    let net : InterfaceConfig = record i {
      port = f.port;
      queue = f.queue;
      mac_src = mac;
      mac_dst = f.mac_dst;
      vlan_enabled = if same_text f.vlan "-" then pos 0 else pos 1;
      vlan = l.atoi f.vlan;
      priority = l.atoi (if same_text f.priority "-" then "0" else f.priority);
      ip_enabled = if same_text f.ip_dst "-" then pos 0 else pos 1;
      ip_src = default_ip_src;
      ip_dst = f.ip_dst;
      port_src = l.atoi (if same_text f.port_src "-" then "12345" else f.port_src);
      port_dst = l.atoi (if same_text f.port_dst "-" then "12345" else f.port_dst);
    } in
    record m {
      size = f.size;
      priority = l.atoi (if same_text f.priority "-" then "0" else f.priority);
      delta = f.delta;
      period = f.period;
      offset_sec = f.offset_sec;
      offset_nsec = f.offset_nsec;
      net = some net;
      count = 0;
    }

vlan_flag-is_vlan :
    (l : CLib) (text : String) (before : ℤ)
    → is_vlan l text ≡ true
    → vlan_flag l text before ≡ (if same_text text "-" then pos 0 else pos 1)
unfolding vlan_flag
vlan_flag-is_vlan l text before h =
    go (same_text text "-") (not (ltb_ℤ (l.atoi text) (pos 0)) && ltb_ℤ (l.atoi text) (pos 4095)) h
  where
    go :
        (a b : Bool)
        → (a || b) ≡ true
        → (if a then pos 0 else if b then pos 1 else before) ≡ (if a then pos 0 else pos 1)
    go true b h = refl
    go false true h = refl
    go false false h = absurd (cc)

module _ (l : CLib) (mem : Mem) (scan : List ℕ → Fields → Fields) (mac : String) (blank : Fields)
    (interface_at : ℕ → InterfaceConfig) (flow_at : ℕ → Flow) where
  -- The flows of the lines, the first one being number `k` to be made.
  abbrev pub flows_of : List (List ℕ) → ℕ → List Flow
  flows_of [] k = []
  flows_of (line ∷ lines) k =
      if has_flow (text_of line)
      then flow_of_line l mac (interface_at k) (flow_at k) (scan (text_of line) blank)
        ∷ flows_of lines (k + 1)
      else flows_of lines k

  abbrev made_flows : List (List ℕ) → ℕ → List Flow
  made_flows [] k = []
  made_flows (line ∷ lines) k =
      if is_skipped (strip_newline line)
      then made_flows lines k
      else flow_of_line l mac (interface_at k) (flow_at k) (scan (strip_newline line) blank)
        ∷ made_flows lines (k + 1)

  -- A line with no flow, or one that has a text for all the variables, which fits its buffer, and a VLAN
  -- that the code takes.
  abbrev pub IsGood : List ℕ → Type 0
  IsGood line =
      (has_flow (text_of line) ≡ false)
      ⊎ (((f : Fields) → scan (text_of line) f ≡ scan (text_of line) blank)
          × (is_vlan l (scan (text_of line) blank).vlan ≡ true)
          × FitsBuffers l (scan (text_of line) blank))

  -- The same, as the code tests it.
  abbrev IsTaken : List ℕ → Type 0
  IsTaken line =
      (is_skipped (strip_newline line) ≡ true)
      ⊎ (((f : Fields) → scan (strip_newline line) f ≡ scan (strip_newline line) blank)
          × (is_vlan l (scan (strip_newline line) blank).vlan ≡ true)
          × (fits_buffers l (scan (strip_newline line) blank) ≡ true))

  -- malloc gives memory.
  abbrev pub HasMemory : Type 0
  HasMemory =
      (k : ℕ) → (mem.new_interface k ≡ some (interface_at k)) × (mem.new_flow k ≡ some (flow_at k))

  config_line-state :
      HasMemory
      → (f : Fields) (r : Reading) → is_vlan l f.vlan ≡ true
      → (config_line l mem mac f r).state
        ≡ add_flow r.state (some (flow_of_line l mac (interface_at r.made) (flow_at r.made) f))
  unfolding config_line create_interface create_flow
  config_line-state has f r h =
      rw ((has r.made).0, (has r.made).1, vlan_flag-is_vlan l f.vlan r.vlan_enabled h) refl

  config_line-made : (f : Fields) (r : Reading) → (config_line l mem mac f r).made ≡ r.made + 1
  unfolding config_line
  config_line-made f r = refl

  -- What the loop leaves of the table.
  abbrev table_after : Option Reading → Option FlowState
  table_after o = do r ← o; some r.state

  -- The loop, with the test of its first line taken out.
  after_line : Bool → List ℕ → List (List ℕ) → Reading → Option Reading
  after_line b line lines r = do
    r' ← if b then some r else read_line l mem mac (scan (strip_newline line) r.fields) r
    config_lines l mem scan mac lines r'

  with_line : Bool → List ℕ → List (List ℕ) → ℕ → List Flow
  with_line b line lines k =
      if b
      then made_flows lines k
      else flow_of_line l mac (interface_at k) (flow_at k) (scan (strip_newline line) blank)
        ∷ made_flows lines (k + 1)

  after_line-add_flows :
      HasMemory
      → (b : Bool) (line : List ℕ) (lines : List (List ℕ)) (r : Reading)
      → is_skipped (strip_newline line) ≡ b
      → IsTaken line
      → ((r' : Reading)
          → table_after (config_lines l mem scan mac lines r')
            ≡ some (add_flows r'.state (made_flows lines r'.made)))
      → table_after (after_line b line lines r)
        ≡ some (add_flows r.state (with_line b line lines r.made))
  unfolding after_line with_line read_line
  after_line-add_flows has true line lines r e h rest = rest r
  after_line-add_flows has false line lines r e (inl skip) rest = absurd (cc)
  after_line-add_flows has false line lines r e (inr (total, ok, fit)) rest =
      let f : Fields = scan (strip_newline line) blank in
      let r' : Reading = config_line l mem mac f r in
      rw (total r.fields, fit) (rest r')
      ∙ ap (λ s. some (add_flows s (made_flows lines r'.made))) (config_line-state has f r ok)
      ∙ ap
          (λ k. some (
            add_flows
              (add_flow r.state
                (some (flow_of_line l mac (interface_at r.made) (flow_at r.made) f)))
              (made_flows lines k)))
          (config_line-made f r)

  config_lines-add_flows :
      HasMemory
      → (lines : List (List ℕ)) (r : Reading) → All IsTaken lines
      → table_after (config_lines l mem scan mac lines r)
        ≡ some (add_flows r.state (made_flows lines r.made))
  unfolding config_lines after_line with_line
  config_lines-add_flows has [] r h = refl
  config_lines-add_flows has (line ∷ lines) r h =
      after_line-add_flows has (is_skipped (strip_newline line)) line lines r refl h.0
        (λ r'. config_lines-add_flows has lines r' h.1)

  flows_of-made_flows : (lines : List (List ℕ)) (k : ℕ) → made_flows lines k ≡ flows_of lines k
  flows_of-made_flows [] k = refl
  flows_of-made_flows (line ∷ lines) k =
      rw (strip_newline-text_of line, is_skipped-has_flow (text_of line))
        (elim (Bool-cases (has_flow (text_of line))) [
          | inl e ↦ rw e (
              ap
                (λ fs.
                  flow_of_line l mac (interface_at k) (flow_at k) (scan (text_of line) blank) ∷ fs)
                (flows_of-made_flows lines (k + 1)))
          | inr e ↦ rw e (flows_of-made_flows lines k)
        ])

  IsGood-IsTaken : (lines : List (List ℕ)) → All IsGood lines → All IsTaken lines
  IsGood-IsTaken [] h = tt
  IsGood-IsTaken (line ∷ lines) h = (
    rw (strip_newline-text_of line, is_skipped-has_flow (text_of line)) (taken line h.0),
    IsGood-IsTaken lines h.1,
  )
    where
      taken :
          (line : List ℕ)
          → IsGood line
          → (not (has_flow (text_of line)) ≡ true)
            ⊎ (((f : Fields) → scan (text_of line) f ≡ scan (text_of line) blank)
                × (is_vlan l (scan (text_of line) blank).vlan ≡ true)
                × (fits_buffers l (scan (text_of line) blank) ≡ true))
      taken line (inl none') = inl (rw none' refl)
      taken line (inr (total, ok, fit)) = inr (
        total,
        ok,
        rw
            (
              lt→ltb _ _ fit.mac_dst,
              lt→ltb _ _ fit.vlan,
              lt→ltb _ _ fit.priority,
              lt→ltb _ _ fit.ip_dst,
              lt→ltb _ _ fit.port_src,
              lt→ltb _ _ fit.port_dst,
            )
            refl,
      )

  -- Let each line of the file be empty or a comment, or have a text for all the variables, which fits its
  -- buffer, and a VLAN that is "-" or a number from 0 to 4094, and let malloc give memory. Then the file
  -- fills a new table with the flows of its lines, in order, the first 128 of them, with "0" as the
  -- priority and "12345" as the ports where these are "-", whatever the variables held before.
  pub parse_config_file-Represents :
      HasMemory
      → (lines : List (List ℕ)) (fields : Fields) (vlan_enabled : ℤ) → All IsGood lines
      → (s : FlowState) × (parse_config_file l mem scan mac fields vlan_enabled
            (some lines)
            fresh_table
          ≡ some s)
        × Represents s (take max_num_flows (flows_of lines 0))
  unfolding parse_config_file
  parse_config_file-Represents has lines fields on h =
      let r : Reading = record {
        fields = fields;
        vlan_enabled = on;
        state = fresh_table;
        made = 0;
      } in
      (
        add_flows fresh_table (flows_of lines 0),
        config_lines-add_flows has lines r (IsGood-IsTaken lines h)
            ∙ ap (λ fs. some (add_flows fresh_table fs)) (flows_of-made_flows lines 0),
        add_flows-Represents fresh_table [] (flows_of lines 0) fresh_table-Represents,
      )
