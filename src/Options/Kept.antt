-- ===== src/Options/Kept.antt =====
-- The globals that `parser` of src/talker.c leaves as they are.
use Prim.Native.String.{String}
use rtgen_dpdk_next.Base.{
  ℕ, ◌≡◌, refl, subst, ◌∙◌, Bool, true, false, Option, some, none, List, [], ◌∷◌, if◌then◌else◌,
}
use rtgen_dpdk_next.Base.Int.{ℤ}
use rtgen_dpdk_next.Options.{
  CLib, Globals, Choice, Step, choice_of, set_offset, option_step, after_step, parser, same_text,
}

-- What no option sets: whether there is an IP header, the source addresses, and the relay.
pub record SameRest (g g' : Globals) : Type 0 where
  pub ip_enabled : g'.pit_ip_enabled ≡ g.pit_ip_enabled
  pub mac_src : g'.pit_mac_src ≡ g.pit_mac_src
  pub ip_src : g'.pit_ip_src ≡ g.pit_ip_src

SameRest-refl : (g : Globals) → SameRest g g
SameRest-refl g = record { ip_enabled = refl; mac_src = refl; ip_src = refl }

SameRest-trans : (a b c : Globals) → SameRest a b → SameRest b c → SameRest a c
SameRest-trans a b c h k = record {
  ip_enabled = k.ip_enabled ∙ h.ip_enabled;
  mac_src = k.mac_src ∙ h.mac_src;
  ip_src = k.ip_src ∙ h.ip_src;
}

abbrev globals_of : Step → Globals
globals_of (Step.go_on g) = g
globals_of (Step.stop g) = g

Keeps : Globals → Option Step → Type 0
Keeps g none = Unit
Keeps g (some s) = SameRest g (globals_of s)

either_Keeps :
    (b : Bool) (g x y : Globals)
    → SameRest g x
    → SameRest g y
    → Keeps g (if b then some (Step.go_on x) else some (Step.go_on y))
unfolding Keeps
either_Keeps true g x y h k = h
either_Keeps false g x y h k = k

set_offset-Keeps :
    (l : CLib) (p : Option String × Option String) (g : Globals) → Keeps g (set_offset l p g)
unfolding Keeps
set_offset-Keeps l (none, b) g = tt
set_offset-Keeps l (some a, none) g = tt
set_offset-Keeps l (some a, some b) g = record { ip_enabled = refl; mac_src = refl; ip_src = refl }

option_step-Keeps :
    (l : CLib) (x : Choice) (v : Option String) (g : Globals) → Keeps g (option_step l x v g)
unfolding Keeps option_step
option_step-Keeps l Choice.port none g = tt
option_step-Keeps l Choice.port (some v) g = record {
  ip_enabled = refl;
  mac_src = refl;
  ip_src = refl;
}
option_step-Keeps l Choice.queue none g = tt
option_step-Keeps l Choice.queue (some v) g = record {
  ip_enabled = refl;
  mac_src = refl;
  ip_src = refl;
}
option_step-Keeps l Choice.mac_dst none g = tt
option_step-Keeps l Choice.mac_dst (some v) g = record {
  ip_enabled = refl;
  mac_src = refl;
  ip_src = refl;
}
option_step-Keeps l Choice.vlan none g = tt
option_step-Keeps l Choice.vlan (some v) g =
    either_Keeps (same_text v "-") g _ _
      (record { ip_enabled = refl; mac_src = refl; ip_src = refl })
      (record { ip_enabled = refl; mac_src = refl; ip_src = refl })
option_step-Keeps l Choice.priority none g = tt
option_step-Keeps l Choice.priority (some v) g = record {
  ip_enabled = refl;
  mac_src = refl;
  ip_src = refl;
}
option_step-Keeps l Choice.ip_dst none g = tt
option_step-Keeps l Choice.ip_dst (some v) g = record {
  ip_enabled = refl;
  mac_src = refl;
  ip_src = refl;
}
option_step-Keeps l Choice.port_src none g = tt
option_step-Keeps l Choice.port_src (some v) g = record {
  ip_enabled = refl;
  mac_src = refl;
  ip_src = refl;
}
option_step-Keeps l Choice.port_dst none g = tt
option_step-Keeps l Choice.port_dst (some v) g = record {
  ip_enabled = refl;
  mac_src = refl;
  ip_src = refl;
}
option_step-Keeps l Choice.delta none g = tt
option_step-Keeps l Choice.delta (some v) g = record {
  ip_enabled = refl;
  mac_src = refl;
  ip_src = refl;
}
option_step-Keeps l Choice.period none g = tt
option_step-Keeps l Choice.period (some v) g = record {
  ip_enabled = refl;
  mac_src = refl;
  ip_src = refl;
}
option_step-Keeps l Choice.offset none g = tt
option_step-Keeps l Choice.offset (some v) g = set_offset-Keeps l (l.strtok v) g
option_step-Keeps l Choice.size none g = tt
option_step-Keeps l Choice.size (some v) g = record {
  ip_enabled = refl;
  mac_src = refl;
  ip_src = refl;
}
option_step-Keeps l Choice.runtime none g = tt
option_step-Keeps l Choice.runtime (some v) g = record {
  ip_enabled = refl;
  mac_src = refl;
  ip_src = refl;
}
option_step-Keeps l Choice.multi_flow none g = tt
option_step-Keeps l Choice.multi_flow (some v) g = record {
  ip_enabled = refl;
  mac_src = refl;
  ip_src = refl;
}
option_step-Keeps l _ v g = record { ip_enabled = refl; mac_src = refl; ip_src = refl }

after_step-SameRest :
    (s : Option Step) (rest : Globals → Option (ℤ × Globals)) (g g' : Globals) (r : ℤ)
    → Keeps g s
    → ((a : Globals) → rest a ≡ some (r, g') → SameRest a g')
    → after_step s rest ≡ some (r, g')
    → SameRest g g'
unfolding Keeps
after_step-SameRest none rest g g' r k later e = absurd (cc)
after_step-SameRest (some (Step.stop a)) rest g g' r k later e =
    let same : a ≡ g' = cc in subst (SameRest g) same k
after_step-SameRest (some (Step.go_on a)) rest g g' r k later e =
    SameRest-trans g a g' k (later a e)

-- Whatever the options are, `parser` leaves three globals as they were: whether packets have an IP
-- header, and the two source addresses.
pub parser-SameRest :
    (l : CLib) (calls : List (ℕ × Option String)) (g g' : Globals) (r : ℤ)
    → parser l calls g ≡ some (r, g')
    → SameRest g g'
unfolding parser
parser-SameRest l [] g g' r e = let same : g ≡ g' = cc in subst (SameRest g) same (SameRest-refl g)
parser-SameRest l ((c, v) ∷ calls) g g' r e =
    after_step-SameRest (option_step l (choice_of c v) v g) (λ a. parser l calls a) g g' r
      (option_step-Keeps l (choice_of c v) v g) (λ a h. parser-SameRest l calls a g' r h) e
