-- ===== src/Options/Command.antt =====
-- What a run of `parser` in src/talker.c returns.
use Prim.Native.String.{String}
use rtgen_dpdk_next.Base.{
  ℕ, ◌≡◌, refl, ap, ap₂, ◌==◌, ◌∙◌, Bool, true, false, ◌||◌, Option, some, none, List, [], ◌∷◌,
  arith, if◌then◌else◌, All, Bool-cases, inl, inr,
}
use rtgen_dpdk_next.Base.Int.{pos, negsuc}
use rtgen_dpdk_next.Options.{
  CLib, Globals, Choice, Step, choice_of, set_offset, option_step, parser, same_text,
}

abbrev pub is_refused : Choice → Bool
is_refused Choice.help = true
is_refused Choice.invalid = true
is_refused _ = false

-- A text that strtok splits in two: there is something before a dot and something behind it.
abbrev pub HasParts : CLib → String → Type 0
HasParts l v = (a : String) × (b : String) × (l.strtok v ≡ (some a, some b))

-- The value of an offset, if one is given, has two parts.
abbrev pub IsSplit : CLib → ℕ × Option String → Type 0
IsSplit l (c, none) = Unit
IsSplit l (c, some v) = choice_of c (some v) ≡ Choice.offset → HasParts l v

either_goes :
    (b : Bool) (x y : Globals)
    → (g' : Globals) × ((if b then some (Step.go_on x) else some (Step.go_on y))
        ≡ some (Step.go_on g'))
either_goes true x y = (x, refl)
either_goes false x y = (y, refl)

Goes : CLib → Choice → Option String → Globals → Type 0
Goes l x v g =
    (g' : Globals) × (option_step l x v g
      ≡ some (if is_refused x then Step.stop g' else Step.go_on g'))

option_step-value :
    (l : CLib) (x : Choice) (v : String) (g : Globals)
    → (x ≡ Choice.offset → HasParts l v)
    → Goes l x (some v) g
unfolding Goes option_step
option_step-value l Choice.port v g h = (_, refl)
option_step-value l Choice.queue v g h = (_, refl)
option_step-value l Choice.mac_dst v g h = (_, refl)
option_step-value l Choice.vlan v g h = either_goes (same_text v "-") _ _
option_step-value l Choice.priority v g h = (_, refl)
option_step-value l Choice.ip_dst v g h = (_, refl)
option_step-value l Choice.port_src v g h = (_, refl)
option_step-value l Choice.port_dst v g h = (_, refl)
option_step-value l Choice.delta v g h = (_, refl)
option_step-value l Choice.period v g h = (_, refl)
option_step-value l Choice.offset v g h =
    let (a, b, e) = h refl in (_, ap (λ p. set_offset l p g) e)
option_step-value l Choice.size v g h = (_, refl)
option_step-value l Choice.runtime v g h = (_, refl)
option_step-value l Choice.multi_flow v g h = (_, refl)
option_step-value l Choice.no_verbose v g h = (_, refl)
option_step-value l Choice.no_loop v g h = (_, refl)
option_step-value l Choice.no_rt v g h = (_, refl)
option_step-value l Choice.no_stamp v g h = (_, refl)
option_step-value l Choice.help v g h = (_, refl)
option_step-value l Choice.invalid v g h = (_, refl)
option_step-value l Choice.other v g h = (_, refl)

-- The options that the switch handles with no value.
abbrev pub has_no_value : Choice → Bool
has_no_value Choice.no_verbose = true
has_no_value Choice.no_loop = true
has_no_value Choice.no_rt = true
has_no_value Choice.no_stamp = true
has_no_value Choice.help = true
has_no_value Choice.invalid = true
has_no_value _ = false

choice_of-none : (c : ℕ) → has_no_value (choice_of c none) ≡ true
unfolding choice_of
choice_of-none c = ground arith

option_step-no_value :
    (l : CLib) (x : Choice) (g : Globals) → has_no_value x ≡ true → Goes l x none g
unfolding Goes option_step
option_step-no_value l Choice.no_verbose g h = (_, refl)
option_step-no_value l Choice.no_loop g h = (_, refl)
option_step-no_value l Choice.no_rt g h = (_, refl)
option_step-no_value l Choice.no_stamp g h = (_, refl)
option_step-no_value l Choice.help g h = (_, refl)
option_step-no_value l Choice.invalid g h = (_, refl)
option_step-no_value l _ g h = absurd (cc)

step-Goes :
    (l : CLib) (c : ℕ) (v : Option String) (g : Globals)
    → IsSplit l (c, v)
    → Goes l (choice_of c v) v g
step-Goes l c none g h = option_step-no_value l (choice_of c none) g (choice_of-none c)
step-Goes l c (some v) g h = option_step-value l (choice_of c (some v)) v g h

-- Some call stops `parser`.
abbrev any_stop : List (ℕ × Option String) → Bool
any_stop [] = false
any_stop ((c, v) ∷ calls) = is_refused (choice_of c v) || any_stop calls

parser-stop :
    (l : CLib) (c : ℕ) (v : Option String) (calls : List (ℕ × Option String)) (g : Globals)
    → Goes l (choice_of c v) v g
    → is_refused (choice_of c v) ≡ true
    → (g' : Globals) × (parser l ((c, v) ∷ calls) g ≡ some (negsuc 0, g'))
unfolding parser Goes
parser-stop l c v calls g (g1, e1) e = (g1, rw (e1, e) refl)

parser-go_on :
    (l : CLib) (c : ℕ) (v : Option String) (calls : List (ℕ × Option String)) (g : Globals)
    → Goes l (choice_of c v) v g
    → is_refused (choice_of c v) ≡ false
    → (g1 : Globals) × (parser l ((c, v) ∷ calls) g ≡ parser l calls g1)
unfolding parser Goes
parser-go_on l c v calls g (g1, e1) e = (g1, rw (e1, e) refl)

parser-stops :
    (l : CLib) (calls : List (ℕ × Option String)) (g : Globals)
    → All (IsSplit l) calls
    → (g' : Globals) × (parser l calls g ≡ some (if any_stop calls then negsuc 0 else pos 0, g'))
unfolding parser
parser-stops l [] g h = (g, refl)
parser-stops l ((c, v) ∷ calls) g h =
    let step = step-Goes l c v g h.0 in
    elim (Bool-cases (is_refused (choice_of c v))) [
      | inl e ↦ let (g1, e1) = parser-stop l c v calls g step e in (g1, rw (e) e1)
      | inr e ↦
          let (g1, e1) = parser-go_on l c v calls g step e in
          let (g2, e2) = parser-stops l calls g1 h.1 in (g2, rw (e) (e1 ∙ e2))
    ]

-- The letters of getopt_long: -a, -v, -s and -w take no value, -h asks for help, and '?' stands for an
-- option that is not known. Every other option needs a value.
abbrev pub is_wrong : ℕ × Option String → Bool
is_wrong (c, some v) = (c == 104) || (c == 63)
is_wrong (c, none) =
    if (c == 97) || (c == 118) then false else if (c == 115) || (c == 119) then false else true

abbrev pub any_wrong : List (ℕ × Option String) → Bool
any_wrong [] = false
any_wrong (call ∷ calls) = is_wrong call || any_wrong calls

is_refused-is_wrong : (c : ℕ) (v : Option String) → is_refused (choice_of c v) ≡ is_wrong (c, v)
unfolding choice_of
is_refused-is_wrong c none = ground arith
is_refused-is_wrong c (some v) = ground arith

any_stop-any_wrong : (calls : List (ℕ × Option String)) → any_stop calls ≡ any_wrong calls
any_stop-any_wrong [] = refl
any_stop-any_wrong ((c, v) ∷ calls) =
    ap₂ (λ a b. a || b) (is_refused-is_wrong c v) (any_stop-any_wrong calls)

-- If every offset has the two parts that strtok looks for, `parser` never faults: it returns -1 if some
-- call asks for help, is not known, or has no value and is not -a, -v, -s or -w, and 0 otherwise.
pub parser-returns :
    (l : CLib) (calls : List (ℕ × Option String)) (g : Globals)
    → All (IsSplit l) calls
    → (g' : Globals) × (parser l calls g ≡ some (if any_wrong calls then negsuc 0 else pos 0, g'))
parser-returns l calls g h =
    let (g', e) = parser-stops l calls g h in
    (g', e ∙ ap (λ b. some (if b then negsuc 0 else pos 0, g')) (any_stop-any_wrong calls))
