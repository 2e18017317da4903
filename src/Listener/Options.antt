-- ===== src/Listener/Options.antt =====
-- What a run of `parser` of src/listener.c returns.
use Prim.Native.String.{String}
use rtgen_dpdk_next.Base.{
  ℕ, ◌≡◌, ◌≢◌, refl, ◌∙◌, inl, inr, Bool, Bool-cases, true, false, ◌||◌, Option, none, some, List,
  [], ◌∷◌, arith, ◌==◌, if◌then◌else◌, All,
}
use rtgen_dpdk_next.Base.Int.{ℤ, pos, negsuc, ◌==ℤ◌}
use rtgen_dpdk_next.Options.{CLib, Globals, Step}
use rtgen_dpdk_next.Listener.{option_step, parser_loop, parser}

-- Some call is 'h' or '?'.
abbrev pub any_refused : List (ℕ × Option String) → Bool
any_refused [] = false
any_refused ((c, v) ∷ calls) = ((c == 104) || (c == 63)) || any_refused calls

-- A port is given with its number.
abbrev pub HasNumber : ℕ × Option String → Type 0
HasNumber (c, v) = c ≡ 105 → v ≢ none

Goes : CLib → ℕ → Option String → Globals → Type 0
Goes l c v g =
    (g' : Globals) × (option_step l c v g
      ≡ some (if (c == 104) || (c == 63) then Step.stop g' else Step.go_on g'))

option_step-none : (l : CLib) (c : ℕ) (g : Globals) → c ≢ 105 → Goes l c none g
unfolding Goes option_step
option_step-none l c g h =
    let g' : Globals = if c == 119 then record g { pit_hw = pos 0 } else g in (g', ground arith)

option_step-some : (l : CLib) (c : ℕ) (t : String) (g : Globals) → Goes l c (some t) g
unfolding Goes option_step
option_step-some l c t g =
    let g' : Globals =
      if c == 105
      then record g { pit_port = l.atoi t }
      else if c == 119
      then record g { pit_hw = pos 0 }
      else g in
    (g', ground arith)

option_step-Goes :
    (l : CLib) (c : ℕ) (v : Option String) (g : Globals) → HasNumber (c, v) → Goes l c v g
option_step-Goes l c none g h = option_step-none l c g (λ e. h e refl)
option_step-Goes l c (some t) g h = option_step-some l c t g

parser_loop-stop :
    (l : CLib) (c : ℕ) (v : Option String) (calls : List (ℕ × Option String)) (g : Globals)
    → Goes l c v g
    → ((c == 104) || (c == 63)) ≡ true
    → (g' : Globals) × (parser_loop l ((c, v) ∷ calls) g ≡ some (negsuc 0, g'))
unfolding parser_loop Goes
parser_loop-stop l c v calls g (g1, e1) e = (g1, rw (e1, e) refl)

parser_loop-go_on :
    (l : CLib) (c : ℕ) (v : Option String) (calls : List (ℕ × Option String)) (g : Globals)
    → Goes l c v g
    → ((c == 104) || (c == 63)) ≡ false
    → (g1 : Globals) × (parser_loop l ((c, v) ∷ calls) g ≡ parser_loop l calls g1)
unfolding parser_loop Goes
parser_loop-go_on l c v calls g (g1, e1) e = (g1, rw (e1, e) refl)

parser_loop-returns :
    (l : CLib) (calls : List (ℕ × Option String)) (g : Globals)
    → All HasNumber calls
    → (g' : Globals) × (parser_loop l calls g
        ≡ some (if any_refused calls then negsuc 0 else pos 0, g'))
unfolding parser_loop
parser_loop-returns l [] g h = (g, refl)
parser_loop-returns l ((c, v) ∷ calls) g h =
    let step = option_step-Goes l c v g h.0 in
    elim (Bool-cases ((c == 104) || (c == 63))) [
      | inl e ↦ let (g1, e1) = parser_loop-stop l c v calls g step e in (g1, rw (e) e1)
      | inr e ↦
          let (g1, e1) = parser_loop-go_on l c v calls g step e in
          let (g2, e2) = parser_loop-returns l calls g1 h.1 in (g2, rw (e) (e1 ∙ e2))
    ]

-- The listener's `parser` depends on what its variable `c` holds before it is set. If that is -1, it
-- returns 0 and sets nothing, whatever the options are; otherwise, each port being given with its
-- number, it never faults and returns -1 exactly if some option is 'h' or '?', and 0 if none is.
pub parser-depends :
    (l : CLib) (c : ℤ) (calls : List (ℕ × Option String)) (g : Globals)
    → (c ==ℤ negsuc 0) ≡ false
    → All HasNumber calls
    → (parser l (negsuc 0) calls g ≡ some (pos 0, g))
      × ((g' : Globals) × (parser l c calls g
            ≡ some (if any_refused calls then negsuc 0 else pos 0, g')))
unfolding parser
parser-depends l c calls g e h =
    let (g', q) = parser_loop-returns l calls g h in (refl, (g', rw (e) q))
