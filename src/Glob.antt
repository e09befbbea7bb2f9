-- ===== src/Glob.antt =====
-- vfy/gate.py: `_glob` and its helpers `_single`, `_class_end` and `_in_class`.
-- A position in the pattern or the text is kept as the part from that position on, so
-- `position == len(pattern)` is `[]` and `pattern[position]` is the head.
pub mod Matches
pub mod Loop
use mathlib.Core.Option
use mathlib.Core.Bool.{xor}
use verify_run.Base.{
  ℕ, zero, suc, ◌+◌, ◌*◌, Bool, true, false, ◌&&◌, ◌||◌, Option, none, some, [], ◌∷◌, ◌++◌, Text,
  length, ◌==◌, leb, if◌then◌else◌,
}

-- `if index < len(pattern) and pattern[index] == marker: index += 1`: what is passed over, and
-- what is left.
step_over : ℕ → Text → Text × Text
step_over marker [] = ([], [])
step_over marker (c ∷ p) = if c == marker then (c ∷ [], p) else ([], c ∷ p)

-- The last loop of `_class_end`: what stands before the next `]`, and what stands behind it.
until_close : Text → Option (Text × Text)
until_close [] = none
until_close (c ∷ p) =
    if c == b']'
    then some ([], p)
    else Option.map (λ (body, rest). (c ∷ body, rest)) (until_close p)

-- `_class_end`, from behind the `[`: the body of the class, `pattern[position + 1:end]`, and the
-- pattern from `end + 1` on.
class_end : Text → Option (Text × Text)
unfolding step_over until_close
class_end p =
    let (bang, q) = step_over b'!' p in
    let (bracket, r) = step_over b']' q in
    Option.map (λ (body, rest). (bang ++ (bracket ++ body), rest)) (until_close r)

-- The loop of `_in_class`, with its `matched`.
class_loop : Text → ℕ → Bool → Bool
class_loop [] c matched = matched
class_loop (lo ∷ dash ∷ hi ∷ rest) c matched =
    let range = class_loop rest c (matched || (leb lo c && leb c hi)) in
    let one = class_loop (dash ∷ hi ∷ rest) c (matched || (lo == c)) in
    if dash == b'-' then range else one
class_loop (x ∷ rest) c matched = class_loop rest c (matched || (x == c))

in_class : Text → ℕ → Bool
unfolding step_over class_loop xor
in_class body c =
    let (bang, members) = step_over b'!' body in xor (class_loop members c false) (length bang == 1)

-- `_single`; `none` also where the caller's test `position < len(pattern)` fails.
pub single : Text → ℕ → Option Text
single [] c = none
single (marker ∷ p) c =
    if marker == b'*'
    then none
    else if marker == b'?'
    then some p
    else if marker == b'['
    then elim (class_end p) [
      | none ↦ if c == b'[' then some p else none
      | some (body, rest) ↦ if in_class body c then some rest else none
    ]
    else if c == marker
    then some p
    else none

-- The last `while` of `_glob` and its `return`.
pub only_stars : Text → Bool
only_stars [] = true
only_stars (c ∷ p) = (c == b'*') && only_stars p

-- `star` and `resume`, where `star` is not -1: the pattern from `star + 1` on and the text from
-- `resume` on.
abbrev Saved : Type 0
Saved = Option (Text × Text)

-- "Give the most recent `*` one more character and retry everything after it."
retry : Saved → (Text → Text → Saved → Option Bool) → Option Bool
retry none next = some false
retry (some (star, [])) next = some false
retry (some (star, r ∷ resume)) next = next star resume (some (star, resume))

-- The main loop of `_glob`, on fuel; `none` if it runs out.
glob_loop : ℕ → Text → Text → Saved → Option Bool
glob_loop zero position consumed saved = none
glob_loop (suc fuel) position [] saved = some (only_stars position)
glob_loop (suc fuel) position (c ∷ consumed) saved = elim (single position c) [
  | some step ↦ glob_loop fuel step consumed saved
  | none ↦ elim position [
    | [] ↦ retry saved (glob_loop fuel)
    | marker ∷ p ↦ elim (marker == b'*') [
      | true ↦ glob_loop fuel p (c ∷ consumed) (some (p, c ∷ consumed))
      | false ↦ retry saved (glob_loop fuel)
    ]
  ]
]

abbrev glob_fuel : Text → Text → ℕ
glob_fuel pattern text = (length text + 1) * (length pattern + 1)

unfoldable pub glob_run : Text → Text → Option Bool
unfolding single class_end in_class only_stars retry glob_loop
glob_run pattern text = glob_loop (glob_fuel pattern text) pattern text none

abbrev pub answer : Option Bool → Bool
answer (some b) = b
answer none = false

-- `_glob`. `Glob.Loop` shows that the fuel never runs out.
unfoldable pub glob : Text → Text → Bool
glob pattern text = answer (glob_run pattern text)
