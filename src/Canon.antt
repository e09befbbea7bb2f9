-- ===== src/Canon.antt =====
-- vfy/canon.py: the canonical text of a value, written with an explicit stack of frames. Only the
-- values that JSON carries occur: a float or any other Python object is refused before it becomes one.
pub mod Render
pub mod Sorted
pub mod Stack
pub mod Encodable
use verify_run.Base.{
  ℕ, zero, suc, ◌+◌, ◌/◌, ◌%◌, Bool, true, false, ◌&&◌, ◌||◌, Option, none, some, List, [], ◌∷◌,
  ◌++◌, Text, codes, text_lt, ltb, leb, ◌==◌, if◌then◌else◌,
}
use verify_run.Base.Digits.{to_digits}
use verify_run.Base.Int.{ℤ, pos, negsuc, ltb_ℤ}
use verify_run.Value.{Value, null, bool, int, str, list, dict, Items, nil, cons, Fields, end, field}

pub data Refusal : Type 0 where
  canonical_form_invalid surrogate_not_permitted : Refusal

-- Text, or the exception raised.
pub data Written : Type 0 where
  text : Text → Written
  refused : Refusal → Written

-- MAX_SAFE_INTEGER and MIN_SAFE_INTEGER
abbrev pub max_safe_integer : ℤ
max_safe_integer = pos 9007199254740991

abbrev pub min_safe_integer : ℤ
min_safe_integer = negsuc 9007199254740990

-- `str(value)`
abbrev decimal : ℤ → Text
decimal (pos n) = to_digits n
decimal (negsuc n) = b'-' ∷ to_digits (suc n)

-- `_integer_text`
unfoldable pub integer_text : ℤ → Written
integer_text z =
    if ltb_ℤ z min_safe_integer || ltb_ℤ max_safe_integer z
    then refused canonical_form_invalid
    else text (decimal z)

-- `_NAMED_ESCAPES`
abbrev named_escape : ℕ → Option ℕ
named_escape c =
    if c == 34
    then some 34
    else if c == 92
    then some 92
    else if c == 8
    then some b'b'
    else if c == 9
    then some b't'
    else if c == 10
    then some b'n'
    else if c == 12
    then some b'f'
    else if c == 13
    then some b'r'
    else none

abbrev hex_digit : ℕ → ℕ
hex_digit n = if ltb n 10 then b'0' + n else 87 + n

-- `"\\u%04x" % c`, for a control character.
abbrev pub control_escape : ℕ → Text
control_escape c = 92 ∷ b'u' ∷ b'0' ∷ b'0' ∷ hex_digit (c / 16) ∷ hex_digit (c % 16) ∷ []

-- What UTF-8 does not encode.
abbrev pub is_surrogate : ℕ → Bool
is_surrogate c = leb 55296 c && leb c 57343

-- One character of `_string_text`.
abbrev character_text : Option ℕ → ℕ → Written
character_text (some e) c = text (92 ∷ e ∷ [])
character_text none c =
    if ltb c 32
    then text (control_escape c)
    else if leb 55296 c && leb c 57343
    then refused surrogate_not_permitted
    else text (c ∷ [])

-- One piece of output behind another; the first refusal counts.
abbrev pub before : Text → Written → Written
before s (text t) = text (s ++ t)
before s (refused e) = refused e

infixr 45 ◌then◌
abbrev pub ◌then◌ : Written → Written → Written
(text s) then w = before s w
(refused e) then w = refused e

string_pieces : Text → Written
string_pieces [] = text (34 ∷ [])
string_pieces (c ∷ s) = character_text (named_escape c) c then string_pieces s

-- `_string_text`
unfoldable pub string_text : Text → Written
unfolding string_pieces
string_text s = before (34 ∷ []) (string_pieces s)

-- The frames of the stack: _TEXT, _VALUE and _KEY.
pub data Frame : Type 0 where
  written : Text → Frame
  pending : Value → Frame
  key : Text → Frame

abbrev pub separator : ℕ → List Frame
separator zero = []
separator (suc index) = written (codes ",") ∷ []

-- The loop of `_array_frames`.
abbrev pub element_frames : ℕ → Items → List Frame
element_frames index nil = []
element_frames index (cons x xs) = separator index ++ pending x ∷ element_frames (suc index) xs

abbrev pub array_frames : Items → List Frame
array_frames xs = written (codes "[") ∷ (element_frames 0 xs ++ written (codes "]") ∷ [])

-- The members of a mapping. Its keys are distinct.
abbrev pub members : Fields → List (Text × Value)
members end = []
members (field k v rest) = (k, v) ∷ members rest

-- `sorted`, on the keys.
unfoldable pub insert {ℓ} : {A : Type ℓ} → Text × A → List (Text × A) → List (Text × A)
insert m [] = m ∷ []
insert m (x ∷ xs) = elim (text_lt x.0 m.0) [ true ↦ x ∷ insert m xs | false ↦ m ∷ x ∷ xs ]

unfoldable pub sort {ℓ} : {A : Type ℓ} → List (Text × A) → List (Text × A)
unfolding insert
sort [] = []
sort (m ∷ ms) = insert m (sort ms)

-- The loop of `_object_frames`.
abbrev pub member_frames : ℕ → List (Text × Value) → List Frame
member_frames index [] = []
member_frames index (m ∷ ms) =
    separator index ++ key m.0 ∷ pending m.1 ∷ member_frames (suc index) ms

unfoldable pub object_frames : Fields → List Frame
unfolding sort
object_frames f =
    written (codes "{") ∷ (member_frames 0 (sort (members f)) ++ written (codes "}") ∷ [])

abbrev pub bool_text : Bool → Text
bool_text true = codes "true"
bool_text false = codes "false"

-- What the loop does once a piece is written: go on, or raise.
abbrev pub resume : Written → (Text → Option Written) → Option Written
resume (text t) go = go t
resume (refused e) go = some (refused e)

-- The loop of `canonicalize`, on the frames still to be popped and the text so far; `none` where
-- the fuel runs out.
unfoldable pub run : ℕ → List Frame → Text → Option Written
unfolding integer_text string_text object_frames
run fuel [] out = some (text out)
run zero (f ∷ stack) out = none
run (suc fuel) (written s ∷ stack) out = run fuel stack (out ++ s)
run (suc fuel) (key k ∷ stack) out =
    resume (string_text k then text (codes ":")) (λ t. run fuel stack (out ++ t))
run (suc fuel) (pending null ∷ stack) out = run fuel stack (out ++ codes "null")
run (suc fuel) (pending (bool b) ∷ stack) out = run fuel stack (out ++ bool_text b)
run (suc fuel) (pending (int z) ∷ stack) out =
    resume (integer_text z) (λ t. run fuel stack (out ++ t))
run (suc fuel) (pending (str s) ∷ stack) out =
    resume (string_text s) (λ t. run fuel stack (out ++ t))
run (suc fuel) (pending (list xs) ∷ stack) out = run fuel (array_frames xs ++ stack) out
run (suc fuel) (pending (dict f) ∷ stack) out = run fuel (object_frames f ++ stack) out

-- How many frames a value comes to, commas included.
abbrev pub commas : ℕ → ℕ
commas zero = 0
commas (suc index) = 1

abbrev mutual
  pub weight : Value → ℕ
  weight (list xs) = 3 + weight_items 0 xs
  weight (dict f) = 3 + weight_fields 0 f
  weight _ = 1

  pub weight_items : ℕ → Items → ℕ
  weight_items index nil = 0
  weight_items index (cons x xs) = commas index + (weight x + weight_items (suc index) xs)

  pub weight_fields : ℕ → Fields → ℕ
  weight_fields index end = 0
  weight_fields index (field k v rest) =
      commas index + (1 + (weight v + weight_fields (suc index) rest))

-- `canonicalize`
unfoldable pub canonicalize : Value → Option Written
unfolding run
canonicalize v = run (weight v) (pending v ∷ []) []
