-- ===== src/Expr/Literals.antt =====
-- vfy/expr.py: the literals and paths that `_Parser` reads, and its static checks on literals.
use verify_run.Base.{
  ℕ, zero, suc, ◌+◌, ◌-◌, ◌*◌, Bool, true, false, not, ◌&&◌, ◌||◌, Option, none, some, List, [],
  ◌∷◌, ◌++◌, Text, codes, text_eq, length, leb, ltb, ◌==◌, if◌then◌else◌,
}
use verify_run.Base.Digits.{digits_value}
use verify_run.Base.Int.{ℤ, pos, sub_ℕ, ltb_ℤ}
use verify_run.Value.{Value, bool, int, str}
use verify_run.Decimal.{match_decimal}
use verify_run.Canon.{max_safe_integer, min_safe_integer}
use verify_run.Expr.{
  Segment, member, index, Root, PathNode, Operand, literal, Comparison, lt, le, gt, ge,
}
use verify_run.Expr.Lexer.{
  Fault, Parsed, done, refused, out_of_fuel, ◌>>=◌, first, fail, fail_at, skip, is_digit, span,
  take_word, peek_symbol, take_symbol, surrogate_not_permitted, value_error,
}

-- `_STRING_ESCAPES`
abbrev pub simple_escape : ℕ → Option ℕ
simple_escape m =
    if m == 34
    then some 34
    else if m == 92
    then some 92
    else if m == b'b'
    then some 8
    else if m == b't'
    then some 9
    else if m == b'n'
    then some 10
    else if m == b'f'
    then some 12
    else if m == b'r'
    then some 13
    else none

abbrev pub hex_value : ℕ → Option ℕ
hex_value d =
    if leb b'0' d && leb d b'9'
    then some (d - b'0')
    else if leb b'a' d && leb d b'f'
    then some (d - 87)
    else if leb b'A' d && leb d b'F'
    then some (d - 55)
    else none

-- `int(digits, 16)` of the next `count` characters.
unfoldable pub hex_digits : ℕ → ℕ → Text → Option (ℕ × Text)
hex_digits zero acc s = some (acc, s)
hex_digits (suc count) acc [] = none
hex_digits (suc count) acc (d ∷ s) = elim (hex_value d) [
  | some v ↦ hex_digits count (acc * 16 + v) s
  | none ↦ none
]

abbrev pub unicode_escape : Text → Option (ℕ × Text) → Parsed ℕ
unicode_escape at none = fail Fault.bad_unicode_escape at
unicode_escape at (some (code_point, rest)) =
    if leb 55296 code_point && leb code_point 57343
    then refused surrogate_not_permitted
    else done code_point rest

abbrev pub marked_escape : ℕ → Text → Option ℕ → Parsed ℕ
marked_escape m s (some c) = done c s
marked_escape m s none =
    if m == b'u'
    then unicode_escape (m ∷ s) (hex_digits 4 0 s)
    else fail_at Fault.bad_escape (m ∷ s) (92 ∷ m ∷ [])

-- An escape, behind its backslash.
unfoldable pub read_escape : Text → Parsed ℕ
unfolding hex_digits
read_escape [] = fail Fault.unterminated_escape []
read_escape (m ∷ s) = marked_escape m s (simple_escape m)

pub data Piece : Type 0 where
  quote newline backslash plain : Piece

abbrev pub piece_of : ℕ → Piece
piece_of c =
    if c == 34 then quote else if c == 10 then newline else if c == 92 then backslash else plain

abbrev pub behind : ℕ → Parsed Text → Parsed Text
behind c r = r >>= λ pieces s. done (c ∷ pieces) s

-- The loop of `_string_literal`, behind the opening quote at `start`.
unfoldable pub string_pieces : ℕ → Text → Text → Parsed Text
unfolding read_escape
string_pieces zero start s = out_of_fuel
string_pieces (suc fuel) start [] = fail_at Fault.unterminated_string start (34 ∷ [])
string_pieces (suc fuel) start (c ∷ s) = elim (piece_of c) [
  | quote ↦ done [] s
  | newline ↦ fail Fault.newline_in_string (c ∷ s)
  | backslash ↦ read_escape s >>= λ code rest. behind code (string_pieces fuel start rest)
  | plain ↦ behind c (string_pieces fuel start s)
]

-- `_string_literal`
unfoldable pub string_literal : Text → Parsed Text
unfolding string_pieces take_symbol
string_literal s =
    take_symbol (34 ∷ []) s >>= λ _ rest. string_pieces (suc (length rest)) (skip s) rest

-- `0|[1-9][0-9]*` at the cursor.
unfoldable pub digits_at : Text → Option (Text × Text)
unfolding span
digits_at [] = none
digits_at (c ∷ s) =
    if c == b'0'
    then some (c ∷ [], s)
    else if is_digit c
    then some (c ∷ (span is_digit s).0, (span is_digit s).1)
    else none

abbrev pub signed_match : Text → Option (Text × Text) → Option (Text × Text)
signed_match sign none = none
signed_match sign (some (digits, rest)) = some (sign ++ digits, rest)

-- `_INTEGER.match` at the cursor.
unfoldable pub integer_at : Text → Option (Text × Text)
unfolding digits_at
integer_at [] = none
integer_at (c ∷ s) = if c == b'-' then signed_match (c ∷ []) (digits_at s) else digits_at (c ∷ s)

-- `int(text)`, of a text that `_INTEGER` matches.
abbrev pub integer_value : Text → ℤ
integer_value [] = pos 0
integer_value (c ∷ s) = if c == b'-' then sub_ℕ 0 (digits_value s) else pos (digits_value (c ∷ s))

abbrev pub goes_on : Text → Bool
goes_on [] = false
goes_on (c ∷ s) = (c == b'.') || (c == b'e') || (c == b'E')

-- `sys.get_int_max_str_digits()`, as CPython sets it: `int` refuses a text of more digits.
abbrev pub max_str_digits : ℕ
max_str_digits = 4300

-- The digits that `int` counts, which are those behind the sign.
abbrev pub behind_sign : Text → Text
behind_sign [] = []
behind_sign (c ∷ s) = if c == b'-' then s else c ∷ s

-- `_integer_literal`, of the match that stands at `at`.
unfoldable pub integer_literal : Text → Text → Text → Parsed ℤ
integer_literal at text rest =
    if goes_on rest
    then fail_at Fault.not_an_integer at (text ++ first rest)
    else if ltb max_str_digits (length (behind_sign text))
    then refused value_error
    else if ltb_ℤ (integer_value text) min_safe_integer
        || ltb_ℤ max_safe_integer (integer_value text)
    then fail_at Fault.integer_out_of_range at text
    else done (integer_value text) rest

abbrev pub index_at : Text → Option (Text × Text) → Parsed ℕ
index_at s none = fail Fault.bad_index s
index_at s (some (digits, rest)) =
    if ltb max_str_digits (length digits)
    then refused value_error
    else done (digits_value digits) rest

abbrev pub before_segment : Segment → Parsed (List Segment) → Parsed (List Segment)
before_segment segment r = r >>= λ segments s. done (segment ∷ segments) s

-- The loop of `_path`.
unfoldable pub path_segments : ℕ → Text → Parsed (List Segment)
unfolding peek_symbol take_word take_symbol digits_at skip
path_segments zero s = out_of_fuel
path_segments (suc fuel) s = elim (peek_symbol (codes ".") s) [
  | some rest ↦ take_word rest >>= λ name s2. before_segment (member name) (path_segments fuel s2)
  | none ↦ elim (peek_symbol (codes "[") s) [
    | some rest ↦ index_at (skip rest) (digits_at (skip rest)) >>= λ n s2.
        take_symbol (codes "]") s2 >>= λ _ s3. before_segment (index n) (path_segments fuel s3)
    | none ↦ done [] (skip s)
  ]
]

-- The member of PATH_ROOTS that a word is.
abbrev pub root_of : Text → Root
root_of word =
    if text_eq word (codes "candidate")
    then Root.candidate
    else if text_eq word (codes "evidence")
    then Root.evidence
    else Root.identity

-- `_path`, where the next word is one of PATH_ROOTS.
unfoldable pub read_path : Text → Parsed PathNode
unfolding take_word take_symbol path_segments
read_path s = take_word s >>= λ root s1. take_symbol (codes ".") s1 >>= λ _ s2.
    take_word s2 >>= λ name s3. path_segments (suc (length s3)) s3 >>= λ segments s4.
    done (record { root = root_of root; first = name; segments = segments }) s4

pub data Kind : Type 0 where
  boolean integer string other : Kind

-- `_canonical_kind`
abbrev pub canonical_kind : Value → Kind
canonical_kind (bool b) = boolean
canonical_kind (int z) = integer
canonical_kind (str s) = string
canonical_kind _ = other

abbrev pub same_kind : Kind → Kind → Bool
same_kind boolean boolean = true
same_kind integer integer = true
same_kind string string = true
same_kind other other = true
same_kind _ _ = false

abbrev is_some {ℓ} : {A : Type ℓ} → Option A → Bool
is_some none = false
is_some (some a) = true

-- `_is_numeric`; `_DECIMAL_STRING` is the pattern of `_DECIMAL`.
unfoldable pub is_numeric : Value → Bool
is_numeric (int z) = true
is_numeric (str text) = is_some (match_decimal text)
is_numeric _ = false

abbrev pub is_ordering : Comparison → Bool
is_ordering lt = true
is_ordering le = true
is_ordering gt = true
is_ordering ge = true
is_ordering _ = false

-- `_check_literal_comparison` raises nothing, or one of two mismatches.
unfoldable pub literal_mismatch : Comparison → Operand → Operand → Option Fault
unfolding is_numeric
literal_mismatch op (literal v) (literal w) =
    if not (same_kind (canonical_kind v) (canonical_kind w))
    then some Fault.literal_types_differ
    else if is_ordering op && not (is_numeric v && is_numeric w)
    then some Fault.ordering_needs_numbers
    else none
literal_mismatch op _ _ = none
