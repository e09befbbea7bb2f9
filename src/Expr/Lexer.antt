-- ===== src/Expr/Lexer.antt =====
-- vfy/expr.py: the lexing of `_Parser`. The cursor is the part of the source from `self.position`
-- on, from which `_line_column` and the offset of a failure are counted.
use verify_run.Base.{
  ℕ, ◌+◌, Bool, true, false, ◌&&◌, ◌||◌, Option, none, some, List, [], ◌∷◌, Text, codes, text_eq,
  text_mem, leb, ◌==◌, if◌then◌else◌,
}

-- The places at which the parser raises, each with its fixed message and expectation.
pub data Fault : Type 0 where
  identifier_expected symbol_expected expression_expected trailing_input : Fault
  not_not nests_too_deep in_expected bare_operand chained_comparison : Fault
  operand_expected not_an_integer integer_out_of_range bad_index : Fault
  unterminated_string newline_in_string unterminated_escape bad_unicode_escape bad_escape : Fault
  trailing_comma list_holds_literals : Fault
  list_operand_expected evidence_id_expected path_not_permitted arity : Fault
  path_expected pattern_expected literal_types_differ ordering_needs_numbers : Fault

-- The exceptions, with the cursor at their offset and their token; those of the canonical document of the
-- tree; `value_error` is the ValueError of
-- `int`, which is no exception of the parser's own.
pub data Refusal : Type 0 where
  parse_error type_error : Fault → Text → Text → Refusal
  surrogate_not_permitted canonical_form_invalid source_too_deep value_error : Refusal

-- What a method comes to: its value and the cursor behind it, or an exception.
pub data Parsed {ℓ} (A : Type ℓ) : Type ℓ where
  done : A → Text → Parsed A
  refused : Refusal → Parsed A
  out_of_fuel : Parsed A

infixl 10 ◌>>=◌
abbrev pub ◌>>=◌ {ℓ κ} : {A : Type ℓ} {B : Type κ} → Parsed A → (A → Text → Parsed B) → Parsed B
(done a s) >>= f = f a s
(refused e) >>= f = refused e
out_of_fuel >>= f = out_of_fuel

-- `self.source[offset:offset + 1]`
abbrev pub first : Text → Text
first [] = []
first (c ∷ s) = c ∷ []

-- `_fail` and `_type_fail`, with the cursor at the offset.
abbrev pub fail {ℓ} : {A : Type ℓ} → Fault → Text → Parsed A
fail fault at = refused (parse_error fault at (first at))

abbrev pub fail_at {ℓ} : {A : Type ℓ} → Fault → Text → Text → Parsed A
fail_at fault at token = refused (parse_error fault at token)

abbrev pub type_fail {ℓ} : {A : Type ℓ} → Fault → Text → Text → Parsed A
type_fail fault at token = refused (type_error fault at token)

-- `_line_column`, from the text in front of the cursor.
abbrev pub line_column_from : ℕ → ℕ → Text → ℕ × ℕ
line_column_from line column [] = (line, column)
line_column_from line column (c ∷ prefix) =
    if c == 10
    then line_column_from (line + 1) 1 prefix
    else line_column_from line (column + 1) prefix

-- `_WHITESPACE`
abbrev pub is_space : ℕ → Bool
is_space c = (c == 32) || (c == 9) || (c == 13) || (c == 10)

-- `_skip_whitespace`
unfoldable pub skip : Text → Text
skip [] = []
skip (c ∷ s) = elim (is_space c) [ true ↦ skip s | false ↦ c ∷ s ]

abbrev pub is_letter : ℕ → Bool
is_letter c = (leb b'A' c && leb c b'Z') || (leb b'a' c && leb c b'z') || (c == b'_')

abbrev pub is_digit : ℕ → Bool
is_digit c = leb b'0' c && leb c b'9'

-- The longest run of characters that pass, and what is behind it.
unfoldable pub span : (ℕ → Bool) → Text → Text × Text
span p [] = ([], [])
span p (c ∷ s) = elim (p c) [ true ↦ (c ∷ (span p s).0, (span p s).1) | false ↦ ([], c ∷ s) ]

-- `_IDENTIFIER.match` at the cursor, with the cursor behind the word.
unfoldable pub word_at : Text → Option (Text × Text)
unfolding span
word_at [] = none
word_at (c ∷ s) = elim (is_letter c) [
  | true ↦
      some (
        c ∷ (span (λ d. is_letter d || is_digit d) s).0,
        (span (λ d. is_letter d || is_digit d) s).1,
      )
  | false ↦ none
]

-- `_peek_word`, with the cursor behind the word; whitespace is skipped first.
unfoldable pub peek_word : Text → Option (Text × Text)
unfolding word_at skip
peek_word s = word_at (skip s)

abbrev pub is_word : Option (Text × Text) → Text → Bool
is_word none w = false
is_word (some (v, s)) w = text_eq v w

abbrev pub is_one_of : Option (Text × Text) → List Text → Bool
is_one_of none words = false
is_one_of (some (v, s)) words = text_mem v words

abbrev pub word_or_fail : Text → Option (Text × Text) → Parsed Text
word_or_fail s none = fail Fault.identifier_expected (skip s)
word_or_fail s (some (w, rest)) = done w rest

-- `_take_word`
unfoldable pub take_word : Text → Parsed Text
unfolding peek_word skip
take_word s = word_or_fail s (peek_word s)

-- `self.source.startswith(symbol, self.position)`, with the cursor behind the symbol.
unfoldable pub after : Text → Text → Option Text
after [] s = some s
after (c ∷ symbol) [] = none
after (c ∷ symbol) (d ∷ s) = elim (c == d) [ true ↦ after symbol s | false ↦ none ]

-- `_peek_symbol`
unfoldable pub peek_symbol : Text → Text → Option Text
unfolding after skip
peek_symbol symbol s = after symbol (skip s)

abbrev pub symbol_or_fail : Text → Option Text → Parsed (Unit {0})
symbol_or_fail s none = fail Fault.symbol_expected (skip s)
symbol_or_fail s (some rest) = done tt rest

-- `_take_symbol`
unfoldable pub take_symbol : Text → Text → Parsed (Unit {0})
unfolding peek_symbol skip
take_symbol symbol s = symbol_or_fail s (peek_symbol symbol s)

abbrev pub keyword_rest : Text → Text → Option (Text × Text) → Option Text
keyword_rest word s none = none
keyword_rest word s (some (v, rest)) = if text_eq v word then some rest else none

-- `_take_keyword_if`, with the cursor behind the keyword where it is consumed.
unfoldable pub keyword : Text → Text → Option Text
unfolding peek_word
keyword word s = keyword_rest word s (peek_word s)

-- PATH_ROOTS, FUNCTIONS and KEYWORDS
abbrev pub path_roots : List Text
path_roots = codes "candidate" ∷ codes "evidence" ∷ codes "identity" ∷ []

abbrev pub functions : List Text
functions = codes "fresh" ∷ codes "present" ∷ codes "matches" ∷ []

abbrev pub keywords : List Text
keywords =
    codes "and" ∷ codes "or" ∷ codes "not" ∷ codes "in" ∷ codes "true" ∷ codes "false" ∷ functions

abbrev pub booleans : List Text
booleans = codes "true" ∷ codes "false" ∷ []
