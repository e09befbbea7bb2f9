-- ===== src/Expr/Reads.antt =====
-- How much of the source the lexing of vfy/expr.py consumes, and that its loops end.
use verify_run.Base.{
  ℕ, zero, suc, ◌+◌, ◌*◌, ◌≤◌, ◌<◌, ◌≡◌, refl, subst, Bool, ◌||◌, Option, none, some, List, [], ◌∷◌,
  Text, codes, text_eq, length, ltb, arith, Bool-cases, Option-cases, inl, inr, ◌⊎◌, ◌==◌,
}
use verify_run.Expr.{Segment, member, index}
use verify_run.Expr.Lexer.{
  Parsed, done, refused, out_of_fuel, ◌>>=◌, is_space, skip, is_letter, is_digit, span, word_at,
  peek_word, take_word, after, peek_symbol, take_symbol, keyword,
}
use verify_run.Expr.Literals.{
  hex_value, hex_digits, unicode_escape, marked_escape, simple_escape, read_escape, Piece, quote,
  newline, backslash, plain, piece_of, behind, string_pieces, string_literal, digits_at,
  max_str_digits, signed_match, integer_at, integer_literal, index_at, before_segment,
  path_segments, read_path,
}

-- The call returns or raises, and where it returns less than `bound` is left of the source.
abbrev pub Reads : {A : Type 0} → ℕ → Parsed A → Type 0
Reads bound (done a s) = length s < bound
Reads bound (refused e) = Unit
Reads bound out_of_fuel = ⊥

pub Reads-bind :
    {A B : Type 0} (b c : ℕ) (r : Parsed A) (k : A → Text → Parsed B)
    → Reads b r
    → ((a : A) (s : Text) → length s < b → Reads c (k a s))
    → Reads c (r >>= k)
Reads-bind b c (done a s) k h f = f a s h
Reads-bind b c (refused e) k h f = tt
Reads-bind b c out_of_fuel k h f = absurd h

pub Reads-weaken : {A : Type 0} (b c : ℕ) (r : Parsed A) → b ≤ c → Reads b r → Reads c r
Reads-weaken b c (done a s) le h = omega arith
Reads-weaken b c (refused e) le h = tt
Reads-weaken b c out_of_fuel le h = absurd h

-- A match leaves less than `bound`.
abbrev pub Leaves : {A : Type 0} → ℕ → Option (A × Text) → Type 0
Leaves bound none = Unit
Leaves bound (some (a, s)) = length s < bound

pub Leaves-some :
    {A : Type 0} (bound : ℕ) (o : Option (A × Text)) (x : A × Text)
    → o ≡ some x
    → Leaves bound o
    → length x.1 < bound
Leaves-some bound none x e h = cc
Leaves-some bound (some y) x e h = subst (Leaves bound) e h

abbrev pub Rests : ℕ → Option Text → Type 0
Rests bound none = Unit
Rests bound (some s) = length s < bound

pub Rests-some :
    (bound : ℕ) (o : Option Text) (s : Text) → o ≡ some s → Rests bound o → length s < bound
Rests-some bound none s e h = cc
Rests-some bound (some t) s e h = subst (Rests bound) e h

pub length-skip : (s : Text) → length (skip s) ≤ length s
unfolding skip
length-skip [] = omega arith
length-skip (c ∷ s) = elim (Bool-cases (is_space c)) [
  | inl e ↦ rw (e, skip) (omega (arith, length-skip s))
  | inr e ↦ rw (e, skip) (omega arith)
]

length-span : (p : ℕ → Bool) (s : Text) → length (span p s).1 ≤ length s
unfolding span
length-span p [] = omega arith
length-span p (c ∷ s) = elim (Bool-cases (p c)) [
  | inl e ↦ rw (e, span) (omega (arith, length-span p s))
  | inr e ↦ rw (e, span) (omega arith)
]

word_at-Leaves : (s : Text) → Leaves (length s) (word_at s)
unfolding word_at
word_at-Leaves [] = tt
word_at-Leaves (c ∷ s) = elim (Bool-cases (is_letter c)) [
  | inl e ↦ rw (e, word_at) (omega (arith, length-span (λ (d : ℕ). is_letter d || is_digit d) s))
  | inr e ↦ rw (e, word_at) tt
]

Leaves-weaken : {A : Type 0} (b c : ℕ) (o : Option (A × Text)) → b ≤ c → Leaves b o → Leaves c o
Leaves-weaken b c none le h = tt
Leaves-weaken b c (some x) le h = omega arith

Rests-weaken : (b c : ℕ) (o : Option Text) → b ≤ c → Rests b o → Rests c o
Rests-weaken b c none le h = tt
Rests-weaken b c (some x) le h = omega arith

pub peek_word-Leaves : (s : Text) → Leaves (length s) (peek_word s)
unfolding peek_word
peek_word-Leaves s =
    Leaves-weaken (length (skip s)) (length s) (word_at (skip s)) (length-skip s)
      (word_at-Leaves (skip s))

pub take_word-Reads : (s : Text) → Reads (length s) (take_word s)
unfolding take_word
take_word-Reads s = elim (Option-cases (peek_word s)) [
  | inl e ↦ rw e tt
  | inr (x, e) ↦ rw e (Leaves-some (length s) (peek_word s) x e (peek_word-Leaves s))
]

-- A symbol that is there is consumed.
pub after-Rests : (c : ℕ) (symbol s : Text) → Rests (length s) (after (c ∷ symbol) s)
unfolding after
after-Rests c symbol [] = tt
after-Rests c [] (d ∷ s) = elim (Bool-cases (c == d)) [
  | inl e ↦ rw (e, after) (omega arith)
  | inr e ↦ rw (e, after) tt
]
after-Rests c (x ∷ symbol) (d ∷ s) = elim (Bool-cases (c == d)) [
  | inl e ↦
      rw (e, after)
        (Rests-weaken (length s) _ (after (x ∷ symbol) s) (omega arith) (after-Rests x symbol s))
  | inr e ↦ rw (e, after) tt
]

pub peek_symbol-Rests : (c : ℕ) (symbol s : Text) → Rests (length s) (peek_symbol (c ∷ symbol) s)
unfolding peek_symbol
peek_symbol-Rests c symbol s =
    Rests-weaken (length (skip s)) _ (after (c ∷ symbol) (skip s)) (length-skip s)
      (after-Rests c symbol (skip s))

pub take_symbol-Reads : (c : ℕ) (symbol s : Text) → Reads (length s) (take_symbol (c ∷ symbol) s)
unfolding take_symbol
take_symbol-Reads c symbol s = elim (Option-cases (peek_symbol (c ∷ symbol) s)) [
  | inl e ↦ rw e tt
  | inr (x, e) ↦ rw e (Rests-some (length s) _ x e (peek_symbol-Rests c symbol s))
]

pub keyword-Rests : (word s : Text) → Rests (length s) (keyword word s)
unfolding keyword
keyword-Rests word s = elim (Option-cases (peek_word s)) [
  | inl e ↦ rw e tt
  | inr (x, e) ↦ elim (Bool-cases (text_eq x.0 word)) [
    | inl q ↦ rw (e, q) (Leaves-some (length s) (peek_word s) x e (peek_word-Leaves s))
    | inr q ↦ rw (e, q) tt
  ]
]

hex_digits-Leaves : (count acc : ℕ) (s : Text) → Leaves (suc (length s)) (hex_digits count acc s)
unfolding hex_digits
hex_digits-Leaves zero acc s = omega arith
hex_digits-Leaves (suc count) acc [] = tt
hex_digits-Leaves (suc count) acc (d ∷ s) = elim (Option-cases (hex_value d)) [
  | inl e ↦ rw (e, hex_digits) tt
  | inr (v, e) ↦
      rw (e, hex_digits)
        (Leaves-weaken (suc (length s)) _ (hex_digits count (acc * 16 + v) s) (omega arith)
          (hex_digits-Leaves count (acc * 16 + v) s))
]

unicode_escape-Reads :
    (bound : ℕ) (at : Text) (o : Option (ℕ × Text))
    → Leaves bound o
    → Reads bound (unicode_escape at o)
unicode_escape-Reads bound at none h = tt
unicode_escape-Reads bound at (some (code_point, rest)) h = ground arith

marked_escape-Reads :
    (m : ℕ) (s : Text) (o : Option ℕ) → Reads (suc (length s)) (marked_escape m s o)
marked_escape-Reads m s (some c) = omega arith
marked_escape-Reads m s none = elim (Bool-cases (m == b'u')) [
  | inl e ↦
      rw e
        (unicode_escape-Reads (suc (length s)) (m ∷ s) (hex_digits 4 0 s) (hex_digits-Leaves 4 0 s))
  | inr e ↦ rw e tt
]

read_escape-Reads : (s : Text) → Reads (length s) (read_escape s)
unfolding read_escape
read_escape-Reads [] = tt
read_escape-Reads (m ∷ s) = marked_escape-Reads m s (simple_escape m)

behind-Reads : (b n : ℕ) (r : Parsed Text) → Reads b r → Reads b (behind n r)
behind-Reads b n (done a s) h = h
behind-Reads b n (refused e) h = tt
behind-Reads b n out_of_fuel h = h

Piece-cases : (p : Piece) → (p ≡ quote) ⊎ ((p ≡ newline) ⊎ ((p ≡ backslash) ⊎ (p ≡ plain)))
Piece-cases quote = inl refl
Piece-cases newline = inr (inl refl)
Piece-cases backslash = inr (inr (inl refl))
Piece-cases plain = inr (inr (inr refl))

string_pieces-Reads :
    (fuel : ℕ) (start s : Text) → length s < fuel → Reads (length s) (string_pieces fuel start s)
unfolding string_pieces
string_pieces-Reads zero start s h = absurd (omega arith)
string_pieces-Reads (suc fuel) start [] h = tt
string_pieces-Reads (suc fuel) start (c ∷ s) h = elim (Piece-cases (piece_of c)) [
  | inl e ↦ rw (e, string_pieces) (omega arith)
  | inr (inl e) ↦ rw (e, string_pieces) tt
  | inr (inr (inl e)) ↦
      rw (e, string_pieces)
        (Reads-bind (length s) (suc (length s)) (read_escape s) _ (read_escape-Reads s)
          (λ code rest lt. behind-Reads (suc (length s)) code (string_pieces fuel start rest) (
            Reads-weaken (length rest) _ _ (omega arith)
              (string_pieces-Reads fuel start rest (omega arith)))))
  | inr (inr (inr e)) ↦
      rw (e, string_pieces)
        (behind-Reads (suc (length s)) c (string_pieces fuel start s) (
          Reads-weaken (length s) _ _ (omega arith)
            (string_pieces-Reads fuel start s (omega arith))))
]

pub string_literal-Reads : (s : Text) → Reads (length s) (string_literal s)
unfolding string_literal
string_literal-Reads s =
    Reads-bind (length s) (length s) (take_symbol (34 ∷ []) s) _ (take_symbol-Reads 34 [] s)
      (λ u rest lt.
        Reads-weaken (length rest) (length s) (string_pieces (suc (length rest)) (skip s) rest)
          (omega arith) (string_pieces-Reads (suc (length rest)) (skip s) rest (omega arith)))

digits_at-Leaves : (s : Text) → Leaves (length s) (digits_at s)
unfolding digits_at
digits_at-Leaves [] = tt
digits_at-Leaves (c ∷ s) = ground (arith, length-span is_digit s)

signed_match-Leaves :
    (b : ℕ) (sign : Text) (o : Option (Text × Text)) → Leaves b o → Leaves b (signed_match sign o)
signed_match-Leaves b sign none h = tt
signed_match-Leaves b sign (some x) h = h

integer_at-Leaves : (s : Text) → Leaves (length s) (integer_at s)
unfolding integer_at
integer_at-Leaves [] = tt
integer_at-Leaves (c ∷ s) = elim (Bool-cases (c == b'-')) [
  | inl e ↦ rw e (
      signed_match-Leaves (suc (length s)) (c ∷ []) (digits_at s)
        (Leaves-weaken (length s) _ (digits_at s) (omega arith) (digits_at-Leaves s)))
  | inr e ↦ rw e (digits_at-Leaves (c ∷ s))
]

pub integer_at-skip-Leaves : (s : Text) → Leaves (length s) (integer_at (skip s))
integer_at-skip-Leaves s =
    Leaves-weaken (length (skip s)) _ (integer_at (skip s)) (length-skip s)
      (integer_at-Leaves (skip s))

pub integer_literal-Reads :
    (at text rest : Text) → Reads (suc (length rest)) (integer_literal at text rest)
unfolding integer_literal
integer_literal-Reads at text rest = ground arith

index_at-Reads : (b : ℕ) (s : Text) (o : Option (Text × Text)) → Leaves b o → Reads b (index_at s o)
index_at-Reads b s none h = tt
index_at-Reads b s (some x) h = elim (Bool-cases (ltb max_str_digits (length x.0))) [
  | inl e ↦ rw e tt
  | inr e ↦ rw e h
]

before_segment-Reads :
    (b : ℕ) (segment : Segment) (r : Parsed (List Segment))
    → Reads b r
    → Reads b (before_segment segment r)
before_segment-Reads b segment (done a s) h = h
before_segment-Reads b segment (refused e) h = tt
before_segment-Reads b segment out_of_fuel h = h

path_segments-Reads :
    (fuel : ℕ) (s : Text) → length s < fuel → Reads (suc (length s)) (path_segments fuel s)
unfolding path_segments
path_segments-Reads zero s h = absurd (omega arith)
path_segments-Reads (suc fuel) s h = elim (Option-cases (peek_symbol (codes ".") s)) [
  | inr (rest, e) ↦
      let shorter : length rest < length s =
        Rests-some (length s) _ rest e (peek_symbol-Rests b'.' [] s) in
      rw (e, path_segments)
        (Reads-bind (length rest) (suc (length s)) (take_word rest) _ (take_word-Reads rest)
          (λ name s2 lt. before_segment-Reads _ (member name) (path_segments fuel s2) (
            Reads-weaken (suc (length s2)) _ _ (omega arith)
              (path_segments-Reads fuel s2 (omega arith)))))
  | inl e ↦ elim (Option-cases (peek_symbol (codes "[") s)) [
    | inr (rest, q) ↦
        let shorter : length rest < length s =
          Rests-some (length s) _ rest q (peek_symbol-Rests b'[' [] s) in
        let fewer : length (skip rest) ≤ length rest = length-skip rest in
        rw (e, q, path_segments)
          (Reads-bind (length (skip rest)) (suc (length s))
            (index_at (skip rest) (digits_at (skip rest))) _
            (index_at-Reads _ (skip rest) (digits_at (skip rest)) (digits_at-Leaves (skip rest)))
            (λ n s2 lt.
              Reads-bind (length s2) (suc (length s)) (take_symbol (codes "]") s2) _
                (take_symbol-Reads b']' [] s2)
                (λ u s3 less. before_segment-Reads _ (index n) (path_segments fuel s3) (
                  Reads-weaken (suc (length s3)) _ _ (omega arith)
                    (path_segments-Reads fuel s3 (omega arith))))))
    | inl q ↦ rw (e, q, path_segments) (omega (arith, length-skip s))
  ]
]

pub read_path-Reads : (s : Text) → Reads (length s) (read_path s)
unfolding read_path
read_path-Reads s =
    Reads-bind (length s) (length s) (take_word s) _ (take_word-Reads s) λ root s1 lt1.
      Reads-bind (length s1) (length s) (take_symbol (codes ".") s1) _
        (take_symbol-Reads b'.' [] s1)
        λ u s2 lt2.
          Reads-bind (length s2) (length s) (take_word s2) _ (take_word-Reads s2) λ name s3 lt3.
            Reads-bind (suc (length s3)) (length s) (path_segments (suc (length s3)) s3) _
              (path_segments-Reads (suc (length s3)) s3 (omega arith))
              λ segments s4 lt4. omega arith
