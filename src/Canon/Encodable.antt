-- ===== src/Canon/Encodable.antt =====
-- The canonical text and the surrogates, which UTF-8 does not encode.
use verify_run.Base.{
  ◌≡◌, refl, sym, subst, ap, ◌∙◌, ◌⊎◌, inl, inr, ℕ, zero, suc, ◌<◌, ◌/◌, ◌%◌, ◌&&◌, ◌||◌, text_lt,
  Bool, true, false, Option, none, some, List, [], ◌∷◌, Text, codes, ltb, leb, all, any, All,
  All-append, if◌then◌else◌, Bool-cases, and_inv, arith,
}
use verify_run.Base.Digits.{to_digits, IsDigits, to_digits-IsDigits}
use verify_run.Base.Int.{ℤ, pos, negsuc, ltb_ℤ}
use verify_run.Canon.{
  Written, text, refused, before, ◌then◌, named_escape, character_text, string_pieces, string_text,
  decimal, min_safe_integer, max_safe_integer, integer_text, bool_text, insert, sort, canonicalize,
  hex_digit, is_surrogate,
}
use verify_run.Canon.Render.{comma, join, render, render_items, render_members}
use verify_run.Canon.Stack.{canonicalize-render}
use verify_run.Value.{Value, null, bool, int, str, list, dict, Items, nil, cons, Fields, end, field}

-- Outside U+D800 to U+DFFF.
abbrev NotSurrogate : ℕ → Type 0
NotSurrogate c = (c < 55296) ⊎ (57343 < c)

abbrev Encodable : Written → Type 0
Encodable (text t) = All NotSurrogate t
Encodable (refused e) = Unit

all_ascii : (t : Text) → all (λ c. ltb c 128) t ≡ true → All NotSurrogate t
all_ascii [] h = tt
all_ascii (c ∷ t) h =
    let (first, rest) = and_inv (ltb c 128) (all (λ c. ltb c 128) t) h in
    (inl (ground arith), all_ascii t rest)

before-Encodable :
    (s : Text) (w : Written) → All NotSurrogate s → Encodable w → Encodable (before s w)
before-Encodable s (text t) h k = All-append NotSurrogate s t h k
before-Encodable s (refused e) h k = tt

then-Encodable : (w x : Written) → Encodable w → Encodable x → Encodable (w then x)
then-Encodable (text s) x h k = before-Encodable s x h k
then-Encodable (refused e) x h k = tt

named_escape-ascii : (c e : ℕ) → named_escape c ≡ some e → e < 128
named_escape-ascii c e h = ground arith

hex_digit-ascii : (n : ℕ) → n < 16 → hex_digit n < 128
hex_digit-ascii n h = ground arith

character_text-Encodable :
    (o : Option ℕ) (c : ℕ) → named_escape c ≡ o → Encodable (character_text o c)
character_text-Encodable (some e) c h =
    let small = named_escape-ascii c e h in (inl (omega arith), (inl (omega arith), tt))
character_text-Encodable none c h = elim (Bool-cases (ltb c 32)) [
  | inl k ↦
      let high = hex_digit-ascii (c / 16) (ground arith) in
      let low = hex_digit-ascii (c % 16) (omega arith) in
      rw (k, if◌then◌else◌)
        ((
          inl (omega arith),
          (
            inl (omega arith),
            (inl (omega arith), (inl (omega arith), (inl (omega arith), (inl (omega arith), tt)))),
          ),
        ))
  | inr k ↦ elim (Bool-cases (leb 55296 c && leb c 57343)) [
    | inl s ↦ rw (k, if◌then◌else◌, s) tt
    | inr s ↦ rw (k, if◌then◌else◌, s) (outside c s, tt)
  ]
]
  where
    outside : (c : ℕ) → (leb 55296 c && leb c 57343) ≡ false → NotSurrogate c
    outside c s = elim (Bool-cases (leb 55296 c)) [
      | inl k ↦ inr (ground arith)
      | inr k ↦ inl (ground arith)
    ]

string_text-Encodable : (s : Text) → Encodable (string_text s)
unfolding string_text string_pieces
string_text-Encodable s =
    before-Encodable (34 ∷ []) (string_pieces s) (inl (omega arith), tt) (pieces s)
  where
    pieces : (s : Text) → Encodable (string_pieces s)
    pieces [] = (inl (omega arith), tt)
    pieces (c ∷ s) =
        then-Encodable (character_text (named_escape c) c) (string_pieces s)
          (character_text-Encodable (named_escape c) c refl) (pieces s)

digits-NotSurrogate : (t : Text) → IsDigits t → All NotSurrogate t
digits-NotSurrogate [] h = tt
digits-NotSurrogate (c ∷ t) (d, rest) = (inl (omega arith), digits-NotSurrogate t rest)

integer_text-Encodable : (z : ℤ) → Encodable (integer_text z)
unfolding integer_text
integer_text-Encodable z =
    elim (Bool-cases (ltb_ℤ z min_safe_integer || ltb_ℤ max_safe_integer z)) [
      | inl h ↦ rw (h, if◌then◌else◌) tt
      | inr h ↦ rw (h, if◌then◌else◌) (digits z)
    ]
  where
    digits : (z : ℤ) → All NotSurrogate (decimal z)
    digits (pos n) = digits-NotSurrogate (to_digits n) (to_digits-IsDigits n)
    digits (negsuc n) =
        (inl (omega arith), digits-NotSurrogate (to_digits (suc n)) (to_digits-IsDigits (suc n)))

bool_text-NotSurrogate : (b : Bool) → All NotSurrogate (bool_text b)
bool_text-NotSurrogate true = all_ascii (codes "true") refl
bool_text-NotSurrogate false = all_ascii (codes "false") refl

abbrev AllEncodable : List (Text × Written) → Type 0
AllEncodable = All (λ m. Encodable m.1)

insert-AllEncodable :
    (m : Text × Written) (ms : List (Text × Written))
    → Encodable m.1
    → AllEncodable ms
    → AllEncodable (insert m ms)
unfolding insert
insert-AllEncodable m [] h k = (h, tt)
insert-AllEncodable m (x ∷ xs) h k = elim (Bool-cases (text_lt x.0 m.0)) [
  | inl e ↦ rw (e, insert) (k.0, insert-AllEncodable m xs h k.1)
  | inr e ↦ rw (e, insert) (h, k)
]

sort-AllEncodable : (ms : List (Text × Written)) → AllEncodable ms → AllEncodable (sort ms)
unfolding sort
sort-AllEncodable [] k = tt
sort-AllEncodable (m ∷ ms) k = insert-AllEncodable m (sort ms) k.0 (sort-AllEncodable ms k.1)

comma-Encodable : (index : ℕ) (w : Written) → Encodable w → Encodable (comma index w)
comma-Encodable zero w h = h
comma-Encodable (suc index) w h = before-Encodable (codes ",") w (all_ascii (codes ",") refl) h

join-Encodable :
    (index : ℕ) (ms : List (Text × Written)) → AllEncodable ms → Encodable (join index ms)
join-Encodable index [] k = all_ascii (codes "}") refl
join-Encodable index (m ∷ ms) k =
    let key =
      then-Encodable (string_text m.0) (text (codes ":")) (string_text-Encodable m.0)
        (all_ascii (codes ":") refl) in
    let rest = then-Encodable m.1 (join (suc index) ms) k.0 (join-Encodable (suc index) ms k.1) in
    comma-Encodable index _ (then-Encodable (string_text m.0 then text (codes ":")) _ key rest)

mutual
  unfolding render

  render-Encodable : (v : Value) → Encodable (render v)
  render-Encodable null = all_ascii (codes "null") refl
  render-Encodable (bool b) = bool_text-NotSurrogate b
  render-Encodable (int z) = integer_text-Encodable z
  render-Encodable (str s) = string_text-Encodable s
  render-Encodable (list xs) =
      before-Encodable (codes "[") _ (all_ascii (codes "[") refl) (render_items-Encodable 0 xs)
  render-Encodable (dict f) = before-Encodable (codes "{") _ (all_ascii (codes "{") refl) (
      join-Encodable 0 (sort (render_members f))
        (sort-AllEncodable (render_members f) (render_members-AllEncodable f)))

  render_items-Encodable : (index : ℕ) (xs : Items) → Encodable (render_items index xs)
  render_items-Encodable index nil = all_ascii (codes "]") refl
  render_items-Encodable index (cons x xs) =
      comma-Encodable index _
        (then-Encodable (render x) _ (render-Encodable x) (render_items-Encodable (suc index) xs))

  render_members-AllEncodable : (f : Fields) → AllEncodable (render_members f)
  render_members-AllEncodable end = tt
  render_members-AllEncodable (field k v rest) =
      (render-Encodable v, render_members-AllEncodable rest)

no_surrogate : (t : Text) → All NotSurrogate t → any is_surrogate t ≡ false
no_surrogate [] h = refl
no_surrogate (c ∷ t) (h, rest) = rw (outside h, no_surrogate t rest) refl
  where
    outside : NotSurrogate c → is_surrogate c ≡ false
    outside (inl k) = ground arith
    outside (inr k) = ground arith

-- Where a value has a canonical text, no surrogate stands in it.
pub canonicalize-no_surrogate :
    (v : Value) (t : Text) → canonicalize v ≡ some (text t) → any is_surrogate t ≡ false
canonicalize-no_surrogate v t h =
    no_surrogate t
      (subst Encodable (some-injective (sym (canonicalize-render v) ∙ h)) (render-Encodable v))
  where
    some-injective : {a b : Written} → some a ≡ some b → a ≡ b
    some-injective {a} e = ap (λ o. elim o [ some x ↦ x | none ↦ a ]) e
