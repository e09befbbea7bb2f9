-- ===== src/Glob/Matches.antt =====
-- What it means for a text to match a pattern, with no search order in it, and how one element of
-- a pattern behaves.
use verify_run.Base.{
  ℕ, ◌≤◌, ◌<◌, ◌≡◌, refl, ◌⊎◌, ◌↔◌, true, none, some, [], ◌∷◌, Text, length, arith, inl, inr, ◌≢◌,
  Option-cases, subst,
}
use verify_run.Glob.{step_over, until_close, class_end, single, only_stars}

-- `*` stands for any text, and every other element of the pattern for one code point.
pub data Matches : Text → Text → Type 0 where
  empty : Matches [] []
  leave : {m : ℕ} {p s : Text} → m ≡ b'*' → Matches p s → Matches (m ∷ p) s
  take : {m c : ℕ} {p s : Text} → m ≡ b'*' → Matches (m ∷ p) s → Matches (m ∷ p) (c ∷ s)
  element : {c : ℕ} {p q s : Text} → single p c ≡ some q → Matches q s → Matches p (c ∷ s)

until_close-length :
    (p body rest : Text) → until_close p ≡ some (body, rest) → length rest < length p
unfolding until_close
until_close-length [] body rest h = cc
until_close-length (c ∷ p) body rest h = elim (Option-cases (until_close p)) [
  | inl e ↦ ground arith
  | inr ((b, r), e) ↦ ground (arith, until_close-length p b r e)
]

step_over-length : (m : ℕ) (p : Text) → length (step_over m p).1 ≤ length p
unfolding step_over
step_over-length m [] = omega arith
step_over-length m (c ∷ p) = ground arith

class_end-length : (p body rest : Text) → class_end p ≡ some (body, rest) → length rest < length p
unfolding class_end
class_end-length p body rest h =
    let q : Text = (step_over b'!' p).1 in
    let r : Text = (step_over b']' q).1 in
    elim (Option-cases (until_close r)) [
      | inl e ↦ ground arith
      | inr ((b, t), e) ↦
          ground
            (arith, until_close-length r b t e, step_over-length b'!' p, step_over-length b']' q)
    ]

-- Every element takes up part of the pattern.
pub single-length : (p q : Text) (c : ℕ) → single p c ≡ some q → length q < length p
unfolding single
single-length [] q c h = cc
single-length (m ∷ p) q c h = elim (Option-cases (class_end p)) [
  | inl e ↦ ground arith
  | inr ((b, r), e) ↦ ground (arith, class_end-length p b r e)
]

-- The pattern behind an element does not depend on the code point that it matched.
pub single-rest : (p q r : Text) (c d : ℕ) → single p c ≡ some q → single p d ≡ some r → q ≡ r
unfolding single
single-rest [] q r c d h k = cc
single-rest (m ∷ p) q r c d h k = ground arith

pub single-star : (m c : ℕ) (p q : Text) → m ≡ b'*' → single (m ∷ p) c ≢ some q
unfolding single
single-star m c p q e h = ground arith

-- Inversion: a pattern that begins with an element matches by that element.
pub element_inv :
    {p s : Text} {c : ℕ} (q : Text) (d : ℕ) → single p d ≡ some q → Matches p (c ∷ s) → Matches q s
element_inv q d h (leave e x) = absurd (single-star _ _ _ _ e h)
element_inv q d h (take e x) = absurd (single-star _ _ _ _ e h)
element_inv {p} {s} {c} q d h (element {q = r} e x) =
    subst (λ t. Matches t s) (single-rest p r q c d e h) x

nothing_left : {p : Text} (q : Text) (d : ℕ) → single p d ≡ some q → Matches p [] → ⊥
unfolding single
nothing_left q d h empty = cc
nothing_left q d h (leave e x) = single-star _ _ _ _ e h

abbrev pub HeadStar : Text → Type 0
HeadStar [] = ⊥
HeadStar (m ∷ p) = m ≡ b'*'

pub no_element : {p s : Text} {c : ℕ} → Matches p (c ∷ s) → single p c ≡ none → HeadStar p
no_element (leave e x) h = e
no_element (take e x) h = e
no_element (element e x) h = cc

module _ {m : ℕ} {p : Text} (star : m ≡ b'*') where
  pub star_inv :
      {c : ℕ} {s : Text} → Matches (m ∷ p) (c ∷ s) → Matches p (c ∷ s) ⊎ Matches (m ∷ p) s
  star_inv (leave e d) = inl d
  star_inv (take e d) = inr d
  star_inv (element e d) = absurd (single-star _ _ _ _ star e)

  pub star_at_end : Matches (m ∷ p) [] → Matches p []
  star_at_end (leave e d) = d

  -- Why the greedy choice loses nothing: where a first element can match, the rest of the pattern
  -- begins behind the first code point.
  pub drop_element :
      {q : Text} (c d : ℕ) (s : Text)
      → single p d ≡ some q
      → Matches (m ∷ p) (c ∷ s)
      → Matches (m ∷ q) s
  drop_element c d s h (leave e x) = leave e (element_inv _ d h x)
  drop_element c d [] h (take e (leave _ x)) = absurd (nothing_left _ d h x)
  drop_element c d (b ∷ s) h (take e x) = take e (drop_element b d s h x)
  drop_element c d s h (element e x) = absurd (single-star _ _ _ _ star e)

stars_left :
    {m : ℕ} {p : Text}
    → Matches (m ∷ p) []
    → (Matches p [] → only_stars p ≡ true)
    → only_stars (m ∷ p) ≡ true
unfolding only_stars
stars_left (leave e d) h = ground (arith, h d)

pub only_stars_iff : (p : Text) → (only_stars p ≡ true) ↔ Matches p []
unfolding only_stars
only_stars_iff [] = (λ _. empty, λ _. refl)
only_stars_iff (m ∷ p) = (
  λ h. leave (ground arith) ((only_stars_iff p).0 (ground arith)),
  λ d. stars_left d (only_stars_iff p).1,
)
