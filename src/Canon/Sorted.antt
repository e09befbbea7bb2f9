-- ===== src/Canon/Sorted.antt =====
-- Sorting the members of a mapping keeps what they come to, and goes before or after writing them.
use verify_run.Base.{
  ℕ, suc, ◌+◌, ◌≡◌, refl, ap, ◌∙◌, List, [], ◌∷◌, Text, arith, text_lt, Bool-cases, inl, inr,
}
use verify_run.Value.{Value, Fields, end, field}
use verify_run.Canon.{Written, members, insert, sort, weight, weight_fields, commas}
use verify_run.Canon.Render.{render, render_members}

-- A list of members, each with its value written out.
abbrev pub rendered : List (Text × Value) → List (Text × Written)
rendered [] = []
rendered (m ∷ ms) = (m.0, render m.1) ∷ rendered ms

abbrev pub weight_members : ℕ → List (Text × Value) → ℕ
weight_members index [] = 0
weight_members index (m ∷ ms) = commas index + (1 + (weight m.1 + weight_members (suc index) ms))

weight-insert :
    (index : ℕ) (m : Text × Value) (ms : List (Text × Value))
    → weight_members index (insert m ms) ≡ weight_members index (m ∷ ms)
unfolding insert
weight-insert index m [] = refl
weight-insert index m (x ∷ xs) = elim (Bool-cases (text_lt x.0 m.0)) [
  | inl e ↦ rw (e, insert) (omega (arith, weight-insert (suc index) m xs))
  | inr e ↦ rw (e, insert) refl
]

pub weight-sort :
    (index : ℕ) (ms : List (Text × Value))
    → weight_members index (sort ms) ≡ weight_members index ms
unfolding sort
weight-sort index [] = refl
weight-sort index (m ∷ ms) =
    weight-insert index m (sort ms)
    ∙ ap (λ w. commas index + (1 + (weight m.1 + w))) (weight-sort (suc index) ms)

pub weight-members :
    (index : ℕ) (f : Fields) → weight_members index (members f) ≡ weight_fields index f
weight-members index end = refl
weight-members index (field k v rest) =
    ap (λ w. commas index + (1 + (weight v + w))) (weight-members (suc index) rest)

rendered-insert :
    (m : Text × Value) (ms : List (Text × Value))
    → rendered (insert m ms) ≡ insert (m.0, render m.1) (rendered ms)
unfolding insert
rendered-insert m [] = refl
rendered-insert m (x ∷ xs) = elim (Bool-cases (text_lt x.0 m.0)) [
  | inl e ↦ rw (e, insert) (ap (◌∷◌ (x.0, render x.1)) (rendered-insert m xs))
  | inr e ↦ rw (e, insert) refl
]

pub rendered-sort : (ms : List (Text × Value)) → rendered (sort ms) ≡ sort (rendered ms)
unfolding sort
rendered-sort [] = refl
rendered-sort (m ∷ ms) =
    rendered-insert m (sort ms) ∙ ap (insert (m.0, render m.1)) (rendered-sort ms)

pub rendered-members : (f : Fields) → rendered (members f) ≡ render_members f
unfolding render_members
rendered-members end = refl
rendered-members (field k v rest) = ap (◌∷◌ (k, render v)) (rendered-members rest)
