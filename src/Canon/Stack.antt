-- ===== src/Canon/Stack.antt =====
-- The loop over frames writes what the recursion writes, and its fuel is enough.
use mathlib.Core.List.{append_assoc}
use verify_run.Base.{
  ℕ, zero, suc, ◌+◌, ◌≡◌, refl, sym, ap, subst, ◌∙◌, Option, some, List, [], ◌∷◌, ◌++◌, Text, codes,
  All, arith, text_lt, Bool-cases, inl, inr,
}
use verify_run.Value.{Value, null, bool, int, str, list, dict, Items, nil, cons, Fields, end, field}
use verify_run.Canon.{
  Written, text, refused, before, ◌then◌, string_text, Frame, written, pending, key, separator,
  element_frames, members, insert, sort, member_frames, object_frames, resume, run, weight,
  weight_items, weight_fields, canonicalize, commas,
}
use verify_run.Canon.Sorted.{
  rendered, weight_members, weight-sort, weight-members, rendered-sort, rendered-members,
}
use verify_run.Canon.Render.{comma, join, render, render_items, render_members}

-- The loop goes on behind the text `w`.
abbrev continue : ℕ → List Frame → Text → Written → Option Written
continue n stack out w = resume w (λ t. run n stack (out ++ t))

-- From any stack with the value on top, `size` rounds write it.
abbrev Writes : Value → Type 0
Writes v =
    (n : ℕ) (stack : List Frame) (out : Text)
    → run (weight v + n) (pending v ∷ stack) out ≡ continue n stack out (render v)

continue-before :
    (n : ℕ) (stack : List Frame) (out s : Text) (w : Written)
    → continue n stack out (before s w) ≡ continue n stack (out ++ s) w
continue-before n stack out s (text t) = ap (run n stack) (sym (append_assoc out s t))
continue-before n stack out s (refused e) = refl

continue-then :
    (n : ℕ) (stack : List Frame) (out : Text) (v w : Written)
    → continue n stack out (v then w) ≡ resume v (λ t. continue n stack (out ++ t) w)
continue-then n stack out (text s) w = continue-before n stack out s w
continue-then n stack out (refused e) w = refl

resume-ext :
    (v : Written) (f g : Text → Option Written) → ((t : Text) → f t ≡ g t) → resume v f ≡ resume v g
resume-ext (text t) f g h = h t
resume-ext (refused e) f g h = refl

-- From the frames `fs`, `k` rounds write `w` and leave `n` rounds for the stack.
abbrev Continues : ℕ → List Frame → ℕ → List Frame → Written → Type 0
Continues k fs n stack w = (out : Text) → run k fs out ≡ continue n stack out w

Continues-fuel :
    (k l n : ℕ) (fs stack : List Frame) (w : Written)
    → k ≡ l
    → Continues k fs n stack w
    → Continues l fs n stack w
Continues-fuel k l n fs stack w e = subst (λ m. Continues m fs n stack w) e

Continues-comma :
    (index k n : ℕ) (fs rest stack : List Frame) (w : Written)
    → Continues k (fs ++ rest) n stack w
    → Continues (commas index + k) ((separator index ++ fs) ++ rest) n stack (comma index w)
unfolding run
Continues-comma zero k n fs rest stack w h =
    Continues-fuel k (0 + k) n (fs ++ rest) stack w (omega arith) h
Continues-comma (suc index) k n fs rest stack w h =
    Continues-fuel (suc k) (1 + k) n ((separator (suc index) ++ fs) ++ rest) stack
      (comma (suc index) w) (omega arith)
      (λ out. h (out ++ codes ",") ∙ sym (continue-before n stack out (codes ",") w))

Continues-value :
    (v : Value) (k n : ℕ) (fs stack : List Frame) (w : Written)
    → Writes v
    → Continues k fs n stack w
    → Continues (weight v + k) (pending v ∷ fs) n stack (render v then w)
Continues-value v k n fs stack w writes h = λ out.
    writes k fs out
    ∙ resume-ext (render v) _ _ (λ t. h (out ++ t))
    ∙ sym (continue-then n stack out (render v) w)

Continues-key :
    (s : Text) (k n : ℕ) (fs stack : List Frame) (w : Written)
    → Continues k fs n stack w
    → Continues (suc k) (key s ∷ fs) n stack ((string_text s then text (codes ":")) then w)
unfolding run
Continues-key s k n fs stack w h = λ out.
    resume-ext (string_text s then text (codes ":")) _ _ (λ t. h (out ++ t))
    ∙ sym (continue-then n stack out (string_text s then text (codes ":")) w)

Continues-last :
    (s : Text) (n : ℕ) (stack : List Frame) → Continues (suc n) (written s ∷ stack) n stack (text s)
unfolding run
Continues-last s n stack = λ out. refl

abbrev AllWrite : List (Text × Value) → Type 0
AllWrite = All (λ m. Writes m.1)

insert-AllWrite :
    (m : Text × Value) (ms : List (Text × Value))
    → Writes m.1
    → AllWrite ms
    → AllWrite (insert m ms)
unfolding insert
insert-AllWrite m [] w h = (w, tt)
insert-AllWrite m (x ∷ xs) w h = elim (Bool-cases (text_lt x.0 m.0)) [
  | inl e ↦ rw (e, insert) (h.0, insert-AllWrite m xs w h.1)
  | inr e ↦ rw (e, insert) (w, h)
]

sort-AllWrite : (ms : List (Text × Value)) → AllWrite ms → AllWrite (sort ms)
unfolding sort
sort-AllWrite [] h = tt
sort-AllWrite (m ∷ ms) h = insert-AllWrite m (sort ms) h.0 (sort-AllWrite ms h.1)

Continues-members :
    (index n : ℕ) (ms : List (Text × Value)) (stack : List Frame)
    → AllWrite ms
    → Continues
        (weight_members index ms + suc n)
        (member_frames index ms ++ written (codes "}") ∷ stack)
        n
        stack
        (join index (rendered ms))
Continues-members index n [] stack h =
    Continues-fuel (suc n) (0 + suc n) n (written (codes "}") ∷ stack) stack (text (codes "}"))
      (omega arith) (Continues-last (codes "}") n stack)
Continues-members index n (m ∷ ms) stack h =
    let w : ℕ = weight_members (suc index) ms in
    let rest : List Frame = written (codes "}") ∷ stack in
    let frames : List Frame = member_frames (suc index) ms ++ rest in
    let tail : Written = join (suc index) (rendered ms) in
    Continues-fuel (commas index + (suc (weight m.1 + (w + suc n)))) _ n _ stack _ (omega arith) (
      Continues-comma index (suc (weight m.1 + (w + suc n))) n
        (key m.0 ∷ pending m.1 ∷ member_frames (suc index) ms) rest stack _
        (Continues-key m.0 (weight m.1 + (w + suc n)) n (pending m.1 ∷ frames) stack
          (render m.1 then tail)
          (Continues-value m.1 (w + suc n) n frames stack tail h.0
            (Continues-members (suc index) n ms stack h.1))))

Continues-fields :
    (n : ℕ) (f : Fields) (stack : List Frame)
    → AllWrite (members f)
    → Continues
        (weight_fields 0 f + suc n)
        (member_frames 0 (sort (members f)) ++ written (codes "}") ∷ stack)
        n
        stack
        (join 0 (sort (render_members f)))
Continues-fields n f stack h =
    let ms : List (Text × Value) = sort (members f) in
    let frames : List Frame = member_frames 0 ms ++ written (codes "}") ∷ stack in
    let same : rendered ms ≡ sort (render_members f) =
      rendered-sort (members f) ∙ ap sort (rendered-members f) in
    subst (λ rs. Continues (weight_fields 0 f + suc n) frames n stack (join 0 rs)) same
      (Continues-fuel (weight_members 0 ms + suc n) (weight_fields 0 f + suc n) n frames stack
        (join 0 (rendered ms))
        (ap (λ w. w + suc n) (weight-sort 0 (members f) ∙ weight-members 0 f))
        (Continues-members 0 n ms stack (sort-AllWrite (members f) h)))

mutual
  unfolding run render object_frames

  value-Writes : (v : Value) → Writes v
  value-Writes null n stack =
      Continues-fuel (suc n) (1 + n) n (pending null ∷ stack) stack (render null) (omega arith)
        (λ out. refl)
  value-Writes (bool b) n stack =
      Continues-fuel (suc n) (1 + n) n (pending (bool b) ∷ stack) stack (render (bool b))
        (omega arith) (λ out. refl)
  value-Writes (int z) n stack =
      Continues-fuel (suc n) (1 + n) n (pending (int z) ∷ stack) stack (render (int z))
        (omega arith) (λ out. refl)
  value-Writes (str s) n stack =
      Continues-fuel (suc n) (1 + n) n (pending (str s) ∷ stack) stack (render (str s))
        (omega arith) (λ out. refl)
  value-Writes (list xs) n stack =
      Continues-fuel (suc (suc (weight_items 0 xs + suc n))) (3 + weight_items 0 xs + n) n
        (pending (list xs) ∷ stack) stack (render (list xs)) (omega arith)
        (λ out.
          ap (λ fs. run (weight_items 0 xs + suc n) fs (out ++ codes "["))
            (append_assoc (element_frames 0 xs) (written (codes "]") ∷ []) stack)
          ∙ items-Continue 0 n xs stack (out ++ codes "[")
          ∙ sym (continue-before n stack out (codes "[") (render_items 0 xs)))
  value-Writes (dict f) n stack =
      Continues-fuel (suc (suc (weight_fields 0 f + suc n))) (3 + weight_fields 0 f + n) n
        (pending (dict f) ∷ stack) stack (render (dict f)) (omega arith)
        (λ out.
          ap (λ fs. run (weight_fields 0 f + suc n) fs (out ++ codes "{"))
            (append_assoc (member_frames 0 (sort (members f))) (written (codes "}") ∷ []) stack)
          ∙ Continues-fields n f stack (members-AllWrite f) (out ++ codes "{")
          ∙ sym (continue-before n stack out (codes "{") (join 0 (sort (render_members f)))))

  items-Continue :
      (index n : ℕ) (xs : Items) (stack : List Frame)
      → Continues
          (weight_items index xs + suc n)
          (element_frames index xs ++ written (codes "]") ∷ stack)
          n
          stack
          (render_items index xs)
  items-Continue index n nil stack =
      Continues-fuel (suc n) (0 + suc n) n (written (codes "]") ∷ stack) stack (text (codes "]"))
        (omega arith) (Continues-last (codes "]") n stack)
  items-Continue index n (cons x xs) stack =
      let w : ℕ = weight_items (suc index) xs in
      let rest : List Frame = written (codes "]") ∷ stack in
      Continues-fuel (commas index + (weight x + (w + suc n))) _ n _ stack _ (omega arith) (
        Continues-comma index (weight x + (w + suc n)) n (pending x ∷ element_frames (suc index) xs)
          rest stack _
          (Continues-value x (w + suc n) n (element_frames (suc index) xs ++ rest) stack
            (render_items (suc index) xs) (value-Writes x) (items-Continue (suc index) n xs stack)))

  members-AllWrite : (f : Fields) → AllWrite (members f)
  members-AllWrite end = tt
  members-AllWrite (field k v rest) = (value-Writes v, members-AllWrite rest)

resume-some : (w : Written) → resume w (λ t. some (text t)) ≡ some w
resume-some (text t) = refl
resume-some (refused e) = refl

-- Every value, however deeply nested, is written within the fuel: the loop over the stack of frames
-- returns the canonical text that the recursion describes, with the members of every mapping sorted by
-- key, or the refusal that stands first in the order of the document.
pub canonicalize-render : (v : Value) → canonicalize v ≡ some (render v)
unfolding canonicalize run
canonicalize-render v =
    ap (λ k. run k (pending v ∷ []) []) {x = weight v} {y = weight v + 0} (omega arith)
    ∙ value-Writes v 0 [] []
    ∙ resume-some (render v)
