-- ===== src/Canon/Render.antt =====
-- The canonical text told by recursion on the value, without a stack.
use verify_run.Base.{ℕ, zero, suc, List, [], ◌∷◌, Text, codes}
use verify_run.Value.{Value, null, bool, int, str, list, dict, Items, nil, cons, Fields, end, field}
use verify_run.Canon.{Written, text, before, ◌then◌, integer_text, string_text, bool_text, sort}

-- A comma in front of all but the first.
abbrev pub comma : ℕ → Written → Written
comma zero w = w
comma (suc index) w = before (codes ",") w

-- `"key":value` of every member, with commas, and a closing brace.
abbrev pub join : ℕ → List (Text × Written) → Written
join index [] = text (codes "}")
join index (m ∷ ms) =
    comma index ((string_text m.0 then text (codes ":")) then (m.1 then join (suc index) ms))

unfoldable mutual
  unfolding sort integer_text string_text

  pub render : Value → Written
  render null = text (codes "null")
  render (bool b) = text (bool_text b)
  render (int z) = integer_text z
  render (str s) = string_text s
  render (list xs) = before (codes "[") (render_items 0 xs)
  render (dict f) = before (codes "{") (join 0 (sort (render_members f)))

  -- The elements, with commas, and a closing bracket.
  pub render_items : ℕ → Items → Written
  render_items index nil = text (codes "]")
  render_items index (cons x xs) = comma index (render x then render_items (suc index) xs)

  pub render_members : Fields → List (Text × Written)
  render_members end = []
  render_members (field k v rest) = (k, render v) ∷ render_members rest
