-- ===== src/Schema/Reference.antt =====
-- `_resolve` of vfy/schema.py: the target of a `$ref`, never fetched.
use verify_run.Base.{ℕ, ◌&&◌, Option, none, List, [], ◌∷◌, Text, ◌==◌, if◌then◌else◌}
use verify_run.Base.Attempt.{Attempt, raised, returned, or_raise, ◌>>=◌}
use verify_run.Schema.{Schemas, Stop, schema_registry_invalid, find_schema}
use verify_run.Value.{Value, str, dict, Fields, get}

-- `text.partition(c)`: what is in front of the first `c`, and what is behind it.
unfoldable pub partition : ℕ → Text → Text × Text
partition c [] = ([], [])
partition c (d ∷ s) = if d == c then ([], s) else (d ∷ (partition c s).0, (partition c s).1)

-- `text.split(c)`
abbrev cons_piece : ℕ → List Text → List Text
cons_piece d [] = (d ∷ []) ∷ []
cons_piece d (p ∷ ps) = (d ∷ p) ∷ ps

unfoldable pub split : ℕ → Text → List Text
split c [] = [] ∷ []
split c (d ∷ s) = if d == c then [] ∷ split c s else cons_piece d (split c s)

-- `text.replace("~" + mark, c)`
unfoldable pub unescape : ℕ → ℕ → Text → Text
unescape mark c [] = []
unescape mark c (d ∷ []) = d ∷ []
unescape mark c (d ∷ e ∷ s) =
    let rest : Text = unescape mark c s in
    let next : Text = unescape mark c (e ∷ s) in
    if (d == b'~') && (e == mark) then c ∷ rest else d ∷ next

-- The loop over the steps of the fragment.
abbrev child_at : Value → Text → Option Value
child_at (dict f) step = get step f
child_at _ step = none

unfoldable pub follow : Value → List Text → Attempt Stop Value
unfolding unescape
follow node [] = returned node
follow node (s ∷ steps) =
    or_raise schema_registry_invalid (child_at node (unescape b'0' b'~' (unescape b'1' b'/' s)))
    >>= λ child. follow child steps

abbrev by_fragment : Fields → Text → Attempt Stop Value
by_fragment document [] = returned (dict document)
by_fragment document (c ∷ s) =
    if c == b'/' then follow (dict document) (split b'/' s) else raised schema_registry_invalid

abbrev or_own : Text → Text → Text
or_own own [] = own
or_own own (c ∷ s) = c ∷ s

abbrev resolve_text : Text → Text → Schemas → Attempt Stop (Value × Text)
resolve_text [] identifier registry = raised schema_registry_invalid
resolve_text (c ∷ s) identifier registry =
    let parts : Text × Text = partition b'#' (c ∷ s) in
    let document_id : Text = or_own identifier parts.0 in
    or_raise schema_registry_invalid (find_schema document_id registry) >>= λ document.
    by_fragment document parts.1 >>= λ node. returned (node, document_id)

-- `_resolve`
unfoldable pub resolve : Value → Text → Schemas → Attempt Stop (Value × Text)
unfolding find_schema partition follow split
resolve (str reference) identifier registry = resolve_text reference identifier registry
resolve _ identifier registry = raised schema_registry_invalid
