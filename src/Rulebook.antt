-- ===== src/Rulebook.antt =====
-- vfy/rulebook.py: the checks that a rulebook passes when it is loaded, whether it governs a run, and
-- the collision of two versions. The reading of YAML, the schema and the canonical text are parameters.
pub mod Loaded
use verify_run.Base.{
  ℕ, Bool, true, false, not, ◌&&◌, Option, none, some, List, [], ◌∷◌, ◌++◌, Text, codes, text_eq,
  text_mem, if◌then◌else◌,
}
use verify_run.Base.Attempt.{Attempt, raised, returned, require, ◌>>=◌}
use verify_run.Base.Int.{ℤ, leb_ℤ}
use verify_run.Context.{Declaration}
use verify_run.Instant.{instant}
use verify_run.Expr.Lexer.{word_at}
use verify_run.Value.{Fields}
use verify_run.Walk.{RuleOutcome, DefaultOutcome}

pub data LoadFailure : Type 0 where
  source_invalid rulebook_schema_invalid canonical_form_invalid : LoadFailure
  evidence_id_not_an_identifier duplicate_evidence_id duplicate_rule_id undeclared_evidence_id :
      LoadFailure

-- A rule, with the text of its condition.
pub record RuleSource : Type 0 where
  pub id : Text
  pub when : Text
  pub outcome : RuleOutcome
  pub reason : Text
  pub requires_evidence : List Text

-- The value of a rulebook; `ttl_seconds` is that of its `authorization`, if it has one, and `unread` holds
-- what nothing here reads, such as its description and what the rules cite.
pub record RulebookValue : Type 0 where
  pub rulebook_id : Text
  pub version : Text
  pub adopted_at : Text
  pub evidence : List Declaration
  pub rules : List RuleSource
  pub default_outcome : DefaultOutcome
  pub ttl_seconds : Option ℕ
  pub unread : Fields

abbrev nothing_left : Option (Text × Text) → Bool
nothing_left (some (w, [])) = true
nothing_left _ = false

-- `_EVIDENCE_IDENTIFIER.match`
unfoldable pub is_identifier : Text → Bool
unfolding word_at
is_identifier text = nothing_left (word_at text)

-- The first loop of `_check_load_time_semantics`, with the list `declared`.
unfoldable pub check_evidence : List Text → List Declaration → Attempt LoadFailure (List Text)
unfolding is_identifier
check_evidence known [] = returned known
check_evidence known (d ∷ ds) = require (is_identifier d.id) evidence_id_not_an_identifier >>= λ _.
    require (not (text_mem d.id known)) duplicate_evidence_id >>= λ _.
    check_evidence (known ++ d.id ∷ []) ds

-- The inner loop over `requires_evidence`.
unfoldable pub check_needed : List Text → List Text → Attempt LoadFailure (Unit {0})
check_needed known [] = returned tt
check_needed known (needed ∷ more) =
    require (text_mem needed known) undeclared_evidence_id >>= λ _. check_needed known more

-- The second loop of `_check_load_time_semantics`.
unfoldable pub check_rules :
    List Text → List Text → List RuleSource → Attempt LoadFailure (Unit {0})
unfolding check_needed
check_rules known seen [] = returned tt
check_rules known seen (r ∷ rs) = require (not (text_mem r.id seen)) duplicate_rule_id >>= λ _.
    check_needed known r.requires_evidence >>= λ _. check_rules known (r.id ∷ seen) rs

-- `_check_load_time_semantics`
unfoldable pub check_load_time_semantics : RulebookValue → Attempt LoadFailure (Unit {0})
unfolding check_evidence check_rules
check_load_time_semantics value =
    check_evidence [] value.evidence >>= λ known. check_rules known [] value.rules

-- `LoadedRulebook`, with the value that `value()` reads back from its canonical text.
pub record LoadedRulebook : Type 0 where
  pub canonical : Text
  pub digest : Text
  pub value : RulebookValue

abbrev pub read : Option RulebookValue → Attempt LoadFailure RulebookValue
read none = raised source_invalid
read (some v) = returned v

abbrev pub written : Option Text → Attempt LoadFailure Text
written none = raised canonical_form_invalid
written (some t) = returned t

-- `load_yaml_bytes`, `schema.validate`, `canon.canonicalize` and the digest of a text.
module _ (load : Text → Option RulebookValue) (conforms : RulebookValue → Bool)
    (canonicalize : RulebookValue → Option Text) (hex_digest : Text → Text) where
  -- `load_rulebook_bytes`
  unfoldable pub load_rulebook_bytes : Text → Attempt LoadFailure LoadedRulebook
  unfolding check_load_time_semantics
  load_rulebook_bytes source = read (load source) >>= λ value.
      require (conforms value) rulebook_schema_invalid >>= λ _.
      check_load_time_semantics value >>= λ _. written (canonicalize value) >>= λ canonical.
      returned (record {
        canonical = canonical;
        digest = codes "sha256:" ++ hex_digest canonical;
        value = value;
      })

abbrev both_instants : Option ℤ → Option ℤ → Option Bool
both_instants (some at) (some adopted) = some (leb_ℤ adopted at)
both_instants _ _ = none

-- `rulebook_applies`; `none` where an instant is no date-time and it raises TypeError.
unfoldable pub rulebook_applies : LoadedRulebook → Text → Option Bool
rulebook_applies loaded evaluation_instant =
    both_instants (instant evaluation_instant) (instant loaded.value.adopted_at)

-- `check_no_version_collision` raises.
unfoldable pub collides : LoadedRulebook → LoadedRulebook → Bool
collides first second =
    text_eq first.value.rulebook_id second.value.rulebook_id
    && text_eq first.value.version second.value.version
    && not (text_eq first.digest second.digest)
