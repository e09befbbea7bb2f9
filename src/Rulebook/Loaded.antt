-- ===== src/Rulebook/Loaded.antt =====
-- What every rulebook that was loaded satisfies, and what rests on it.
use mathlib.Core.List.{append_assoc, append-nil}
use verify_run.Base.{
  ◌≡◌, ◌∙◌, ap, codes, refl, sym, subst, Bool, true, false, not, Option, none, some, List, [], ◌∷◌,
  ◌++◌, Text, text_eq, text_mem, text_eq_iff, text_ne, All, arith,
}
use verify_run.Base.Attempt.{returned, returned-bind, returned-require, returned-injective}
use verify_run.Base.Int.{ℤ}
use verify_run.Context.{Declaration}
use verify_run.Value.{Value}
use verify_run.Rulebook.{
  RuleSource, RulebookValue, is_identifier, check_evidence, check_needed, check_rules,
  check_load_time_semantics, LoadedRulebook, load_rulebook_bytes, read, written,
}
use verify_run.Snapshot.{accepted, Payload, Snapshot, Pinned, build_snapshot, verify_snapshot_value}
use verify_run.Snapshot.Required.{Distinct}
use verify_run.Snapshot.Accepted.{build_snapshot-verify_snapshot_value}

-- No rule id stands twice, nor one of `seen`.
abbrev pub DistinctRules : List Text → List RuleSource → Type 0
DistinctRules seen [] = Unit
DistinctRules seen (r ∷ rs) = (text_mem r.id seen ≡ false) × DistinctRules (r.id ∷ seen) rs

abbrev pub ids_of : List Declaration → List Text
ids_of [] = []
ids_of (d ∷ ds) = d.id ∷ ids_of ds

-- Every required id is declared.
abbrev pub AllDeclared : List Text → List RuleSource → Type 0
AllDeclared known = All (λ r. All (λ needed. text_mem needed known ≡ true) r.requires_evidence)

-- The load-time checks, as a predicate.
pub record Sound (value : RulebookValue) : Type 0 where
  pub identifiers : All (λ d. is_identifier d.id ≡ true) value.evidence
  pub distinct_evidence : Distinct value.evidence
  pub distinct_rules : DistinctRules [] value.rules
  pub declared : AllDeclared (ids_of value.evidence) value.rules

mem_append_false :
    (id new : Text) (known : List Text)
    → text_mem id (known ++ new ∷ []) ≡ false
    → (text_mem id known ≡ false) × (text_eq id new ≡ false)
mem_append_false id new [] h = (refl, ground arith)
mem_append_false id new (x ∷ known) h = ground (arith, mem_append_false id new known)

text_eq_flip : (s t : Text) → text_eq s t ≡ false → text_eq t s ≡ false
text_eq_flip s t h = text_ne t s (λ e. cc (h, (text_eq_iff s t).1 (sym e)))

append_step :
    (known : List Text) (x : Text) (xs : List Text) → (known ++ x ∷ []) ++ xs ≡ known ++ x ∷ xs
append_step known x xs = append_assoc known (x ∷ []) xs

-- No id of the declarations is among those known before.
abbrev NoneKnown : List Text → List Declaration → Type 0
NoneKnown known = All (λ d. text_mem d.id known ≡ false)

fewer_known :
    (known : List Text) (new : Text) (ds : List Declaration)
    → NoneKnown (known ++ new ∷ []) ds
    → NoneKnown known ds × All (λ e. text_eq new e.id ≡ false) ds
fewer_known known new [] h = (tt, tt)
fewer_known known new (d ∷ ds) h =
    let (old, differs) = mem_append_false d.id new known h.0 in
    let (olds, differ) = fewer_known known new ds h.1 in
    ((old, olds), (text_eq_flip d.id new differs, differ))

-- What a run of the first loop shows.
record Checks (known k : List Text) (ds : List Declaration) : Type 0 where
  grows : k ≡ known ++ ids_of ds
  identifier : All (λ d. is_identifier d.id ≡ true) ds
  new : NoneKnown known ds
  distinct : Distinct ds

check_evidence-Checks :
    (known k : List Text) (ds : List Declaration)
    → check_evidence known ds ≡ returned k
    → Checks known k ds
unfolding check_evidence
check_evidence-Checks known k [] h = record {
  grows = sym (returned-injective h) ∙ sym (append-nil known);
  identifier = tt;
  new = tt;
  distinct = tt;
}
check_evidence-Checks known k (d ∷ ds) h =
    let (lexes, h1) = returned-require (is_identifier d.id) _ _ k h in
    let (fresh, h2) = returned-require (not (text_mem d.id known)) _ _ k h1 in
    let rest : Checks (known ++ d.id ∷ []) k ds =
      check_evidence-Checks (known ++ d.id ∷ []) k ds h2 in
    let (old, differ) = fewer_known known d.id ds rest.new in
    record {
      grows = rest.grows ∙ append_step known d.id (ids_of ds);
      identifier = (lexes, rest.identifier);
      new = (ground arith, old);
      distinct = (differ, rest.distinct);
    }

check_needed-All :
    (known ids : List Text)
    → check_needed known ids ≡ returned tt
    → All (λ needed. text_mem needed known ≡ true) ids
unfolding check_needed
check_needed-All known [] h = tt
check_needed-All known (id ∷ ids) h =
    let (here, more) = returned-require (text_mem id known) _ _ tt h in
    (here, check_needed-All known ids more)

check_rules-All :
    (known seen : List Text) (rs : List RuleSource)
    → check_rules known seen rs ≡ returned tt
    → DistinctRules seen rs × AllDeclared known rs
unfolding check_rules
check_rules-All known seen [] h = (tt, tt)
check_rules-All known seen (r ∷ rs) h =
    let (new, h1) = returned-require (not (text_mem r.id seen)) _ _ tt h in
    let (u, needed, h2) = returned-bind (check_needed known r.requires_evidence) _ tt h1 in
    let (distinct, declared) = check_rules-All known (r.id ∷ seen) rs h2 in
    ((ground arith, distinct), (check_needed-All known r.requires_evidence needed, declared))

check_load_time_semantics-Sound :
    (value : RulebookValue) → check_load_time_semantics value ≡ returned tt → Sound value
unfolding check_load_time_semantics
check_load_time_semantics-Sound value h =
    let (known, first, second) = returned-bind (check_evidence [] value.evidence) _ tt h in
    let c : Checks [] known value.evidence = check_evidence-Checks [] known value.evidence first in
    let (distinct, declared) = check_rules-All known [] value.rules second in
    record {
      identifiers = c.identifier;
      distinct_evidence = c.distinct;
      distinct_rules = distinct;
      declared = subst (λ k. AllDeclared k value.rules) c.grows declared;
    }

read_inv : (o : Option RulebookValue) (v : RulebookValue) → read o ≡ returned v → o ≡ some v
read_inv none v h = cc
read_inv (some w) v h = ap some (returned-injective h)

written_inv : (o : Option Text) (t : Text) → written o ≡ returned t → o ≡ some t
written_inv none t h = cc
written_inv (some w) t h = ap some (returned-injective h)

-- Whatever reads the source, a rulebook that loads has evidence ids that lex as identifiers and are
-- declared once each, rule ids that stand once each, and rules that require declared evidence only;
-- its digest is that of its canonical text.
pub load_rulebook_bytes-Sound :
    (load : Text → Option RulebookValue) (conforms : RulebookValue → Bool)
    (canonicalize : RulebookValue → Option Text) (hex_digest : Text → Text) (source : Text)
    (l : LoadedRulebook)
    → load_rulebook_bytes load conforms canonicalize hex_digest source ≡ returned l
    → Sound l.value
      × (load source ≡ some l.value)
      × (conforms l.value ≡ true)
      × (l.digest ≡ codes "sha256:" ++ hex_digest l.canonical)
      × (canonicalize l.value ≡ some l.canonical)
unfolding load_rulebook_bytes
load_rulebook_bytes-Sound load conforms canonicalize hex_digest source l h =
    let (value, found, h1) = returned-bind (read (load source)) _ l h in
    let (fits, h2) = returned-require (conforms value) _ _ l h1 in
    let (u, checked, h3) = returned-bind (check_load_time_semantics value) _ l h2 in
    let (canonical, shown, h4) = returned-bind (written (canonicalize value)) _ l h3 in
    subst
      (λ x.
        Sound x.value
        × (load source ≡ some x.value)
        × (conforms x.value ≡ true)
        × (x.digest ≡ codes "sha256:" ++ hex_digest x.canonical)
        × (canonicalize x.value ≡ some x.canonical))
      (returned-injective h4)
      (
        check_load_time_semantics-Sound value checked,
        read_inv (load source) value found,
        fits,
        refl,
        written_inv (canonicalize value) canonical shown,
      )

-- The pinned rulebook that a snapshot is built against.
abbrev pub pinned_of : LoadedRulebook → ℤ → Pinned
pinned_of l adopted_at = record {
  digest = l.digest;
  adopted_at = adopted_at;
  evidence = l.value.evidence;
}

-- The parts together: whatever is acquired for a rulebook that loads, a snapshot that is built for it
-- is accepted unchanged against it.
pub load_rulebook_bytes-build_snapshot :
    (load : Text → Option RulebookValue) (conforms : RulebookValue → Bool)
    (canonicalize : RulebookValue → Option Text) (hex_digest : Text → Text) (source : Text)
    (l : LoadedRulebook) (adopted_at : ℤ) (digest : Payload → Text) (admits : Snapshot → Bool)
    (snapshot_id : Text) (frozen_at : Value) (acquisitions : List Value) (s : Snapshot)
    → load_rulebook_bytes load conforms canonicalize hex_digest source ≡ returned l
    → build_snapshot digest admits (pinned_of l adopted_at) snapshot_id frozen_at acquisitions
      ≡ accepted s
    → verify_snapshot_value digest admits s (pinned_of l adopted_at) ≡ accepted s
load_rulebook_bytes-build_snapshot load conforms canonicalize hex_digest source l adopted_at digest
      admits snapshot_id frozen_at acquisitions s h k =
    let sound : Sound l.value =
      (load_rulebook_bytes-Sound load conforms canonicalize hex_digest source l h).0 in
    build_snapshot-verify_snapshot_value digest admits (pinned_of l adopted_at)
      sound.distinct_evidence snapshot_id frozen_at acquisitions s k
