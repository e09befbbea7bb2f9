-- ===== src/Authorization/Unique.antt =====
-- The registry that `build_key_registry` of vfy/authorization.py builds.
use verify_run.Base.{
  not-true, inl, inr, ◌≡◌, refl, sym, ap, subst, ◌∙◌, Bool, true, false, not, ◌||◌, Option, none,
  some, List, [], ◌∷◌, Text, text_eq, text_eq_iff, text_eq_refl, text_mem, length, ◌==◌, ==_iff,
  Bool-cases, arith,
}
use verify_run.Base.Int.{ℤ, eq_of_parts}
use verify_run.Base.Attempt.{returned, returned-injective, returned-require}
use verify_run.Authorization.{Identity}
use verify_run.Authorization.Registry.{
  Key, KeyEntry, KeyRegistry, identity_eq, find_key, is_some, public_keys, is_status, key_of,
  register, build_key_registry,
}

pub identity_eq_sound : (i j : Identity) → identity_eq i j ≡ true → i ≡ j
unfolding identity_eq
identity_eq_sound i j h =
    identity_path i.key_id j.key_id i.key_version j.key_version
      ((text_eq_iff i.key_id j.key_id).0 (ground (h, arith)))
      (eq_of_parts i.key_version j.key_version (ground (h, arith)))
  where
    identity_path :
        (a b : Text) (v w : ℤ)
        → a ≡ b
        → v ≡ w
        → ◌≡◌ {A = Identity}
            (record { key_id = a; key_version = v })
            (record { key_id = b; key_version = w })
    identity_path a b v w p q = cc

pub identity_eq_refl : (i : Identity) → identity_eq i i ≡ true
unfolding identity_eq
identity_eq_refl i = ground (arith, text_eq_refl i.key_id)

-- The invariant of the loop: identities and public keys are distinct, a public key has 32 bytes and
-- a status is one of the three.
pub WellFormed : KeyRegistry → Type 0
WellFormed [] = Unit
WellFormed (r ∷ registry) =
    (find_key r.0 registry ≡ none)
    × (text_mem r.1.public_key (public_keys registry) ≡ false)
    × (length r.1.public_key ≡ 32)
    × (is_status r.1.status ≡ true)
    × WellFormed registry

some_key : {k l : Key} → some k ≡ some l → k ≡ l
some_key {k} e = ap (λ o. elim o [ some x ↦ x | none ↦ k ]) e

not_there : (o : Option Key) → not (is_some o) ≡ true → o ≡ none
not_there none h = refl
not_there (some k) h = cc

register-WellFormed :
    (registry out : KeyRegistry) (entries : List KeyEntry)
    → WellFormed registry
    → register registry entries ≡ returned out
    → WellFormed out
unfolding register WellFormed
register-WellFormed registry out [] w h = subst WellFormed (returned-injective h) w
register-WellFormed registry out (e ∷ entries) w h =
    let (new, h1) = returned-require (not (is_some (find_key e.identity registry))) _ _ out h in
    let (long, h2) = returned-require (length e.public_key == 32) _ _ out h1 in
    let (other, h3) =
      returned-require (not (text_mem e.public_key (public_keys registry))) _ _ out h2 in
    let (known, h4) = returned-require (is_status (key_of e).status) _ _ out h3 in
    register-WellFormed ((e.identity, key_of e) ∷ registry) out entries
      (
        not_there (find_key e.identity registry) new,
        not-true _ other,
        (==_iff (length e.public_key) 32).0 long,
        known,
        w,
      )
      h4

-- What a registry finds is one of its keys.
found-key :
    (i : Identity) (registry : KeyRegistry) (k : Key)
    → find_key i registry ≡ some k
    → text_mem k.public_key (public_keys registry) ≡ true
unfolding find_key
found-key i [] k h = cc
found-key i (r ∷ registry) k h = elim (Bool-cases (identity_eq r.0 i)) [
  | inl q ↦
      subst (λ l. text_mem l.public_key (public_keys (r ∷ registry)) ≡ true) (some_key (rw q at h))
        (rw (text_eq_refl r.1.public_key) refl)
  | inr q ↦
      or_right (text_eq k.public_key r.1.public_key) (text_mem k.public_key (public_keys registry))
        (found-key i registry k (rw q at h))
]
  where
    or_right : (a b : Bool) → b ≡ true → (a || b) ≡ true
    or_right true b h = refl
    or_right false b h = h

-- Two identities of a well-formed registry with one public key are one identity.
WellFormed-one :
    (registry : KeyRegistry) (i j : Identity) (k l : Key)
    → WellFormed registry
    → find_key i registry ≡ some k
    → find_key j registry ≡ some l
    → k.public_key ≡ l.public_key
    → i ≡ j
unfolding WellFormed find_key
WellFormed-one [] i j k l w h g e = cc
WellFormed-one (r ∷ registry) i j k l (new, other, long, known, w) h g e =
    elim (Bool-cases (identity_eq r.0 i)) [
      | inl p ↦ elim (Bool-cases (identity_eq r.0 j)) [
        | inl q ↦ sym (identity_eq_sound r.0 i p) ∙ identity_eq_sound r.0 j q
        | inr q ↦ absurd (
            clash r registry l other (found-key j registry l (rw q at g))
              (sym e ∙ sym (ap (λ x. x.public_key) (some_key (rw p at h)))))
      ]
      | inr p ↦ elim (Bool-cases (identity_eq r.0 j)) [
        | inl q ↦ absurd (
            clash r registry k other (found-key i registry k (rw p at h))
              (e ∙ sym (ap (λ x. x.public_key) (some_key (rw q at g)))))
        | inr q ↦ WellFormed-one registry i j k l w (rw p at h) (rw q at g) e
      ]
    ]
  where
    clash :
        (r : Identity × Key) (registry : KeyRegistry) (m : Key)
        → text_mem r.1.public_key (public_keys registry) ≡ false
        → text_mem m.public_key (public_keys registry) ≡ true
        → m.public_key ≡ r.1.public_key
        → ⊥
    clash r registry m absent there same = cc

-- In a registry that `build_key_registry` returns, two identities that carry the same public key are
-- the same identity.
pub build_key_registry-one_identity :
    (entries : List KeyEntry) (registry : KeyRegistry) (i j : Identity) (k l : Key)
    → build_key_registry entries ≡ returned registry
    → find_key i registry ≡ some k
    → find_key j registry ≡ some l
    → k.public_key ≡ l.public_key
    → i ≡ j
unfolding build_key_registry WellFormed
build_key_registry-one_identity entries registry i j k l h f g e =
    WellFormed-one registry i j k l (register-WellFormed [] registry entries tt h) f g e
