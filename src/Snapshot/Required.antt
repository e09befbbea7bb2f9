-- ===== src/Snapshot/Required.antt =====
-- The entries that `build_snapshot` adds for declarations that were not acquired.
use verify_run.Base.{
  ℕ, suc, ◌≡◌, refl, sym, ap, subst, ◌∙◌, true, false, not, ◌&&◌, ◌||◌, List, [], ◌∷◌, Text,
  text_eq, text_eq_refl, All, arith, Bool-cases, inl, inr, ◌==◌,
}
use verify_run.Base.Int.{ℤ, leb_ℤ}
use verify_run.Value.{str}
use verify_run.Context.{Declaration}
use verify_run.Snapshot.{
  accepted, ◌>>=◌, Entry, seen_in, declared, instant_or_raise, seen_after, missing_entry,
  unacquired, check_item, check_items, check_required,
}

-- Every declared id differs from those behind it.
abbrev pub Distinct : List Declaration → Type 0
Distinct [] = Unit
Distinct (d ∷ ds) = All (λ e. text_eq d.id e.id ≡ false) ds × Distinct ds

-- What the checks have seen so far holds the same of the declarations as what was acquired.
abbrev Agrees : List Text → List Text → List Declaration → Type 0
Agrees seen acquired = All (λ d. seen_in d.id seen ≡ seen_in d.id acquired)

Agrees-add :
    (d : Declaration) (seen acquired : List Text) (ds : List Declaration)
    → All (λ e. text_eq d.id e.id ≡ false) ds
    → Agrees seen acquired ds
    → Agrees (d.id ∷ seen) acquired ds
unfolding seen_in
Agrees-add d seen acquired [] h k = tt
Agrees-add d seen acquired (e ∷ ds) h k = (rw h.0 (k.0), Agrees-add d seen acquired ds h.1 k.1)

Agrees-refl : (seen : List Text) (ds : List Declaration) → Agrees seen seen ds
Agrees-refl seen [] = tt
Agrees-refl seen (d ∷ ds) = (refl, Agrees-refl seen ds)

abbrev Known : List Declaration → List Declaration → Type 0
Known all = All (λ d. declared d.id all ≡ true)

module _ (all : List Declaration) (t : ℤ) (frozen_at : Text)
    (read : instant_or_raise (str frozen_at) ≡ accepted (frozen_at, t)) where
  missing-checked :
      (position : ℕ) (seen : List Text) (id : Text)
      → declared id all ≡ true
      → seen_in id seen ≡ false
      → check_item all t position seen (missing_entry frozen_at position id) ≡ accepted tt
  unfolding check_item
  missing-checked position seen id known new =
      let here : position == position ≡ true = ground arith in
      let late : leb_ℤ t t ≡ true = ground arith in rw (known, new, here, read, late) refl

  unacquired-checked :
      (position : ℕ) (seen acquired : List Text) (ds : List Declaration)
      → Known all ds
      → Distinct ds
      → Agrees seen acquired ds
      → check_items all t position seen (unacquired frozen_at position acquired ds) ≡ accepted tt
  unfolding check_items unacquired
  unacquired-checked position seen acquired [] h k l = refl
  unacquired-checked position seen acquired (d ∷ ds) h k l =
      elim (Bool-cases (d.required && not (seen_in d.id acquired))) [
        | inr e ↦ rw (e, unacquired) (unacquired-checked position seen acquired ds h.1 k.1 l.1)
        | inl e ↦
            let new : seen_in d.id seen ≡ false = ground (arith, l.0) in
            rw (e, unacquired)
              (ap
                  (λ x. x >>= λ _.
                    check_items all t (suc position) (d.id ∷ seen)
                      (unacquired frozen_at (suc position) acquired ds))
                  (missing-checked position seen d.id h.0 new)
                ∙ unacquired-checked (suc position) (d.id ∷ seen) acquired ds h.1 k.1
                    (Agrees-add d seen acquired ds k.0 l.1))
      ]

seen_after-kept :
    (id : Text) (seen : List Text) (es : List Entry)
    → seen_in id seen ≡ true
    → seen_in id (seen_after seen es) ≡ true
unfolding seen_in
seen_after-kept id seen [] h = h
seen_after-kept id seen (e ∷ es) h = seen_after-kept id (e.id ∷ seen) es (ground arith)

-- The declaration needs no item, or has one.
abbrev Covered : List Text → List Declaration → Type 0
Covered seen = All (λ d. (not d.required || seen_in d.id seen) ≡ true)

-- Every declaration is covered once the missing ones are added.
unacquired-Covered :
    (frozen_at : Text) (position : ℕ) (seen acquired : List Text) (ds : List Declaration)
    → Distinct ds
    → Agrees seen acquired ds
    → Covered (seen_after seen (unacquired frozen_at position acquired ds)) ds
unfolding unacquired seen_in
unacquired-Covered frozen_at position seen acquired [] k l = tt
unacquired-Covered frozen_at position seen acquired (d ∷ ds) k l =
    elim (Bool-cases (d.required && not (seen_in d.id acquired))) [
      | inl e ↦
          let rest : List Entry = unacquired frozen_at (suc position) acquired ds in
          let same : unacquired frozen_at position acquired (d ∷ ds)
              ≡ missing_entry frozen_at position d.id ∷ rest =
            rw (e, unacquired) refl in
          let here : seen_in d.id (d.id ∷ seen) ≡ true = ground (arith, text_eq_refl d.id) in
          let kept : seen_in d.id (seen_after (d.id ∷ seen) rest) ≡ true =
            seen_after-kept d.id (d.id ∷ seen) rest here in
          subst (λ es. Covered (seen_after seen es) (d ∷ ds)) (sym same)
            (
              ground arith,
              unacquired-Covered frozen_at (suc position) (d.id ∷ seen) acquired ds k.1
                  (Agrees-add d seen acquired ds k.0 l.1),
            )
      | inr e ↦
          let rest : List Entry = unacquired frozen_at position acquired ds in
          let same : unacquired frozen_at position acquired (d ∷ ds) ≡ rest =
            rw (e, unacquired) refl in
          subst (λ es. Covered (seen_after seen es) (d ∷ ds)) (sym same)
            (
              ground (arith, l.0, seen_after-kept d.id seen rest),
              unacquired-Covered frozen_at position seen acquired ds k.1 l.1,
            )
    ]

check_required-accepted :
    (seen : List Text) (ds : List Declaration)
    → Covered seen ds
    → check_required seen ds ≡ accepted tt
unfolding check_required
check_required-accepted seen [] h = refl
check_required-accepted seen (d ∷ ds) h = rw h.0 (check_required-accepted seen ds h.1)

-- A declaration is declared.
Known-add : (d : Declaration) (all ds : List Declaration) → Known all ds → Known (d ∷ all) ds
unfolding declared
Known-add d all [] h = tt
Known-add d all (e ∷ ds) h = (ground (arith, h.0), Known-add d all ds h.1)

Known-refl : (ds : List Declaration) → Known ds ds
unfolding declared
Known-refl [] = tt
Known-refl (d ∷ ds) = (ground (arith, text_eq_refl d.id), Known-add d ds ds (Known-refl ds))

module _ (ds : List Declaration) (distinct : Distinct ds) (t : ℤ) (frozen_at : Text)
    (read : instant_or_raise (str frozen_at) ≡ accepted (frozen_at, t)) (position : ℕ)
    (seen : List Text) where
  pub unacquired-check_items :
      check_items ds t position seen (unacquired frozen_at position seen ds) ≡ accepted tt
  unacquired-check_items =
      unacquired-checked ds t frozen_at read position seen seen ds (Known-refl ds) distinct
        (Agrees-refl seen ds)

  pub unacquired-check_required :
      check_required (seen_after seen (unacquired frozen_at position seen ds)) ds ≡ accepted tt
  unacquired-check_required =
      check_required-accepted _ ds
        (unacquired-Covered frozen_at position seen seen ds distinct (Agrees-refl seen ds))
