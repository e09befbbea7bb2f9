-- ===== src/Store/Consume/Alone.antt =====
-- One call of `consume_once` with nothing else in between: what it leaves behind, whatever the host
-- answers, and what it comes to where the host grants every call.
use verify_run.Base.{
  ℕ, zero, suc, Bool, true, false, Option, none, some, Text, text_eq, text_eq_iff, ltb,
  if◌then◌else◌, ◌≡◌, refl, sym, Bool-cases, inl, inr, ◌∙◌,
}
use verify_run.Base.Attempt.{Attempt, raised, returned}
use verify_run.Authorization.{Bytes, Host}
use verify_run.Store.{StoreFailure, commit_conflict, record_missing, load_canonical}
use verify_run.Store.Files.{
  StoreEntry, file, Disk, find, put, remove, find-put, find-put_same, find-remove, find-remove_same,
}
use verify_run.Store.Consume.{
  Call, Phase, opening, writing, linking, unlinking, done, ConsumptionRecord, consumption_path,
  slot_path, advance, open_exclusive, link_staged, publish, run_calls,
}
use verify_run.Store.Consume.Race.{compare_existing-raises}
use verify_run.Value.{Value}

never : false ≡ true → ⊥
never h = cc

module _ (call : Call) (before : Disk) where
  -- The slot was free, and nothing but the slot has changed.
  abbrev pub Staged : ℕ → Disk → Type 0
  Staged slot d =
      (find (slot_path call.digest slot) before ≡ none)
      × ((q : Text) → text_eq q (slot_path call.digest slot) ≡ false → find q d ≡ find q before)

  -- The nonce was not spent and now is, by this record, and this is the record that is returned.
  abbrev pub Spent : Disk → ConsumptionRecord → Type 0
  Spent d r =
      (find (consumption_path call.digest) before ≡ none)
      × (find (consumption_path call.digest) d ≡ some (file call.payload))
      × (r ≡ call.consumption)

  abbrev pub At : Bool → Disk → Phase → Type 0
  At granted d (opening slot) = d ≡ before
  At granted d (writing slot) = Staged slot d
  At granted d (linking slot) =
      Staged slot d × (find (slot_path call.digest slot) d ≡ some (file call.payload))
  At granted d (unlinking slot (returned r)) =
      (find (slot_path call.digest slot) before ≡ none)
      × Spent d r
      × ((q : Text)
          → text_eq q (slot_path call.digest slot) ≡ false
          → text_eq q (consumption_path call.digest) ≡ false
          → find q d ≡ find q before)
  At granted d (unlinking slot (raised f)) = Staged slot d
  At granted d (done (returned r)) =
      Spent d r
      × ((q : Text) → text_eq q (consumption_path call.digest) ≡ false → find q d ≡ find q before)
  At true d (done (raised f)) = (q : Text) → find q d ≡ find q before
  At false d (done (raised f)) = Unit

  apart : (slot : ℕ) → text_eq (consumption_path call.digest) (slot_path call.digest slot) ≡ false
  unfolding text_eq
  apart slot = refl

  apart_back :
      (slot : ℕ) → text_eq (slot_path call.digest slot) (consumption_path call.digest) ≡ false
  unfolding text_eq
  apart_back slot = refl

  put-Staged :
      (slot : ℕ) (e : StoreEntry) (d : Disk)
      → Staged slot d
      → Staged slot (put (slot_path call.digest slot) e d)
  put-Staged slot e d (free, same) =
      (free, λ q ne. find-put q (slot_path call.digest slot) e d ne ∙ same q ne)

  -- Unlinking the slot takes back what was staged.
  remove-Staged :
      (slot : ℕ) (d : Disk)
      → Staged slot d
      → (q : Text) → find q (remove (slot_path call.digest slot) d) ≡ find q before
  remove-Staged slot d (free, same) q = elim (Bool-cases (text_eq q (slot_path call.digest slot))) [
    | inl h ↦
        let at_slot : q ≡ slot_path call.digest slot =
          (text_eq_iff q (slot_path call.digest slot)).0 h in
        rw at_slot (find-remove_same (slot_path call.digest slot) d ∙ sym free)
    | inr h ↦ find-remove q (slot_path call.digest slot) d h ∙ same q h
  ]

  raised_At :
      (granted : Bool) (d : Disk) (f : StoreFailure)
      → ((q : Text) → find q d ≡ find q before)
      → At granted d (done (raised f))
  raised_At true d f same = same
  raised_At false d f same = tt

  open_exclusive-At :
      (granted : Bool) (slot : ℕ) (o : Option StoreEntry)
      → find (slot_path call.digest slot) before ≡ o
      → let s = open_exclusive call slot o before in At granted s.0 s.1
  open_exclusive-At granted slot (some e) h = refl
  open_exclusive-At granted slot none h = put-Staged slot _ before (h, λ q ne. refl)

  linked-At :
      (granted : Bool) (slot : ℕ) (d : Disk)
      → At granted d (linking slot)
      → find (consumption_path call.digest) d ≡ none
      → At granted
          (put (consumption_path call.digest) (file call.payload) d)
          (unlinking slot (returned call.consumption))
  linked-At granted slot d ((free, same), content) absent = (
    free,
    (
      sym (same _ (apart slot)) ∙ absent,
      find-put_same (consumption_path call.digest) (file call.payload) d,
      refl,
    ),
    λ q ne other. find-put q (consumption_path call.digest) _ d other ∙ same q ne,
  )

  module _ (host : Host) (load : Bytes → Option Value) where
    publish-At :
        (granted : Bool) (slot : ℕ) (d : Disk) (o : Option StoreEntry)
        → At granted d (linking slot)
        → find (consumption_path call.digest) d ≡ o
        → let s = publish host load call slot o d in At granted s.0 s.1
    publish-At granted slot d none at absent =
        rw (at.1, link_staged) (linked-At granted slot d at absent)
    publish-At granted slot d (some e) at there =
        let existing = load_canonical host load d (consumption_path call.digest) record_missing in
        let (f, raises) = compare_existing-raises host load call.recorded existing in
        rw (raises) (at.0)

    unlink-At :
        (granted : Bool) (slot : ℕ) (d : Disk) (out : Attempt StoreFailure ConsumptionRecord)
        → At granted d (unlinking slot out)
        → At granted (remove (slot_path call.digest slot) d) (done out)
    unlink-At granted slot d (raised f) at = raised_At granted _ f (remove-Staged slot d at)
    unlink-At granted slot d (returned r) (free, (unspent, there, e), same) = (
      (
        unspent,
        find-remove (consumption_path call.digest) (slot_path call.digest slot) d (apart slot)
            ∙ there,
        e,
      ),
      λ q ne. elim (Bool-cases (text_eq q (slot_path call.digest slot))) [
        | inl h ↦
            let at_slot : q ≡ slot_path call.digest slot =
              (text_eq_iff q (slot_path call.digest slot)).0 h in
            rw at_slot (find-remove_same (slot_path call.digest slot) d ∙ sym free)
        | inr h ↦ find-remove q (slot_path call.digest slot) d h ∙ same q h ne
      ],
    )

    advance-At :
        (granted answer : Bool) (d : Disk) (phase : Phase)
        → (granted ≡ true → answer ≡ true)
        → At granted d phase
        → let s = advance host load call answer d phase in At granted s.0 s.1
    unfolding advance
    advance-At granted true d (opening slot) ok at = elim (Bool-cases (ltb slot 64)) [
      | inl h ↦ rw (h, if◌then◌else◌, at) (open_exclusive-At granted slot _ refl)
      | inr h ↦ rw (h, if◌then◌else◌, at) (raised_At granted before commit_conflict (λ q. refl))
    ]
    advance-At granted true d (writing slot) ok at =
        (put-Staged slot _ d at, find-put_same (slot_path call.digest slot) (file call.payload) d)
    advance-At granted true d (linking slot) ok at = publish-At granted slot d _ at refl
    advance-At granted true d (unlinking slot out) ok at = unlink-At granted slot d out at
    advance-At granted true d (done out) ok at = at
    advance-At true false d phase ok at = absurd (never (ok refl))
    advance-At false false d (opening slot) ok at = tt
    advance-At false false d (writing slot) ok at = tt
    advance-At false false d (linking slot) ok at = at.0
    advance-At false false d (unlinking slot out) ok at = tt
    advance-At false false d (done out) ok at = at

    pub run-At :
        (granted : Bool) (answers : Phase → Bool) (fuel : ℕ) (s : Disk × Phase)
        → (granted ≡ true → (phase : Phase) → answers phase ≡ true)
        → At granted s.0 s.1
        → let t = run_calls host load call answers fuel s in At granted t.0 t.1
    unfolding run_calls
    run-At granted answers zero s ok at = at
    run-At granted answers (suc fuel) s ok at =
        run-At granted answers fuel (advance host load call (answers s.1) s.0 s.1) ok
          (advance-At granted (answers s.1) s.0 s.1 (λ h. ok h s.1) at)
