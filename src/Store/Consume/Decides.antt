-- ===== src/Store/Consume/Decides.antt =====
-- What a call of `consume_once` comes to where the host grants its calls, a staging slot is free and
-- nothing runs in between: the one decision that it takes; and the call after it.
use verify_run.Base.{
  ℕ, zero, suc, ◌+◌, ◌≤◌, ◌<◌, ◌≡◌, refl, sym, ap, ◌∙◌, Bool, true, Option, none, some, [], Text,
  text_eq, ltb, if◌then◌else◌, Option-cases, inl, inr, arith,
}
use verify_run.Base.Attempt.{Attempt, returned}
use verify_run.Authorization.{Bytes, Host, FrozenAuthorization}
use verify_run.Store.{
  StoreFailure, record_missing, load_canonical, require_store_file, read_store_file,
}
use verify_run.Store.Files.{StoreEntry, file, Disk, find, put, find-put, find-put_same}
use verify_run.Store.Consume.{
  Call, Phase, opening, writing, linking, unlinking, done, ConsumptionRecord, consumption_path,
  slot_path, advance, open_exclusive, link_staged, publish, compare_existing, run_calls, outcome,
  prepare, consume_once,
}
use verify_run.Value.{Value}

load_canonical-find :
    (host : Host) (load : Bytes → Option Value) (d e : Disk) (path : Text) (absent : StoreFailure)
    → find path d ≡ find path e
    → load_canonical host load d path absent ≡ load_canonical host load e path absent
unfolding load_canonical require_store_file read_store_file
load_canonical-find host load d e path absent same = rw same refl

module _ (host : Host) (load : Bytes → Option Value) (call : Call) where
  -- Return the record where there is no entry, and compare the one that there is.
  abbrev pub decision : Option StoreEntry → Disk → Attempt StoreFailure ConsumptionRecord
  decision none d = returned call.consumption
  decision (some e) d =
      compare_existing host load call.recorded
        (load_canonical host load d (consumption_path call.digest) record_missing)

  decision-find :
      (o : Option StoreEntry) (e d : Disk)
      → find (consumption_path call.digest) e ≡ find (consumption_path call.digest) d
      → decision o e ≡ decision o d
  decision-find none e d same = refl
  decision-find (some f) e d same =
      rw (load_canonical-find host load e d (consumption_path call.digest) record_missing same) refl

  abbrev granted : Phase → Bool
  granted phase = true

  run-over :
      (fuel : ℕ) (d : Disk) (out : Attempt StoreFailure ConsumptionRecord)
      → (run_calls host load call granted fuel (d, done out)).1 ≡ done out
  unfolding run_calls advance
  run-over zero d out = refl
  run-over (suc fuel) d out = run-over fuel d out

  run-unlinking :
      (fuel slot : ℕ) (d : Disk) (out : Attempt StoreFailure ConsumptionRecord)
      → (run_calls host load call granted (suc fuel) (d, unlinking slot out)).1 ≡ done out
  unfolding run_calls advance
  run-unlinking fuel slot d out = run-over fuel _ out

  run-publish :
      (fuel slot : ℕ) (d : Disk) (o : Option StoreEntry)
      → find (slot_path call.digest slot) d ≡ some (file call.payload)
      → (run_calls host load call granted (suc fuel) (publish host load call slot o d)).1
        ≡ done (decision o d)
  run-publish fuel slot d none staged =
      rw (staged, link_staged) (run-unlinking fuel slot _ (returned call.consumption))
  run-publish fuel slot d (some e) staged = run-unlinking fuel slot d (decision (some e) d)

  -- From the write on, with the slot open.
  run-writing :
      (fuel slot : ℕ) (d : Disk)
      → (run_calls host load call granted (suc (suc (suc fuel))) (d, writing slot)).1
        ≡ done (decision (find (consumption_path call.digest) d) d)
  unfolding run_calls advance text_eq
  run-writing fuel slot d =
      let e = put (slot_path call.digest slot) (file call.payload) d in
      let same : find (consumption_path call.digest) e ≡ find (consumption_path call.digest) d =
        find-put (consumption_path call.digest) (slot_path call.digest slot) (file call.payload) d
          refl in
      run-publish fuel slot e _ (find-put_same (slot_path call.digest slot) (file call.payload) d)
      ∙ ap done (
          ap (λ o. decision o e) same
          ∙ decision-find (find (consumption_path call.digest) d) e d same)

  in_range : (slot : ℕ) → slot < 64 → ltb slot 64 ≡ true
  in_range slot h = ground arith

  advance-opening :
      (slot : ℕ) (d : Disk)
      → slot < 64
      → advance host load call true d (opening slot)
        ≡ open_exclusive call slot (find (slot_path call.digest slot) d) d
  unfolding advance
  advance-opening slot d below = rw (in_range slot below, if◌then◌else◌) refl

  run-free :
      (fuel slot : ℕ) (d : Disk)
      → slot < 64
      → find (slot_path call.digest slot) d ≡ none
      → (run_calls host load call granted (suc (suc (suc (suc fuel)))) (d, opening slot)).1
        ≡ done (decision (find (consumption_path call.digest) d) d)
  unfolding run_calls advance text_eq
  run-free fuel slot d below free =
      let e = put (slot_path call.digest slot) (file []) d in
      let same : find (consumption_path call.digest) e ≡ find (consumption_path call.digest) d =
        find-put (consumption_path call.digest) (slot_path call.digest slot) (file []) d refl in
      let opened = advance-opening slot d below ∙ ap (λ o. open_exclusive call slot o d) free in
      ap (λ t. (run_calls host load call granted (suc (suc (suc fuel))) t).1) opened
      ∙ (run-writing fuel slot e
          ∙ ap done (
              ap (λ o. decision o e) same
              ∙ decision-find (find (consumption_path call.digest) d) e d same))

  -- The slots before the one that is free are passed over.
  run-opening :
      (n fuel slot : ℕ) (d : Disk)
      → n ≤ fuel
      → slot + n < 64
      → find (slot_path call.digest (slot + n)) d ≡ none
      → (run_calls host load call granted (suc (suc (suc (suc fuel)))) (d, opening slot)).1
        ≡ done (decision (find (consumption_path call.digest) d) d)
  unfolding run_calls advance
  run-opening zero fuel slot d enough below free =
      let here : slot ≡ slot + 0 = omega arith in
      run-free fuel slot d (omega arith) (ap (λ k. find (slot_path call.digest k) d) here ∙ free)
  run-opening (suc n) zero slot d enough below free = absurd (omega arith)
  run-opening (suc n) (suc fuel) slot d enough below free =
      elim (Option-cases (find (slot_path call.digest slot) d)) [
        | inl h ↦ run-free (suc fuel) slot d (omega arith) h
        | inr (e, h) ↦
            let shifted : slot + suc n ≡ suc slot + n = omega arith in
            let opened =
              advance-opening slot d (omega arith) ∙ ap (λ o. open_exclusive call slot o d) h in
            ap (λ t. (run_calls host load call granted (suc (suc (suc (suc fuel)))) t).1) opened
            ∙ (run-opening n fuel (suc slot) d (omega arith) (omega arith)
                (ap (λ k. find (slot_path call.digest k) d) (sym shifted) ∙ free))
      ]

outcome-done :
    (s : Disk × Phase) (out : Attempt StoreFailure ConsumptionRecord)
    → s.1 ≡ done out
    → (outcome s).1 ≡ out
outcome-done (d, done r) out h = done_injective h
  where
    done_injective : {a b : Attempt StoreFailure ConsumptionRecord} → done a ≡ done b → a ≡ b
    done_injective {a} e = ap (λ p. elim p [ done r ↦ r | _ ↦ a ]) e
outcome-done (d, opening slot) out h = cc
outcome-done (d, writing slot) out h = cc
outcome-done (d, linking slot) out h = cc
outcome-done (d, unlinking slot r) out h = cc

module _ (host : Host) (load : Bytes → Option Value) (authorization : FrozenAuthorization)
    (call : Call) (d : Disk) (slot : ℕ) where
  -- Where the host grants its calls and one of the 64 slots is free, the authorization is spent if no
  -- entry stands under its nonce; otherwise the entry is loaded and compared.
  pub consume_once-decides :
      prepare host authorization ≡ returned call
      → slot < 64
      → find (slot_path call.digest slot) d ≡ none
      → (consume_once host load (λ phase. true) authorization d).1
        ≡ decision host load call (find (consumption_path call.digest) d) d
  unfolding consume_once
  consume_once-decides prepared below free =
      let here : 0 + slot ≡ slot = omega arith in
      rw prepared (
        outcome-done (run_calls host load call (λ phase. true) 68 (d, opening 0)) _ (
          run-opening host load call slot 64 0 d (omega arith) (omega arith)
            (ap (λ k. find (slot_path call.digest k) d) here ∙ free)))
