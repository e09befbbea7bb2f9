-- ===== src/Store/Consume/Keeps.antt =====
-- No call of `consume_once` makes a spent nonce unspent, whatever the host answers.
use verify_run.Base.{
  ◌≡◌, refl, ap, ◌∙◌, [], ℕ, zero, suc, ◌≤◌, Bool, true, false, Option, none, some, Text, ltb,
  if◌then◌else◌, Bool-cases, inl, inr, arith,
}
use verify_run.Base.Attempt.{Attempt, raised, returned}
use verify_run.Authorization.{Bytes, Host, FrozenAuthorization}
use verify_run.Store.{StoreFailure}
use verify_run.Store.Files.{StoreEntry, file, Disk, find}
use verify_run.Store.Consume.{
  Call, Phase, opening, writing, linking, unlinking, done, consumption_path, slot_path, is_consumed,
  advance, open_exclusive, link_staged, publish, run_calls, prepare, consume_prepared, consume_once,
  outcome,
}
use verify_run.Store.Consume.Race.{bit, entry_stands-put, is_consumed-slot, is_consumed-unlink}
use verify_run.Value.{Value}

module _ (host : Host) (load : Bytes → Option Value) (digest : Text) (call : Call) where
  abbrev Grows : Disk → Disk → Type 0
  Grows d e = bit (is_consumed d digest) ≤ bit (is_consumed e digest)

  same : (d e : Disk) → is_consumed e digest ≡ is_consumed d digest → Grows d e
  same d e h = rw h (omega arith)

  publish-Grows :
      (slot : ℕ) (o : Option StoreEntry) (d : Disk) → Grows d (publish host load call slot o d).0
  unfolding is_consumed find
  publish-Grows slot (some e) d = omega arith
  publish-Grows slot none d = link_staged-Grows (find (slot_path call.digest slot) d)
    where
      link_staged-Grows : (o : Option StoreEntry) → Grows d (link_staged call slot o d).0
      link_staged-Grows none = omega arith
      link_staged-Grows (some e) =
          entry_stands-put (consumption_path digest) (consumption_path call.digest) e d

  open_exclusive-Grows :
      (slot : ℕ) (o : Option StoreEntry) (d : Disk) → Grows d (open_exclusive call slot o d).0
  open_exclusive-Grows slot (some e) d = omega arith
  open_exclusive-Grows slot none d = same d _ (is_consumed-slot digest call.digest slot (file []) d)

  advance-Grows :
      (answer : Bool) (d : Disk) (phase : Phase) → Grows d (advance host load call answer d phase).0
  unfolding advance
  advance-Grows true d (opening slot) = elim (Bool-cases (ltb slot 64)) [
    | inl h ↦ rw (h, if◌then◌else◌) (open_exclusive-Grows slot _ d)
    | inr h ↦ rw (h, if◌then◌else◌) (omega arith)
  ]
  advance-Grows true d (writing slot) =
      same d _ (is_consumed-slot digest call.digest slot (file call.payload) d)
  advance-Grows true d (linking slot) = publish-Grows slot _ d
  advance-Grows true d (unlinking slot out) =
      same d _ (is_consumed-unlink digest call.digest slot d)
  advance-Grows false d (opening slot) = omega arith
  advance-Grows false d (writing slot) = omega arith
  advance-Grows false d (linking slot) = omega arith
  advance-Grows false d (unlinking slot out) = omega arith
  advance-Grows answer d (done out) = omega arith

  run_calls-Grows :
      (answers : Phase → Bool) (fuel : ℕ) (s : Disk × Phase)
      → Grows s.0 (run_calls host load call answers fuel s).0
  unfolding run_calls
  run_calls-Grows answers zero s = omega arith
  run_calls-Grows answers (suc fuel) s = omega (
    arith,
    advance-Grows (answers s.1) s.0 s.1,
    run_calls-Grows answers fuel (advance host load call (answers s.1) s.0 s.1),
  )

outcome-disk : (s : Disk × Phase) → (outcome s).0 ≡ s.0
outcome-disk (d, done out) = refl
outcome-disk (d, opening slot) = refl
outcome-disk (d, writing slot) = refl
outcome-disk (d, linking slot) = refl
outcome-disk (d, unlinking slot out) = refl

bit-true : (b c : Bool) → bit b ≤ bit c → b ≡ true → c ≡ true
bit-true true true h e = refl
bit-true true false h e = absurd (omega arith)
bit-true false c h e = cc

pub consume_once-keeps :
    (host : Host) (load : Bytes → Option Value) (answers : Phase → Bool)
    (authorization : FrozenAuthorization) (d : Disk) (digest : Text)
    → is_consumed d digest ≡ true
    → is_consumed (consume_once host load answers authorization d).0 digest ≡ true
unfolding consume_once
consume_once-keeps host load answers authorization d digest h = go (prepare host authorization)
  where
    go :
        (o : Attempt StoreFailure Call)
        → is_consumed (consume_prepared host load answers d o).0 digest ≡ true
    go (raised f) = h
    go (returned call) =
        let s = run_calls host load call answers 68 (d, opening 0) in
        let grown : is_consumed s.0 digest ≡ true =
          bit-true (is_consumed d digest) (is_consumed s.0 digest)
            (run_calls-Grows host load digest call answers 68 (d, opening 0)) h in
        ap (λ e. is_consumed e digest) (outcome-disk s) ∙ grown
