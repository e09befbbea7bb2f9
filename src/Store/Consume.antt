-- ===== src/Store/Consume.antt =====
-- `consume_once` and `_stage_consumption` of vfy/store.py, as the calls on the file system that they
-- make one after another: between two of them anything else may run. Each call is granted, or fails
-- with an OSError of the host's; `FileExistsError` is not the host's choice.
pub mod Alone
pub mod Race
pub mod Once
pub mod Decides
pub mod Again
pub mod Keeps
use verify_run.Base.{
  ℕ, zero, suc, Bool, true, false, not, Option, none, some, List, [], ◌∷◌, ◌++◌, Text, codes, ltb,
  if◌then◌else◌,
}
use verify_run.Base.Attempt.{Attempt, raised, returned, ◌>>=◌}
use verify_run.Base.Digits.{to_digits}
use verify_run.Authorization.{Bytes, Host, Payload, FrozenAuthorization}
use verify_run.Store.{
  StoreFailure, commit_conflict, record_missing, os_error, unfinished, consumption_conflict,
  nonce_reused, canonical_bytes, nonce_digest, load_canonical,
}
use verify_run.Store.Files.{StoreEntry, file, Disk, find, put, remove}
use verify_run.Value.{Value, str, dict, end, field}
use verify_run.Value.Equal.{py_eq}

-- `ConsumptionRecord`
pub record ConsumptionRecord : Type 0 where
  pub nonce : Text
  pub authorization_id : Text
  pub action_digest : Text

-- What a call holds once its arguments are read: the digest of the nonce, the record and its bytes.
pub record Call : Type 0 where
  pub digest : Text
  pub recorded : Value
  pub payload : Bytes
  pub consumption : ConsumptionRecord

-- Where a call stands: about to open a slot, to write into it, to link it, to unlink it with what it is
-- going to return or raise, or over.
pub data Phase : Type 0 where
  opening writing linking : ℕ → Phase
  unlinking : ℕ → Attempt StoreFailure ConsumptionRecord → Phase
  done : Attempt StoreFailure ConsumptionRecord → Phase

-- `record`
abbrev pub consumption_value : Payload → Value
consumption_value p = dict (
    field (codes "nonce") (str p.nonce) (
      field (codes "authorization_id") (str p.authorization_id) (
        field (codes "action_digest") (str p.action_digest) (
          field (codes "rulebook_digest") (str p.rulebook_digest)
            (field (codes "evidence_digest") (str p.evidence_digest) end)))))

-- `_consumption_path`, from the digest of the nonce
abbrev pub consumption_path : Text → Text
consumption_path digest = codes "consumed/" ++ digest ++ codes ".json"

-- The staging path of one slot.
abbrev pub slot_path : Text → ℕ → Text
slot_path digest slot = codes "tmp/consume-" ++ digest ++ codes "." ++ to_digits slot

-- `is_consumed`, from the digest of the nonce
abbrev pub entry_stands : Option StoreEntry → Bool
entry_stands none = false
entry_stands (some e) = true

unfoldable pub is_consumed : Disk → Text → Bool
unfolding find
is_consumed d digest = entry_stands (find (consumption_path digest) d)

-- `os.open(staged, os.O_CREAT | os.O_EXCL | os.O_WRONLY)`
abbrev pub open_exclusive : Call → ℕ → Option StoreEntry → Disk → Disk × Phase
open_exclusive call slot (some e) d = (d, opening (suc slot))
open_exclusive call slot none d = (put (slot_path call.digest slot) (file []) d, writing slot)

-- `os.link(staged, path)`, of what stands at the staging path
abbrev pub link_staged : Call → ℕ → Option StoreEntry → Disk → Disk × Phase
link_staged call slot none d = (d, unlinking slot (raised commit_conflict))
link_staged call slot (some e) d =
    (put (consumption_path call.digest) e d, unlinking slot (returned call.consumption))

abbrev pub outcome : Disk × Phase → Disk × Attempt StoreFailure ConsumptionRecord
outcome (d, done out) = (d, out)
outcome (d, _) = (d, raised unfinished)

-- What `consume_once` makes of its argument before it touches the file system.
unfoldable pub prepare : Host → FrozenAuthorization → Attempt StoreFailure Call
unfolding canonical_bytes nonce_digest
prepare host authorization =
    let p = authorization.value.payload in
    canonical_bytes host (consumption_value p) >>= λ payload. returned (record {
      digest = nonce_digest host p.nonce;
      recorded = consumption_value p;
      payload = payload;
      consumption = record {
        nonce = p.nonce;
        authorization_id = p.authorization_id;
        action_digest = p.action_digest;
      };
    })

module _ (host : Host) (load_json_bytes : Bytes → Option Value) where
  -- The handler of `FileExistsError`.
  abbrev pub compare_existing :
      Value → Attempt StoreFailure Value → Attempt StoreFailure ConsumptionRecord
  compare_existing recorded (raised f) = raised f
  compare_existing recorded (returned existing) =
      if not (py_eq existing recorded) then raised consumption_conflict else raised nonce_reused

  abbrev pub publish : Call → ℕ → Option StoreEntry → Disk → Disk × Phase
  publish call slot none d = link_staged call slot (find (slot_path call.digest slot) d) d
  publish call slot (some e) d = (
    d,
    unlinking slot (
        compare_existing call.recorded
          (load_canonical host load_json_bytes d (consumption_path call.digest) record_missing)),
  )

  -- One call on the file system.
  unfoldable pub advance : Call → Bool → Disk → Phase → Disk × Phase
  unfolding find put remove load_canonical
  advance call true d (opening slot) =
      if ltb slot 64
      then open_exclusive call slot (find (slot_path call.digest slot) d) d
      else (d, done (raised commit_conflict))
  advance call true d (writing slot) =
      (put (slot_path call.digest slot) (file call.payload) d, linking slot)
  advance call true d (linking slot) = publish call slot (find (consumption_path call.digest) d) d
  advance call true d (unlinking slot out) = (remove (slot_path call.digest slot) d, done out)
  advance call false d (opening slot) = (d, done (raised commit_conflict))
  advance call false d (writing slot) = (d, done (raised os_error))
  advance call false d (linking slot) = (d, unlinking slot (raised commit_conflict))
  advance call false d (unlinking slot out) = (d, done (raised os_error))
  advance call answer d (done out) = (d, done out)

  -- A call that nothing else runs between: the host answers each of its calls.
  unfoldable pub run_calls : Call → (Phase → Bool) → ℕ → Disk × Phase → Disk × Phase
  unfolding advance
  run_calls call answers zero s = s
  run_calls call answers (suc fuel) s =
      run_calls call answers fuel (advance call (answers s.1) s.0 s.1)

  -- `consume_once`: 65 openings at most, and three more calls.
  abbrev pub consume_prepared :
      (Phase → Bool)
      → Disk
      → Attempt StoreFailure Call
      → Disk × Attempt StoreFailure ConsumptionRecord
  consume_prepared answers d (raised f) = (d, raised f)
  consume_prepared answers d (returned call) = outcome (run_calls call answers 68 (d, opening 0))

  unfoldable pub consume_once :
      (Phase → Bool) → FrozenAuthorization → Disk → Disk × Attempt StoreFailure ConsumptionRecord
  unfolding run_calls prepare
  consume_once answers authorization d = consume_prepared answers d (prepare host authorization)
