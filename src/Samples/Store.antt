-- ===== src/Samples/Store.antt =====
-- vfy/store.py: one authorization spent, spent again, and spent by two calls at once.
use verify_run.Base.{
  ◌≡◌, refl, ℕ, ◌+◌, ◌≤◌, Bool, true, false, Option, none, some, [], ◌∷◌, Text, codes, text_eq,
}
use verify_run.Base.Attempt.{raised, returned}
use verify_run.Authorization.{Bytes}
use verify_run.Samples.Authorization.{host, frozen, issued}
use verify_run.Store.{StoreFailure, os_error}
use verify_run.Store.Files.{file, link, Disk, find}
use verify_run.Store.Consume.{Call, opening, done, is_consumed, consume_once, consumption_value}
use verify_run.Store.Consume.Once.{SpentOnce, consume_once-returned, consume_once-raised}
use verify_run.Store.Consume.Race.{
  System, Reach, here, next, begins, moves, move, spenders, returners, bit, Reach-spenders,
}
use verify_run.Value.{Value}

abbrev call : Call
call = record {
  digest = codes "1";
  recorded = consumption_value issued.payload;
  payload =
      codes
        "{\"action_digest\":\"sha256:1\",\"authorization_id\":\"a\",\"evidence_digest\":\"2\",\"nonce\":\"n\",\"rulebook_digest\":\"sha256:1\"}";
  consumption = record {
    nonce = codes "n";
    authorization_id = codes "a";
    action_digest = codes "sha256:1";
  };
}

abbrev pub load : Bytes → Option Value
load raw = some (consumption_value issued.payload)

-- The first slot is taken by an abandoned file.
abbrev pub littered : Disk
littered = (codes "tmp/consume-1.0", file []) ∷ []

abbrev spent : Disk
spent = (codes "consumed/1.json", file call.payload) ∷ littered

spends_once :
    consume_once host load (λ phase. true) frozen littered ≡ (spent, returned call.consumption)
unfolding consume_once verify_run.Canon.canonicalize verify_run.Base.text_lt text_eq
    verify_run.Base.Digits.to_digits
spends_once = refl

-- An entry that is no regular file is an entry too.
planted :
    consume_once host load (λ phase. true) frozen ((codes "consumed/1.json", link) ∷ [])
    ≡ ((codes "consumed/1.json", link) ∷ [], raised StoreFailure.path_invalid)
unfolding consume_once verify_run.Canon.canonicalize verify_run.Base.text_lt text_eq
    verify_run.Base.Digits.to_digits
planted = refl

consume_once-returned_example : SpentOnce host load issued.payload littered spent call.consumption
consume_once-returned_example =
    consume_once-returned host load (λ phase. true) frozen littered spent call.consumption
      spends_once

consume_once-raised_example :
    find (codes "tmp/consume-1.0") ((codes "consumed/1.json", link) ∷ [])
    ≡ find (codes "tmp/consume-1.0") ((codes "consumed/1.json", link) ∷ [])
consume_once-raised_example =
    consume_once-raised host load frozen ((codes "consumed/1.json", link) ∷ [])
      ((codes "consumed/1.json", link) ∷ []) StoreFailure.path_invalid planted
      (codes "tmp/consume-1.0")

abbrev start : System
start = record { disk = []; processes = [] }

-- Two calls begin. The first links its record, and then the host refuses to unlink its slot; the second
-- opens a slot.
abbrev raced : System
raced = record {
  disk =
      (codes "consumed/1.json", file call.payload)
      ∷ (codes "tmp/consume-1.0", file call.payload)
      ∷ [];
  processes =
      record { call = call; phase = opening 1; links = 0 }
      ∷ record { call = call; phase = done (raised os_error); links = 1 }
      ∷ [];
}

Reach-raced : Reach host load start raced
unfolding move text_eq verify_run.Base.Digits.to_digits
Reach-raced =
    next
      (next
        (next
          (next (next (next (next here (begins call refl)) (begins call refl)) (moves 1 true refl))
            (moves 1 true refl))
          (moves 1 true refl))
        (moves 1 false refl))
      (moves 0 true refl)

Reach-spenders_example :
    (returners (codes "1") raced.processes ≤ spenders (codes "1") raced.processes)
    × (spenders (codes "1") raced.processes + bit (is_consumed [] (codes "1"))
        ≤ bit (is_consumed raced.disk (codes "1")))
Reach-spenders_example = Reach-spenders host load (codes "1") Reach-raced

-- That call counts, though it raised.
spends_though_raising : spenders (codes "1") raced.processes ≡ 1
unfolding spenders text_eq
spends_though_raising = refl
