-- ===== src/Runner/Local.antt =====
-- The store of vfy/store.py as the one that a run asks for. `put_record` is a parameter.
use verify_run.Base.{◌≡◌, ◌∙◌, Bool, true, Option, Text}
use verify_run.Base.Attempt.{Attempt}
use verify_run.Authorization.{Bytes, Host, FrozenAuthorization}
use verify_run.Receipt.{FrozenReceipt}
use verify_run.Rulebook.{LoadedRulebook}
use verify_run.Runner.{RecordStore}
use verify_run.Runner.Order.{Spending}
use verify_run.Snapshot.{Snapshot}
use verify_run.Store.{StoreFailure, nonce_digest}
use verify_run.Store.Consume.{Phase, is_consumed, consume_once}
use verify_run.Store.Consume.Keeps.{consume_once-keeps}
use verify_run.Store.Consume.Once.{consume_once-returned}
use verify_run.Store.Files.{Disk}
use verify_run.Store.Unrecorded.{Answers, preserve_unrecorded, preserve_unrecorded-keeps}
use verify_run.Value.{Value, Fields}

module _ (host : Host) (load : Bytes → Option Value) (consume_answers : Phase → Bool)
    (preserve_answers : Answers)
    (put_record : FrozenReceipt
      → LoadedRulebook
      → Fields
      → Snapshot
      → FrozenAuthorization
      → Disk
      → Disk × Attempt StoreFailure (Unit {0})) where
  -- `LocalStore`, whatever the host answers to its calls
  abbrev pub local_store : RecordStore Disk
  local_store = record {
    is_consumed = λ d nonce. is_consumed d (nonce_digest host nonce);
    consume_once = consume_once host load consume_answers;
    put_record = put_record;
    preserve_unrecorded = preserve_unrecorded host preserve_answers;
  }

  -- The store spends what it says it spends and keeps what is spent, whatever the host answers to its
  -- calls, if committing a record leaves the consumptions alone.
  pub local_store-Spending :
      ((f : FrozenReceipt) (pinned : LoadedRulebook) (candidate : Fields) (snapshot : Snapshot)
          (a : FrozenAuthorization) (d : Disk) (digest : Text)
        → is_consumed d digest ≡ true
        → is_consumed (put_record f pinned candidate snapshot a d).0 digest ≡ true)
      → Spending local_store
  local_store-Spending keeps = record {
    spends = λ a s t r e. (consume_once-returned host load consume_answers a s t r e).1;
    consume_keeps =
        λ a s nonce h. consume_once-keeps host load consume_answers a s (nonce_digest host nonce) h;
    put_keeps = λ f pinned candidate snapshot a s nonce h.
        keeps f pinned candidate snapshot a s (nonce_digest host nonce) h;
    preserve_keeps = λ f s nonce h.
        preserve_unrecorded-keeps host preserve_answers f s (nonce_digest host nonce) ∙ h;
  }
