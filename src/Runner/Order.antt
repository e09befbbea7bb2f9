-- ===== src/Runner/Order.antt =====
-- The order of the effects of `execute_authorized_command`: what stands behind a process that was
-- started, and what is reported of it.
use verify_run.Base.{
  ◌≡◌, refl, sym, subst, ap, ◌∙◌, ◌⊎◌, inl, inr, Bool, true, false, not, Option, none, some, Text,
  text_eq_refl, Bool-cases,
}
use verify_run.Base.Attempt.{
  Attempt, raised, returned, returned-injective, returned-bind, returned-require,
  returned-raised_as, require, ◌>>=◌,
}
use verify_run.Authorization.{FrozenAuthorization, Host, is_allow}
use verify_run.Authorization.Spending.{Verified, verify_authorization-Verified}
use verify_run.Authorization.Verify.{verify_authorization, consumed}
use verify_run.Receipt.{Receipt, FrozenReceipt, Execution, ReceiptFailure}
use verify_run.Rulebook.{LoadedRulebook}
use verify_run.Runner.{
  Launch, RecordStore, World, Run, ExecutionRecord, RunFailure, Stage, not_consumed,
  recording_failed, escaped, executable_argv, check_environment, check_timeout, check_completion,
  has_binding, completion_instants,
}
use verify_run.Runner.Execute.{
  Ready, record_of, evaluation_of, consumed_view, prepare_run, stored, issued, record_outcome,
  launched, consumed_as, after_checks, execute_authorized_command,
}
use verify_run.Runner.Launched.{
  LaunchOutcome, Spawned, started_by, launch_outcome, launch_result, not_started, refused_arguments,
  interrupted, ended,
}
use verify_run.Schema.Checks.{is_date_time}
use verify_run.Snapshot.{Snapshot}
use verify_run.Store.{StoreFailure}
use verify_run.Store.Consume.{ConsumptionRecord}
use verify_run.Value.{Value, null, bool, int, str, list, dict, Fields}

-- What the run relies on: a call that returns has spent the nonce, and nothing makes it unspent.
pub record Spending {S : Type 0} (records : RecordStore S) : Type 0 where
  pub spends :
      (a : FrozenAuthorization) (s t : S) (r : ConsumptionRecord)
      → records.consume_once a s ≡ (t, returned r)
      → records.is_consumed t a.value.payload.nonce ≡ true
  pub consume_keeps :
      (a : FrozenAuthorization) (s : S) (nonce : Text)
      → records.is_consumed s nonce ≡ true
      → records.is_consumed (records.consume_once a s).0 nonce ≡ true
  pub put_keeps :
      (f : FrozenReceipt) (pinned : LoadedRulebook) (candidate : Fields) (snapshot : Snapshot)
      (a : FrozenAuthorization) (s : S) (nonce : Text)
      → records.is_consumed s nonce ≡ true
      → records.is_consumed (records.put_record f pinned candidate snapshot a s).0 nonce ≡ true
  pub preserve_keeps :
      (f : FrozenReceipt) (s : S) (nonce : Text)
      → records.is_consumed s nonce ≡ true
      → records.is_consumed (records.preserve_unrecorded f s).0 nonce ≡ true

-- What the process did is returned, or carried by the exception.
pub data Reported (o : LaunchOutcome) (out : Attempt RunFailure ExecutionRecord) : Type 0 where
  recorded : (r : ExecutionRecord) → out ≡ returned r → r.outcome ≡ o → Reported o out
  unrecorded :
      (stage : Stage) (receipt : Option FrozenReceipt) (path : Option Text)
      → out ≡ raised (recording_failed stage receipt path o)
      → Reported o out

-- What comes of it: where `_launch` returns, its outcome is reported, that of a process that has ended or
-- that none could be started; where an exception escapes it, that exception is all there is.
unfoldable pub Told : Spawned → Attempt RunFailure ExecutionRecord → Type 0
Told not_started out = Reported (launch_outcome none) out
Told refused_arguments out = out ≡ raised escaped
Told interrupted out = out ≡ raised escaped
Told (ended e) out = Reported (launch_outcome (some e)) out

view-fresh : (b : Bool) (n : Text) → consumed (some (consumed_view b n)) n ≡ false → b ≡ false
view-fresh false n h = refl
view-fresh true n h = cc (text_eq_refl n)

module _ (host : Host) (conforms : Receipt → Bool) (spawn : Launch → Spawned) {S : Type 0}
    (records : RecordStore S) (law : Spending records) (run : Run) where
  abbrev pub nonce : Text
  nonce = run.authorization.value.payload.nonce

  module _ (o : LaunchOutcome) where
    -- Reported, and what was spent still is.
    abbrev Kept : S → S × Attempt RunFailure ExecutionRecord → Type 0
    Kept s x =
        Reported o x.1
        × ((n : Text) → records.is_consumed s n ≡ true → records.is_consumed x.0 n ≡ true)

    stored-Kept :
        (signed : FrozenReceipt) (done : ExecutionRecord)
        → done.outcome ≡ o
        → (x : S × Attempt StoreFailure (Unit {0}))
        → Kept x.0 (stored host conforms spawn records o signed done x)
    stored-Kept signed done e (s, returned u) = (recorded done refl e, λ n h. h)
    stored-Kept signed done e (s, raised f) =
        (unrecorded Stage.store (some signed) _ refl, law.preserve_keeps signed s)

    issued-Kept :
        (ready : Ready) (a : Execution) (s : S) (x : Attempt ReceiptFailure FrozenReceipt)
        → Kept s (issued host conforms spawn records run ready o a s x)
    issued-Kept ready a s (raised f) = (unrecorded Stage.issue none none refl, λ n h. h)
    issued-Kept ready a s (returned signed) =
        let put =
          records.put_record signed run.pinned run.candidate run.snapshot ready.verified s in
        let (reported, kept) = stored-Kept signed (record_of run ready o a signed) refl put in
        (
          reported,
          λ n h.
              kept n
                (law.put_keeps signed run.pinned run.candidate run.snapshot ready.verified s n h),
        )

    -- Once the arguments have passed, no instant is missing but one that a clock fails to give.
    instants-given :
        (a c : Option Text) (clock : Option (Option Value))
        → check_completion a c clock ≡ returned tt
        → ((at : Text × Text) × (completion_instants o a c clock ≡ returned at))
          ⊎ (completion_instants o a c clock
              ≡ raised (recording_failed Stage.acknowledge none none o))
    unfolding check_completion completion_instants
    instants-given (some a) (some c) none h = inl ((a, c), refl)
    instants-given none none (some (some (str t))) h = elim (Bool-cases (is_date_time t)) [
      | inl e ↦ inl ((t, t), rw (e, require, ◌>>=◌) refl)
      | inr e ↦ inr (rw (e, require, ◌>>=◌) refl)
    ]
    instants-given none none (some none) h = inr refl
    instants-given none none (some (some null)) h = inr refl
    instants-given none none (some (some (bool b))) h = inr refl
    instants-given none none (some (some (int z))) h = inr refl
    instants-given none none (some (some (list vs))) h = inr refl
    instants-given none none (some (some (dict f))) h = inr refl
    instants-given (some a) none none h = cc
    instants-given none c none h = cc
    instants-given (some a) c (some clock) h = cc
    instants-given none (some c) (some clock) h = cc

    record_outcome-Kept :
        (ready : Ready) (s : S)
        → check_completion run.acknowledged_at run.receipt_created_at run.completion_clock
          ≡ returned tt
        → Kept s (record_outcome host conforms spawn records run ready o s)
    unfolding record_outcome
    record_outcome-Kept ready s h =
        elim (instants-given run.acknowledged_at run.receipt_created_at run.completion_clock h) [
          | inl (at, e) ↦ rw e (issued-Kept ready _ s _)
          | inr e ↦ rw e (unrecorded Stage.acknowledge none none refl, λ n k. k)
        ]

  -- Every check has passed on the store as it was.
  record Cleared (s : S) (ready : Ready) : Type 0 where
    completion :
        check_completion run.acknowledged_at run.receipt_created_at run.completion_clock
        ≡ returned tt
    argv : executable_argv run.candidate ≡ returned ready.launch.argv
    verifies :
        verify_authorization host run.authorization.value run.pinned run.candidate run.snapshot
          (evaluation_of run.decision)
          run.runtime_id
          (some run.verification_time)
          run.authorization_keys
          (some (consumed_view (records.is_consumed s nonce) nonce))
          false
        ≡ returned ready.verified

  prepare_run-Cleared :
      (s : S) (ready : Ready)
      → prepare_run host conforms spawn records run s ≡ returned ready
      → Cleared s ready
  unfolding prepare_run
  prepare_run-Cleared s ready h =
      let (t, completion, h1) =
        returned-bind
          (check_completion run.acknowledged_at run.receipt_created_at run.completion_clock) _ ready
          h in
      let (allow, h2) = returned-require (is_allow run.decision.outcome) _ _ ready h1 in
      let (argv, executable, h3) = returned-bind (executable_argv run.candidate) _ ready h2 in
      let (directory, h4) = returned-require run.is_directory _ _ ready h3 in
      let (environment, named, h5) = returned-bind (check_environment run.environment) _ ready h4 in
      let (timeout, bounded, h6) = returned-bind (check_timeout run.timeout_seconds) _ ready h5 in
      let (verified, verifies, h7) =
        returned-raised_as _
          (verify_authorization host run.authorization.value run.pinned run.candidate run.snapshot
            (evaluation_of run.decision) run.runtime_id (some run.verification_time)
            run.authorization_keys (some (consumed_view (records.is_consumed s nonce) nonce)) false)
          _ ready h6 in
      let (unbound, h8) = returned-require (not (has_binding run.candidate)) _ _ ready h7 in
      let same = returned-injective h8 in
      record {
        completion = completion;
        argv = executable ∙ ap (λ r. returned r.launch.argv) same;
        verifies = verifies ∙ ap (λ r. returned r.verified) same;
      }

  -- A process was asked for, with the argv of the candidate: the authorization verified for this rulebook,
  -- action and snapshot, its nonce was not spent before and is now, and what came of it is told.
  pub record Attempted (w v : World S) (out : Attempt RunFailure ExecutionRecord) : Type 0 where
    pub ready : Ready
    pub argv : executable_argv run.candidate ≡ returned ready.launch.argv
    pub verified :
        Verified host run.authorization.value run.pinned run.candidate run.snapshot
          (evaluation_of run.decision)
          run.runtime_id
          (some run.verification_time)
          run.authorization_keys
          (some (consumed_view (records.is_consumed w.store nonce) nonce))
          false
          ready.verified
    pub unspent : records.is_consumed w.store nonce ≡ false
    pub spent : records.is_consumed v.store nonce ≡ true
    pub started : v.launched ≡ started_by (spawn ready.launch) ready.launch w.launched
    pub told : Told (spawn ready.launch) out

  -- Nothing was started, and the call raised; the store is as it was, unless it is the store that raised.
  abbrev pub Refused : World S → World S → Attempt RunFailure ExecutionRecord → Type 0
  Refused w v out =
      (v.launched ≡ w.launched)
      × ((f : RunFailure) × (out ≡ raised f)
          × ((v ≡ w) ⊎ ((g : StoreFailure) × (f ≡ not_consumed g))))

  abbrev pub Effects : World S → World S × Attempt RunFailure ExecutionRecord → Type 0
  Effects w x =
      ((n : Text) → records.is_consumed w.store n ≡ true → records.is_consumed x.0.store n ≡ true)
      × (Refused w x.0 x.1 ⊎ Attempted w x.0 x.1)

  launched-Told :
      (ready : Ready) (s : S)
      → check_completion run.acknowledged_at run.receipt_created_at run.completion_clock
        ≡ returned tt
      → (process : Spawned)
      → let x = launched host conforms spawn records run ready s (launch_result process) in
        Told process x.1
        × ((n : Text) → records.is_consumed s n ≡ true → records.is_consumed x.0 n ≡ true)
  unfolding launched launch_result Told
  launched-Told ready s h not_started = record_outcome-Kept (launch_outcome none) ready s h
  launched-Told ready s h refused_arguments = (refl, λ n k. k)
  launched-Told ready s h interrupted = (refl, λ n k. k)
  launched-Told ready s h (ended e) = record_outcome-Kept (launch_outcome (some e)) ready s h

  keeps :
      (w : World S) (ready : Ready) (x : S × Attempt StoreFailure ConsumptionRecord)
      → records.consume_once ready.verified w.store ≡ x
      → (n : Text) → records.is_consumed w.store n ≡ true
      → records.is_consumed x.0 n ≡ true
  keeps w ready x e n h =
      subst (λ y. records.is_consumed y.0 n ≡ true) e (law.consume_keeps ready.verified w.store n h)

  consumed_as-Effects :
      (w : World S) (ready : Ready)
      → Cleared w.store ready
      → (x : S × Attempt StoreFailure ConsumptionRecord)
      → records.consume_once ready.verified w.store ≡ x
      → Effects w (consumed_as host conforms spawn records run ready w.launched x)
  unfolding consumed_as
  consumed_as-Effects w ready c (s, raised f) e =
      (keeps w ready _ e, inl (refl, (not_consumed f, refl, inr (f, refl))))
  consumed_as-Effects w ready c (s, returned r) e =
      let shown =
        verify_authorization-Verified host run.authorization.value run.pinned run.candidate
          run.snapshot (evaluation_of run.decision) run.runtime_id (some run.verification_time)
          run.authorization_keys (some (consumed_view (records.is_consumed w.store nonce) nonce))
          false ready.verified c.verifies in
      let same : ready.verified.value ≡ run.authorization.value = shown.4 in
      let (told, kept) = launched-Told ready s c.completion (spawn ready.launch) in
      (
        λ n h. kept n (keeps w ready _ e n h),
        inr (record {
          ready = ready;
          argv = c.argv;
          verified = shown;
          unspent = view-fresh (records.is_consumed w.store nonce) nonce shown.3;
          spent = kept nonce (
              ap (λ a. records.is_consumed s a.payload.nonce) (sym same)
              ∙ law.spends ready.verified w.store s r e);
          started = refl;
          told = told;
        }),
      )

  -- No call makes a spent nonce unspent. It either starts nothing and raises, leaving the store alone
  -- unless the store itself refused to spend the authorization; or, for an authorization that verifies
  -- and whose nonce it has spent before, it asks for one process. Where that process ends, or `Popen`
  -- raises OSError and none is started, the outcome is reported, by returning it or with
  -- ExecutionRecordingFailed. Where `Popen` raises anything else, and none is started, or an exception
  -- ends the reading of a started process, that exception escapes and nothing is reported. The store is
  -- to spend what it says it spends, and to keep it.
  pub execute_authorized_command-Effects :
      (w : World S) → Effects w (execute_authorized_command host conforms spawn records run w)
  unfolding execute_authorized_command after_checks
  execute_authorized_command-Effects w =
      go (prepare_run host conforms spawn records run w.store) refl
    where
      go :
          (x : Attempt RunFailure Ready)
          → prepare_run host conforms spawn records run w.store ≡ x
          → Effects w (after_checks host conforms spawn records run w x)
      go (raised f) e = (λ n h. h, inl (refl, (f, refl, inl refl)))
      go (returned ready) e =
          consumed_as-Effects w ready (prepare_run-Cleared w.store ready e) _ refl
