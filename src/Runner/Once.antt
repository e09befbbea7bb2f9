-- ===== src/Runner/Once.antt =====
-- Runs of `execute_authorized_command` one after the other, on what each leaves behind.
use verify_run.Base.{
  ◌≡◌, sym, ap, ◌∙◌, inl, inr, ◌+◌, ◌≤◌, Bool, List, [], ◌∷◌, Text, length, length-append, All,
  arith,
}
use verify_run.Authorization.{Host}
use verify_run.Receipt.{Receipt}
use verify_run.Runner.{Launch, RecordStore, World, Run}
use verify_run.Runner.Execute.{execute_authorized_command}
use verify_run.Runner.Launched.{
  Spawned, not_started, refused_arguments, interrupted, ended, started_by,
}
use verify_run.Runner.Order.{Spending, execute_authorized_command-Effects}
use verify_run.Store.Consume.Race.{bit, bit_mono}

started_by-length :
    (process : Spawned) (launch : Launch) (before : List Launch)
    → length (started_by process launch before) ≤ length before + 1
unfolding started_by
started_by-length not_started launch before = omega arith
started_by-length refused_arguments launch before = omega arith
started_by-length interrupted launch before = omega (arith, length-append before (launch ∷ []))
started_by-length (ended e) launch before = omega (arith, length-append before (launch ∷ []))

module _ (host : Host) (conforms : Receipt → Bool) (spawn : Launch → Spawned) {S : Type 0}
    (records : RecordStore S) where
  abbrev pub run_all : List Run → World S → World S
  run_all [] w = w
  run_all (run ∷ runs) w =
      run_all runs (execute_authorized_command host conforms spawn records run w).0

  module _ (law : Spending records) where
    one_run :
        (n : Text) (run : Run) (w : World S)
        → run.authorization.value.payload.nonce ≡ n
        → let v = (execute_authorized_command host conforms spawn records run w).0 in
          length v.launched + bit (records.is_consumed w.store n)
          ≤ length w.launched + bit (records.is_consumed v.store n)
    one_run n run w same =
        let v = (execute_authorized_command host conforms spawn records run w).0 in
        let (kept, effects) =
          execute_authorized_command-Effects host conforms spawn records law run w in
        elim effects [
          | inl (idle, raises) ↦ omega (
            arith,
            ap length idle,
            bit_mono (records.is_consumed w.store n) (records.is_consumed v.store n) (kept n),
          )
          | inr attempted ↦
              let before : bit (records.is_consumed w.store n) ≡ 0 =
                ap (λ m. bit (records.is_consumed w.store m)) (sym same)
                ∙ ap bit attempted.unspent in
              let after : bit (records.is_consumed v.store n) ≡ 1 =
                ap (λ m. bit (records.is_consumed v.store m)) (sym same) ∙ ap bit attempted.spent in
              omega (
                arith,
                before,
                after,
                ap length attempted.started,
                started_by-length (spawn attempted.ready.launch) attempted.ready.launch w.launched,
              )
        ]

    -- However often it is asked to run with one nonce, and with whatever arguments, one process is started
    -- at most, and none where the nonce was spent before.
    pub run_all-once :
        (n : Text) (runs : List Run) (w : World S)
        → All (λ run. run.authorization.value.payload.nonce ≡ n) runs
        → length (run_all runs w).launched + bit (records.is_consumed w.store n)
          ≤ length w.launched + bit (records.is_consumed (run_all runs w).store n)
    run_all-once n [] w h = omega arith
    run_all-once n (run ∷ runs) w h =
        let v = (execute_authorized_command host conforms spawn records run w).0 in
        omega (arith, one_run n run w h.0, run_all-once n runs v h.1)
