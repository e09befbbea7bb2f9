-- ===== src/Snapshot/Accepted.antt =====
-- A snapshot that was built is a snapshot that is accepted.
use verify_run.Base.{
  ◌≡◌, refl, ap, subst, ◌∙◌, Bool, true, List, [], ◌∷◌, ◌++◌, Text, text_eq, text_eq_refl, length,
}
use verify_run.Base.Int.{ℤ, leb_ℤ}
use verify_run.Value.{Value, str}
use verify_run.Snapshot.{
  accepted, Entry, Payload, Snapshot, Pinned, instant_or_raise, collect, seen_after, unacquired,
  check_items, check_required, seal, build_snapshot, verify_snapshot_value,
}
use verify_run.Snapshot.Items.{
  bind-accepted, require-true, accepted-injective, instant-again, collect-check_items,
}
use verify_run.Snapshot.Required.{Distinct, unacquired-check_items, unacquired-check_required}

seen_after-append :
    (seen : List Text) (es fs : List Entry)
    → seen_after seen (es ++ fs) ≡ seen_after (seen_after seen es) fs
seen_after-append seen [] fs = refl
seen_after-append seen (e ∷ es) fs = seen_after-append (e.id ∷ seen) es fs

module _ (digest : Payload → Text) (conforms : Snapshot → Bool) (pinned : Pinned)
    (distinct : Distinct pinned.evidence) where
  -- The snapshot of a payload whose parts pass.
  sealed-verified :
      (payload : Payload) (t : ℤ)
      → conforms (record { payload = payload; snapshot_digest = digest payload }) ≡ true
      → payload.rulebook_digest ≡ pinned.digest
      → instant_or_raise (str payload.frozen_at) ≡ accepted (payload.frozen_at, t)
      → leb_ℤ pinned.adopted_at t ≡ true
      → check_items pinned.evidence t 0 [] payload.items ≡ accepted tt
      → check_required (seen_after [] payload.items) pinned.evidence ≡ accepted tt
      → verify_snapshot_value digest conforms
          (record { payload = payload; snapshot_digest = digest payload })
          pinned
        ≡ accepted (record { payload = payload; snapshot_digest = digest payload })
  unfolding verify_snapshot_value
  sealed-verified payload t fits same read early items required =
      let digests : text_eq payload.rulebook_digest pinned.digest ≡ true =
        subst (λ d. text_eq payload.rulebook_digest d ≡ true) same
          (text_eq_refl payload.rulebook_digest) in
      rw (fits, text_eq_refl (digest payload), digests, read, early, items, required) refl

  -- Whatever is acquired, and however the digest and the schema are, a snapshot that `build_snapshot`
  -- returns passes every check of `verify_snapshot_value` against the same rulebook, and comes back
  -- unchanged, where the rulebook declares no id twice.
  pub build_snapshot-verify_snapshot_value :
      (snapshot_id : Text) (frozen_at : Value) (acquisitions : List Value) (s : Snapshot)
      → build_snapshot digest conforms pinned snapshot_id frozen_at acquisitions ≡ accepted s
      → verify_snapshot_value digest conforms s pinned ≡ accepted s
  unfolding build_snapshot seal
  build_snapshot-verify_snapshot_value snapshot_id frozen_at acquisitions s h =
      let (at, read, h1) = bind-accepted (instant_or_raise frozen_at) _ s h in
      let (early, h2) = require-true (leb_ℤ pinned.adopted_at at.1) _ _ s h1 in
      let (items, made, h3) =
        bind-accepted (collect pinned.evidence at.1 0 [] acquisitions) _ s h2 in
      let seen : List Text = seen_after [] items in
      let added : List Entry = unacquired at.0 (length items) seen pinned.evidence in
      let payload : Payload = record {
        snapshot_id = snapshot_id;
        rulebook_digest = pinned.digest;
        frozen_at = at.0;
        items = items ++ added;
      } in
      let again : instant_or_raise (str at.0) ≡ accepted (at.0, at.1) =
        instant-again frozen_at at read in
      let checked : check_items pinned.evidence at.1 0 [] (items ++ added) ≡ accepted tt =
        collect-check_items pinned.evidence at.1 acquisitions items added made
        ∙ unacquired-check_items pinned.evidence distinct at.1 at.0 again (length items) seen in
      let covered : check_required (seen_after [] (items ++ added)) pinned.evidence ≡ accepted tt =
        ap (λ x. check_required x pinned.evidence) (seen_after-append [] items added)
        ∙ unacquired-check_required pinned.evidence distinct at.1 at.0 again (length items) seen in
      let (fits, h4) =
        require-true (conforms (record { payload = payload; snapshot_digest = digest payload })) _ _
          s h3 in
      subst (λ x. verify_snapshot_value digest conforms x pinned ≡ accepted x)
        (accepted-injective h4) (sealed-verified payload at.1 fits refl again early checked covered)
