-- ===== src/Snapshot.antt =====
-- vfy/snapshot.py: building a frozen snapshot out of acquired evidence, and accepting a snapshot that
-- was not built here. The digest of a payload and the validation against the snapshot's schema are
-- parameters.
pub mod Items
pub mod Required
pub mod Accepted
pub mod Valid
use verify_run.Base.{
  ℕ, zero, suc, Bool, true, false, not, ◌&&◌, ◌||◌, Option, none, some, List, [], ◌∷◌, ◌++◌, Text,
  codes, text_eq, length, if◌then◌else◌, ◌==◌,
}
use verify_run.Base.Int.{ℤ, leb_ℤ}
use verify_run.Value.{Value, str, dict, Fields, end, field, get}
use verify_run.Instant.{instant}
use verify_run.Context.{Status, ok, missing, stale, error, Declaration}

pub data Rejection : Type 0 where
  rulebook_not_adopted evidence_order_invalid snapshot_item_invalid : Rejection
  snapshot_digest_mismatch snapshot_rulebook_mismatch snapshot_schema_invalid : Rejection
  snapshot_item_undeclared snapshot_item_missing : Text → Rejection
  duplicate : Text → ℕ → Rejection

-- A value, or the exception raised.
pub data Checked (A : Type 0) : Type 0 where
  rejected : Rejection → Checked A
  accepted : A → Checked A

infixl 20 ◌>>=◌
abbrev pub ◌>>=◌ : {A B : Type 0} → Checked A → (A → Checked B) → Checked B
(rejected r) >>= f = rejected r
(accepted a) >>= f = f a

abbrev pub require : Bool → Rejection → Checked Unit
require true r = accepted tt
require false r = rejected r

-- An acquisition that has the shape asked for.
pub record Acquisition : Type 0 where
  pub id : Text
  pub status : Status
  pub acquired_at : Value
  pub value : Option Value

-- An item of the snapshot.
pub record Entry : Type 0 where
  pub id : Text
  pub order : ℕ
  pub status : Status
  pub acquired_at : Text
  pub value : Option Value
  pub value_digest : Option Text

pub record Payload : Type 0 where
  pub snapshot_id : Text
  pub rulebook_digest : Text
  pub frozen_at : Text
  pub items : List Entry

pub record Snapshot : Type 0 where
  pub payload : Payload
  pub snapshot_digest : Text

-- What is read of a pinned rulebook. Its loader guarantees that `adopted_at` is a date-time: the
-- instant is kept. It also guarantees that the declared ids are distinct.
pub record Pinned : Type 0 where
  pub digest : Text
  pub adopted_at : ℤ
  pub evidence : List Declaration

-- `identifier in seen` and `identifier in declarations`
unfoldable pub seen_in : Text → List Text → Bool
seen_in id [] = false
seen_in id (x ∷ seen) = text_eq x id || seen_in id seen

unfoldable pub declared : Text → List Declaration → Bool
declared id [] = false
declared id (d ∷ ds) = text_eq d.id id || declared id ds

-- `acquisition["status"] not in STATUSES`
abbrev status_named : Text → Option Status
status_named s =
    if text_eq s (codes "ok")
    then some ok
    else if text_eq s (codes "missing")
    then some missing
    else if text_eq s (codes "stale")
    then some stale
    else if text_eq s (codes "error")
    then some error
    else none

abbrev status_of : Value → Option Status
status_of (str s) = status_named s
status_of _ = none

-- `_ACQUISITION_PERMITTED`
abbrev permitted : Text → Bool
permitted k =
    text_eq k (codes "id")
    || text_eq k (codes "status")
    || text_eq k (codes "acquired_at")
    || text_eq k (codes "value")

only_permitted : Fields → Bool
only_permitted end = true
only_permitted (field k v rest) = permitted k && only_permitted rest

abbrev with_status : Text → Value → Option Value → Option Status → Checked Acquisition
with_status id acquired_at value none = rejected snapshot_item_invalid
with_status id acquired_at value (some status) =
    accepted (record { id = id; status = status; acquired_at = acquired_at; value = value })

abbrev fetched : Fields → Option Value → Option Value → Option Value → Checked Acquisition
fetched f (some (str (c ∷ id))) (some status) (some acquired_at) =
    require (only_permitted f) snapshot_item_invalid >>= λ _.
    with_status (c ∷ id) acquired_at (get (codes "value") f) (status_of status)
fetched f _ _ _ = rejected snapshot_item_invalid

-- `_check_acquisition_shape`, with what it has then read.
unfoldable pub check_acquisition_shape : Value → Checked Acquisition
unfolding get only_permitted
check_acquisition_shape (dict f) =
    fetched f (get (codes "id") f) (get (codes "status") f) (get (codes "acquired_at") f)
check_acquisition_shape _ = rejected snapshot_item_invalid

-- `_check_status_and_value` raises nothing.
abbrev pub fits_status : Status → Option Value → Bool
fits_status ok none = false
fits_status missing (some v) = false
fits_status _ _ = true

abbrev dated : Text → Option ℤ → Checked (Text × ℤ)
dated text none = rejected evidence_order_invalid
dated text (some t) = accepted (text, t)

-- `_instant_or_raise`, with the text that it read.
unfoldable pub instant_or_raise : Value → Checked (Text × ℤ)
instant_or_raise (str text) = dated text (instant text)
instant_or_raise _ = rejected evidence_order_invalid

-- One round of the loop of `build_snapshot`.
unfoldable pub collect_one : List Declaration → ℤ → ℕ → List Text → Value → Checked Entry
unfolding check_acquisition_shape instant_or_raise
collect_one declarations frozen position seen acquisition =
    check_acquisition_shape acquisition >>= λ a.
    require (declared a.id declarations) (snapshot_item_undeclared a.id) >>= λ _.
    require (not (seen_in a.id seen)) (duplicate a.id position) >>= λ _.
    require (fits_status a.status a.value) snapshot_item_invalid >>= λ _.
    instant_or_raise a.acquired_at >>= λ at.
    require (leb_ℤ at.1 frozen) evidence_order_invalid >>= λ _. accepted (record {
      id = a.id;
      order = position;
      status = a.status;
      acquired_at = at.0;
      value = a.value;
      value_digest = none;
    })

-- The loop of `build_snapshot`.
unfoldable pub collect : List Declaration → ℤ → ℕ → List Text → List Value → Checked (List Entry)
unfolding collect_one
collect declarations frozen position seen [] = accepted []
collect declarations frozen position seen (acquisition ∷ acquisitions) =
    collect_one declarations frozen position seen acquisition >>= λ e.
    collect declarations frozen (suc position) (e.id ∷ seen) acquisitions >>= λ es.
    accepted (e ∷ es)

-- `seen` behind the items.
abbrev pub seen_after : List Text → List Entry → List Text
seen_after seen [] = seen
seen_after seen (e ∷ es) = seen_after (e.id ∷ seen) es

abbrev pub missing_entry : Text → ℕ → Text → Entry
missing_entry frozen_at position id = record {
  id = id;
  order = position;
  status = missing;
  acquired_at = frozen_at;
  value = none;
  value_digest = none;
}

-- The second loop of `build_snapshot`: what it appends, from the number of items on.
unfoldable pub unacquired : Text → ℕ → List Text → List Declaration → List Entry
unacquired frozen_at position seen [] = []
unacquired frozen_at position seen (d ∷ ds) = elim (d.required && not (seen_in d.id seen)) [
  | true ↦ missing_entry frozen_at position d.id ∷ unacquired frozen_at (suc position) seen ds
  | false ↦ unacquired frozen_at position seen ds
]

-- One round of the loop of `verify_snapshot_value`.
unfoldable pub check_item : List Declaration → ℤ → ℕ → List Text → Entry → Checked Unit
unfolding instant_or_raise
check_item declarations frozen position seen e =
    require (declared e.id declarations) (snapshot_item_undeclared e.id) >>= λ _.
    require (not (seen_in e.id seen)) (duplicate e.id position) >>= λ _.
    require (e.order == position) evidence_order_invalid >>= λ _.
    require (fits_status e.status e.value) snapshot_item_invalid >>= λ _.
    instant_or_raise (str e.acquired_at) >>= λ at.
    require (leb_ℤ at.1 frozen) evidence_order_invalid

unfoldable pub check_items : List Declaration → ℤ → ℕ → List Text → List Entry → Checked Unit
unfolding check_item
check_items declarations frozen position seen [] = accepted tt
check_items declarations frozen position seen (e ∷ es) =
    check_item declarations frozen position seen e >>= λ _.
    check_items declarations frozen (suc position) (e.id ∷ seen) es

-- The last loop of `verify_snapshot_value`.
unfoldable pub check_required : List Text → List Declaration → Checked Unit
check_required seen [] = accepted tt
check_required seen (d ∷ ds) =
    require (not d.required || seen_in d.id seen) (snapshot_item_missing d.id) >>= λ _.
    check_required seen ds

-- `canon.digest` of a payload, and whether `schema.validate` raises nothing.
module _ (digest : Payload → Text) (conforms : Snapshot → Bool) where
  -- `_seal`
  unfoldable pub seal : Payload → Checked Snapshot
  seal payload =
      let s : Snapshot = record { payload = payload; snapshot_digest = digest payload } in
      require (conforms s) snapshot_schema_invalid >>= λ _. accepted s

  unfoldable pub build_snapshot : Pinned → Text → Value → List Value → Checked Snapshot
  unfolding collect unacquired seal
  build_snapshot pinned snapshot_id frozen_at acquisitions = instant_or_raise frozen_at >>= λ at.
      require (leb_ℤ pinned.adopted_at at.1) rulebook_not_adopted >>= λ _.
      collect pinned.evidence at.1 0 [] acquisitions >>= λ items. seal (record {
        snapshot_id = snapshot_id;
        rulebook_digest = pinned.digest;
        frozen_at = at.0;
        items = items ++ unacquired at.0 (length items) (seen_after [] items) pinned.evidence;
      })

  unfoldable pub verify_snapshot_value : Snapshot → Pinned → Checked Snapshot
  unfolding check_items check_required
  verify_snapshot_value s pinned = require (conforms s) snapshot_schema_invalid >>= λ _.
      require (text_eq (digest s.payload) s.snapshot_digest) snapshot_digest_mismatch >>= λ _.
      require (text_eq s.payload.rulebook_digest pinned.digest) snapshot_rulebook_mismatch >>= λ _.
      instant_or_raise (str s.payload.frozen_at) >>= λ at.
      require (leb_ℤ pinned.adopted_at at.1) rulebook_not_adopted >>= λ _.
      check_items pinned.evidence at.1 0 [] s.payload.items >>= λ _.
      check_required (seen_after [] s.payload.items) pinned.evidence >>= λ _. accepted s
