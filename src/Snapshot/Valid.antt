-- ===== src/Snapshot/Valid.antt =====
-- What a snapshot that `verify_snapshot_value` accepts is known to satisfy.
use verify_run.Base.{
  ℕ, suc, ◌≡◌, refl, sym, Bool, true, false, not, ◌||◌, List, [], ◌∷◌, Text, text_eq, text_eq_iff,
  All, arith, ◌==◌,
}
use verify_run.Base.Int.{ℤ, ◌≤ℤ◌, leb_ℤ}
use verify_run.Value.{str}
use verify_run.Context.{Declaration}
use verify_run.Snapshot.{
  Rejection, accepted, require, Entry, Payload, Snapshot, Pinned, seen_in, declared, fits_status,
  instant_or_raise, seen_after, check_item, check_items, check_required, verify_snapshot_value,
}
use verify_run.Snapshot.Items.{bind-accepted, require-true, accepted-injective}

-- An item at its place, behind the ids in `seen`, in a snapshot frozen at `t`.
pub record Admitted (ds : List Declaration) (t : ℤ) (position : ℕ) (seen : List Text) (e : Entry)
    : Type 0 where
  pub is_declared : declared e.id ds ≡ true
  pub is_new : seen_in e.id seen ≡ false
  pub in_order : e.order ≡ position
  pub fits : fits_status e.status e.value ≡ true
  pub acquired : ℤ
  pub text : Text
  pub reads : instant_or_raise (str e.acquired_at) ≡ accepted (text, acquired)
  pub in_time : acquired ≤ℤ t

abbrev pub AllAdmitted : List Declaration → ℤ → ℕ → List Text → List Entry → Type 0
AllAdmitted ds t position seen [] = Unit
AllAdmitted ds t position seen (e ∷ es) =
    Admitted ds t position seen e × AllAdmitted ds t (suc position) (e.id ∷ seen) es

require_inv : (t : Bool) (r : Rejection) → require t r ≡ accepted tt → t ≡ true
require_inv true r h = refl
require_inv false r h = cc

check_item-Admitted :
    (ds : List Declaration) (t : ℤ) (position : ℕ) (seen : List Text) (e : Entry)
    → check_item ds t position seen e ≡ accepted tt
    → Admitted ds t position seen e
unfolding check_item
check_item-Admitted ds t position seen e h =
    let (known, h1) = require-true (declared e.id ds) _ _ tt h in
    let (new, h2) = require-true (not (seen_in e.id seen)) _ _ tt h1 in
    let (place, h3) = require-true (e.order == position) _ _ tt h2 in
    let (fit, h4) = require-true (fits_status e.status e.value) _ _ tt h3 in
    let (at, read, h5) = bind-accepted (instant_or_raise (str e.acquired_at)) _ tt h4 in
    let early : leb_ℤ at.1 t ≡ true = require_inv (leb_ℤ at.1 t) _ h5 in
    record {
      is_declared = known;
      is_new = ground arith;
      in_order = ground arith;
      fits = fit;
      acquired = at.1;
      text = at.0;
      reads = read;
      in_time = ground arith;
    }

check_items-AllAdmitted :
    (ds : List Declaration) (t : ℤ) (position : ℕ) (seen : List Text) (es : List Entry)
    → check_items ds t position seen es ≡ accepted tt
    → AllAdmitted ds t position seen es
unfolding check_items
check_items-AllAdmitted ds t position seen [] h = tt
check_items-AllAdmitted ds t position seen (e ∷ es) h =
    let (u, one, more) = bind-accepted (check_item ds t position seen e) _ tt h in
    (
      check_item-Admitted ds t position seen e one,
      check_items-AllAdmitted ds t (suc position) (e.id ∷ seen) es more,
    )

check_required-covered :
    (seen : List Text) (ds : List Declaration)
    → check_required seen ds ≡ accepted tt
    → All (λ d. (not d.required || seen_in d.id seen) ≡ true) ds
unfolding check_required
check_required-covered seen [] h = tt
check_required-covered seen (d ∷ ds) h =
    let (covered, more) = require-true (not d.required || seen_in d.id seen) _ _ tt h in
    (covered, check_required-covered seen ds more)

pub record Valid (digest : Payload → Text) (s : Snapshot) (pinned : Pinned) : Type 0 where
  pub sealed : s.snapshot_digest ≡ digest s.payload
  pub names : s.payload.rulebook_digest ≡ pinned.digest
  pub frozen : ℤ
  pub frozen_text : Text
  pub reads_frozen : instant_or_raise (str s.payload.frozen_at) ≡ accepted (frozen_text, frozen)
  pub adopted : pinned.adopted_at ≤ℤ frozen
  pub items : AllAdmitted pinned.evidence frozen 0 [] s.payload.items
  pub complete :
      All
        (λ d. (not d.required || seen_in d.id (seen_after [] s.payload.items)) ≡ true)
        pinned.evidence

-- Whatever the digest and the schema are, a snapshot that `verify_snapshot_value` accepts comes back
-- unchanged, carries the digest of its own payload and the digest of the rulebook, and was frozen no
-- earlier than the adoption. Its items are numbered from 0 on, each with a declared id that no other
-- has, a value that fits the status and an instant no later than the freeze, and no required
-- declaration lacks an item.
pub verify_snapshot_value-Valid :
    (digest : Payload → Text) (conforms : Snapshot → Bool) (s : Snapshot) (pinned : Pinned)
    (r : Snapshot)
    → verify_snapshot_value digest conforms s pinned ≡ accepted r
    → (r ≡ s) × Valid digest s pinned
unfolding verify_snapshot_value
verify_snapshot_value-Valid digest conforms s pinned r h =
    let (fits, h1) = require-true (conforms s) _ _ r h in
    let (own, h2) = require-true (text_eq (digest s.payload) s.snapshot_digest) _ _ r h1 in
    let (named, h3) = require-true (text_eq s.payload.rulebook_digest pinned.digest) _ _ r h2 in
    let (at, read, h4) = bind-accepted (instant_or_raise (str s.payload.frozen_at)) _ r h3 in
    let (early, h5) = require-true (leb_ℤ pinned.adopted_at at.1) _ _ r h4 in
    let (u, checked, h6) =
      bind-accepted (check_items pinned.evidence at.1 0 [] s.payload.items) _ r h5 in
    let (w, covered, h7) =
      bind-accepted (check_required (seen_after [] s.payload.items) pinned.evidence) _ r h6 in
    (
      sym (accepted-injective h7),
      record {
        sealed = sym ((text_eq_iff (digest s.payload) s.snapshot_digest).0 own);
        names = (text_eq_iff s.payload.rulebook_digest pinned.digest).0 named;
        frozen = at.1;
        frozen_text = at.0;
        reads_frozen = read;
        adopted = ground arith;
        items = check_items-AllAdmitted pinned.evidence at.1 0 [] s.payload.items checked;
        complete = check_required-covered (seen_after [] s.payload.items) pinned.evidence covered;
      },
    )
