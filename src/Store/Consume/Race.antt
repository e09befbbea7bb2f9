-- ===== src/Store/Consume/Race.antt =====
-- Many calls of `consume_once` on one store, interleaved call by call on the file system, with the
-- store's other operations in between; a process that is killed makes no further step.
use verify_run.Base.{
  ℕ, zero, suc, ◌+◌, ◌≤◌, Bool, true, false, Option, none, some, List, [], ◌∷◌, Text, text_eq,
  text_eq_iff, ltb, if◌then◌else◌, ◌≡◌, refl, ap, Bool-cases, inl, inr, All, arith,
}
use verify_run.Base.Attempt.{Attempt, raised, returned}
use verify_run.Authorization.{Bytes, Host}
use verify_run.Store.{
  StoreFailure, commit_conflict, os_error, record_missing, consumption_conflict, nonce_reused,
  load_canonical,
}
use verify_run.Store.Files.{
  StoreEntry, Disk, find, put, remove, find-put, find-put_same, find-remove,
}
use verify_run.Store.Consume.{
  Call, Phase, opening, writing, linking, unlinking, done, consumption_path, slot_path, is_consumed,
  entry_stands, advance, open_exclusive, link_staged, publish, compare_existing,
}
use verify_run.Value.{Value}
use verify_run.Value.Equal.{py_eq}

-- A call under way, with the number of times that it has linked its record under its nonce so far.
pub record Process : Type 0 where
  pub call : Call
  pub phase : Phase
  pub links : ℕ

pub record System : Type 0 where
  pub disk : Disk
  pub processes : List Process

abbrev pub bit : Bool → ℕ
bit true = 1
bit false = 0

-- Whether the step from one phase to the next is a link that succeeds, which is what spends the nonce.
abbrev pub is_link : Phase → Phase → ℕ
is_link (linking slot) (unlinking slot' (returned r)) = 1
is_link _ _ = 0

abbrev pub links_of : Text → Call → Phase → Phase → ℕ
links_of digest call p q = if text_eq digest call.digest then is_link p q else 0

abbrev count_for : Text → Call → ℕ → ℕ
count_for digest call k = if text_eq digest call.digest then k else 0

-- How many links have been made under the nonce of that digest, by all the calls together; what the
-- calls do afterwards, and whether they return, makes no difference.
unfoldable pub spenders : Text → List Process → ℕ
spenders digest [] = 0
spenders digest (p ∷ ps) = count_for digest p.call p.links + spenders digest ps

abbrev pub has_returned : Phase → ℕ
has_returned (done (returned r)) = 1
has_returned _ = 0

-- Whether the phase is that of a call that returns, or has returned.
abbrev returns : Phase → ℕ
returns (unlinking slot (returned r)) = 1
returns (done (returned r)) = 1
returns _ = 0

-- How many of the calls have returned, for the nonce of that digest.
unfoldable pub returners : Text → List Process → ℕ
returners digest [] = 0
returners digest (p ∷ ps) = count_for digest p.call (has_returned p.phase) + returners digest ps

pub bit_mono : (b c : Bool) → (b ≡ true → c ≡ true) → bit b ≤ bit c
bit_mono true c h = rw (h refl) (omega arith)
bit_mono false c h = ground arith

count_for_add :
    (digest : Text) (call : Call) (j k : ℕ)
    → count_for digest call (j + k) ≡ count_for digest call j + count_for digest call k
count_for_add digest call j k = ground arith

count_for_mono :
    (digest : Text) (call : Call) (j k : ℕ)
    → j ≤ k
    → count_for digest call j ≤ count_for digest call k
count_for_mono digest call j k h = ground arith

-- What the rest of the store does: no consumption that is there goes away.
abbrev pub Keeps : Disk → Disk → Type 0
Keeps d e = (digest : Text) → is_consumed d digest ≡ true → is_consumed e digest ≡ true

apart :
    (digest other : Text) (slot : ℕ)
    → text_eq (consumption_path digest) (slot_path other slot) ≡ false
unfolding text_eq
apart digest other slot = refl

pub entry_stands-put :
    (p q : Text) (e : StoreEntry) (d : Disk)
    → bit (entry_stands (find p d)) ≤ bit (entry_stands (find p (put q e d)))
entry_stands-put p q e d = elim (Bool-cases (text_eq p q)) [
  | inl h ↦
      let same : p ≡ q = (text_eq_iff p q).0 h in
      let there : find p (put q e d) ≡ some e = rw same (find-put_same q e d) in
      rw (there, entry_stands) (at_most_one (entry_stands (find p d)))
  | inr h ↦ rw (find-put p q e d h) (omega arith)
]
  where
    at_most_one : (b : Bool) → bit b ≤ bit true
    at_most_one true = omega arith
    at_most_one false = omega arith

pub is_consumed-slot :
    (digest other : Text) (slot : ℕ) (e : StoreEntry) (d : Disk)
    → is_consumed (put (slot_path other slot) e d) digest ≡ is_consumed d digest
unfolding is_consumed
is_consumed-slot digest other slot e d =
    ap entry_stands
      (find-put (consumption_path digest) (slot_path other slot) e d (apart digest other slot))

pub is_consumed-unlink :
    (digest other : Text) (slot : ℕ) (d : Disk)
    → is_consumed (remove (slot_path other slot) d) digest ≡ is_consumed d digest
unfolding is_consumed
is_consumed-unlink digest other slot d =
    ap entry_stands
      (find-remove (consumption_path digest) (slot_path other slot) d (apart digest other slot))

-- Where a step links, the nonce was not spent and now is; no step makes it unspent.
abbrev Paid : Text → Call → Disk × Phase → Disk × Phase → Type 0
Paid digest call s t =
    links_of digest call s.1 t.1 + bit (is_consumed s.0 digest) ≤ bit (is_consumed t.0 digest)

unpaid :
    (digest : Text) (call : Call) (d e : Disk) (p q : Phase)
    → is_link p q ≡ 0
    → is_consumed e digest ≡ is_consumed d digest
    → Paid digest call (d, p) (e, q)
unpaid digest call d e p q idle same = rw (same) (ground arith)

-- An entry that is already there makes the call raise, whatever it holds.
pub compare_existing-raises :
    (host : Host) (load : Bytes → Option Value) (recorded : Value)
    (existing : Attempt StoreFailure Value)
    → (f : StoreFailure) × (compare_existing host load recorded existing ≡ raised f)
compare_existing-raises host load recorded (raised f) = (f, refl)
compare_existing-raises host load recorded (returned v) = elim (Bool-cases (py_eq v recorded)) [
  | inl h ↦ (nonce_reused, rw (h, compare_existing) refl)
  | inr h ↦ (consumption_conflict, rw (h, compare_existing) refl)
]

module _ (digest : Text) (call : Call) (d : Disk) (slot : ℕ) where
  open_exclusive-Paid :
      (o : Option StoreEntry) → Paid digest call (d, opening slot) (open_exclusive call slot o d)
  open_exclusive-Paid (some e) =
      unpaid digest call d d (opening slot) (opening (suc slot)) refl refl
  open_exclusive-Paid none =
      unpaid digest call d _ (opening slot) (writing slot) refl
        (is_consumed-slot digest call.digest slot _ d)

  -- The link is the one call that spends.
  link_staged-Paid :
      (o : Option StoreEntry)
      → find (consumption_path call.digest) d ≡ none
      → Paid digest call (d, linking slot) (link_staged call slot o d)
  unfolding is_consumed
  link_staged-Paid none absent =
      unpaid digest call d d (linking slot) (unlinking slot (raised commit_conflict)) refl refl
  link_staged-Paid (some e) absent = elim (Bool-cases (text_eq digest call.digest)) [
    | inl h ↦
        let same : digest ≡ call.digest = (text_eq_iff digest call.digest).0 h in
        let before : find (consumption_path digest) d ≡ none = rw same absent in
        let after : find (consumption_path digest) (put (consumption_path call.digest) e d)
            ≡ some e =
          rw same (find-put_same (consumption_path call.digest) e d) in
        rw (before, after, h) (omega arith)
    | inr h ↦
        let more = entry_stands-put (consumption_path digest) (consumption_path call.digest) e d in
        rw (h) (omega (arith, more))
  ]

  module _ (host : Host) (load : Bytes → Option Value) where
    publish-Paid :
        (o : Option StoreEntry)
        → find (consumption_path call.digest) d ≡ o
        → Paid digest call (d, linking slot) (publish host load call slot o d)
    publish-Paid none absent = link_staged-Paid _ absent
    publish-Paid (some e) there =
        let existing = load_canonical host load d (consumption_path call.digest) record_missing in
        let (f, raises) = compare_existing-raises host load call.recorded existing in
        unpaid digest call d d (linking slot)
          (unlinking slot (compare_existing host load call.recorded existing)) (rw (raises) refl)
          refl

module _ (host : Host) (load : Bytes → Option Value) (digest : Text) (call : Call) where
  advance-Paid :
      (answer : Bool) (d : Disk) (phase : Phase)
      → Paid digest call (d, phase) (advance host load call answer d phase)
  unfolding advance
  advance-Paid true d (opening slot) = elim (Bool-cases (ltb slot 64)) [
    | inl h ↦ rw (h, if◌then◌else◌) (open_exclusive-Paid digest call d slot _)
    | inr h ↦
        rw (h, if◌then◌else◌)
          (unpaid digest call d d (opening slot) (done (raised commit_conflict)) refl refl)
  ]
  advance-Paid true d (writing slot) =
      unpaid digest call d _ (writing slot) (linking slot) refl
        (is_consumed-slot digest call.digest slot _ d)
  advance-Paid true d (linking slot) = publish-Paid digest call d slot host load _ refl
  advance-Paid true d (unlinking slot (raised f)) =
      unpaid digest call d _ (unlinking slot (raised f)) (done (raised f)) refl
        (is_consumed-unlink digest call.digest slot d)
  advance-Paid true d (unlinking slot (returned r)) =
      unpaid digest call d _ (unlinking slot (returned r)) (done (returned r)) refl
        (is_consumed-unlink digest call.digest slot d)
  advance-Paid false d (opening slot) =
      unpaid digest call d d (opening slot) (done (raised commit_conflict)) refl refl
  advance-Paid false d (writing slot) =
      unpaid digest call d d (writing slot) (done (raised os_error)) refl refl
  advance-Paid false d (linking slot) =
      unpaid digest call d d (linking slot) (unlinking slot (raised commit_conflict)) refl refl
  advance-Paid false d (unlinking slot out) =
      unpaid digest call d d (unlinking slot out) (done (raised os_error)) refl refl
  advance-Paid true d (done out) = unpaid digest call d d (done out) (done out) refl refl
  advance-Paid false d (done out) = unpaid digest call d d (done out) (done out) refl refl

-- A call comes to return by a link, and by nothing else.
module _ (host : Host) (load : Bytes → Option Value) (call : Call) where
  abbrev Earned : Phase → Phase → Type 0
  Earned p q = returns q ≤ returns p + is_link p q

  publish-Earned :
      (d : Disk) (slot : ℕ) (o : Option StoreEntry)
      → Earned (linking slot) (publish host load call slot o d).1
  publish-Earned d slot none = staged (find (slot_path call.digest slot) d)
    where
      staged : (o : Option StoreEntry) → Earned (linking slot) (link_staged call slot o d).1
      staged none = omega arith
      staged (some e) = omega arith
  publish-Earned d slot (some e) =
      let existing = load_canonical host load d (consumption_path call.digest) record_missing in
      rw ((compare_existing-raises host load call.recorded existing).1) (omega arith)

  open_exclusive-Earned :
      (d : Disk) (slot : ℕ) (o : Option StoreEntry)
      → Earned (opening slot) (open_exclusive call slot o d).1
  open_exclusive-Earned d slot none = omega arith
  open_exclusive-Earned d slot (some e) = omega arith

  advance-Earned :
      (answer : Bool) (d : Disk) (phase : Phase)
      → Earned phase (advance host load call answer d phase).1
  unfolding advance
  advance-Earned true d (opening slot) = elim (Bool-cases (ltb slot 64)) [
    | inl h ↦ rw (h, if◌then◌else◌) (open_exclusive-Earned d slot _)
    | inr h ↦ rw (h, if◌then◌else◌) (omega arith)
  ]
  advance-Earned true d (writing slot) = omega arith
  advance-Earned true d (linking slot) = publish-Earned d slot _
  advance-Earned true d (unlinking slot (raised f)) = omega arith
  advance-Earned true d (unlinking slot (returned r)) = omega arith
  advance-Earned true d (done out) = omega arith
  advance-Earned false d (opening slot) = omega arith
  advance-Earned false d (writing slot) = omega arith
  advance-Earned false d (linking slot) = omega arith
  advance-Earned false d (unlinking slot out) = omega arith
  advance-Earned false d (done out) = omega arith

module _ (host : Host) (load : Bytes → Option Value) where
  -- The process of that number makes its next call.
  unfoldable pub move : ℕ → Bool → Disk → List Process → System
  unfolding advance
  move i answer d [] = record { disk = d; processes = [] }
  move zero answer d (p ∷ ps) =
      let s = advance host load p.call answer d p.phase in
      record {
        disk = s.0;
        processes =
            record { call = p.call; phase = s.1; links = p.links + is_link p.phase s.1 } ∷ ps;
      }
  move (suc i) answer d (p ∷ ps) =
      let s = move i answer d ps in record { disk = s.disk; processes = p ∷ s.processes }

  -- A call begins, a process makes its next call on the file system, or anything else that keeps what
  -- is consumed.
  pub data Step (s t : System) : Type 0 where
    begins :
        (call : Call)
        → t ≡ record s {
          processes = record { call = call; phase = opening 0; links = 0 } ∷ s.processes;
        }
        → Step s t
    moves : (i : ℕ) (answer : Bool) → t ≡ move i answer s.disk s.processes → Step s t
    others : (d : Disk) → Keeps s.disk d → t ≡ record s { disk = d } → Step s t

  pub data Reach (s : System) : System → Type 0 where
    here : Reach s s
    next : {t u : System} → Reach s t → Step t u → Reach s u

  move-spenders :
      (digest : Text) (i : ℕ) (answer : Bool) (d : Disk) (ps : List Process)
      → let t = move i answer d ps in
        spenders digest t.processes + bit (is_consumed d digest)
        ≤ spenders digest ps + bit (is_consumed t.disk digest)
  unfolding move spenders
  move-spenders digest i answer d [] = omega arith
  move-spenders digest zero answer d (p ∷ ps) = omega (
    arith,
    advance-Paid host load digest p.call answer d p.phase,
    count_for_add digest p.call p.links
        (is_link p.phase (advance host load p.call answer d p.phase).1),
  )
  move-spenders digest (suc i) answer d (p ∷ ps) = omega (arith, move-spenders digest i answer d ps)

  Step-spenders :
      (digest : Text) {s t : System}
      → Step s t
      → spenders digest t.processes + bit (is_consumed s.disk digest)
        ≤ spenders digest s.processes + bit (is_consumed t.disk digest)
  unfolding spenders
  Step-spenders digest {s} (begins call e) = rw e (ground arith)
  Step-spenders digest {s} (moves i answer e) =
      rw e (move-spenders digest i answer s.disk s.processes)
  Step-spenders digest {s} (others d kept e) =
      rw e
        (omega (arith, bit_mono (is_consumed s.disk digest) (is_consumed d digest) (kept digest)))

  abbrev Accounted : List Process → Type 0
  Accounted = All (λ p. returns p.phase ≤ p.links)

  move-Accounted :
      (i : ℕ) (answer : Bool) (d : Disk) (ps : List Process)
      → Accounted ps
      → Accounted (move i answer d ps).processes
  unfolding move
  move-Accounted i answer d [] h = tt
  move-Accounted zero answer d (p ∷ ps) h =
      (omega (arith, advance-Earned host load p.call answer d p.phase, h.0), h.1)
  move-Accounted (suc i) answer d (p ∷ ps) h = (h.0, move-Accounted i answer d ps h.1)

  Step-Accounted : {s t : System} → Step s t → Accounted s.processes → Accounted t.processes
  Step-Accounted (begins call e) h = rw e (omega arith, h)
  Step-Accounted {s} (moves i answer e) h = rw e (move-Accounted i answer s.disk s.processes h)
  Step-Accounted (others d kept e) h = rw e h

  Reach-Accounted :
      {d : Disk} {t : System}
      → Reach (record { disk = d; processes = [] }) t
      → Accounted t.processes
  Reach-Accounted here = tt
  Reach-Accounted (next r step) = Step-Accounted step (Reach-Accounted r)

  returners-spenders :
      (digest : Text) (ps : List Process) → Accounted ps → returners digest ps ≤ spenders digest ps
  unfolding returners spenders
  returners-spenders digest [] h = omega arith
  returners-spenders digest (p ∷ ps) h = omega (
    arith,
    count_for_mono digest p.call (has_returned p.phase) p.links
        (omega (arith, has_returned-le p.phase, h.0)),
    returners-spenders digest ps h.1,
  )
    where
      has_returned-le : (q : Phase) → has_returned q ≤ returns q
      has_returned-le (done (returned r)) = omega arith
      has_returned-le (done (raised f)) = omega arith
      has_returned-le (unlinking slot out) = omega arith
      has_returned-le (opening slot) = omega arith
      has_returned-le (writing slot) = omega arith
      has_returned-le (linking slot) = omega arith

  paid :
      (digest : Text) {d : Disk} {t : System}
      → Reach (record { disk = d; processes = [] }) t
      → spenders digest t.processes + bit (is_consumed d digest) ≤ bit (is_consumed t.disk digest)
  unfolding spenders
  paid digest here = omega arith
  paid digest (next r step) = omega (arith, paid digest r, Step-spenders digest step)

  -- Whatever the interleaving and whatever fails, at most one link is made under the nonce of one digest,
  -- by all the calls together and however they end, and none if the nonce was spent to begin with; in
  -- whatever state is reached, the nonce is spent if one was made; and no more calls return than links
  -- were made. What else happens to the store is to leave the consumptions that are there.
  pub Reach-spenders :
      (digest : Text) {d : Disk} {t : System}
      → Reach (record { disk = d; processes = [] }) t
      → (returners digest t.processes ≤ spenders digest t.processes)
        × (spenders digest t.processes + bit (is_consumed d digest)
            ≤ bit (is_consumed t.disk digest))
  Reach-spenders digest {d} {t} r =
      (returners-spenders digest t.processes (Reach-Accounted r), paid digest r)
