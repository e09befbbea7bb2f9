-- ===== src/Store/Unrecorded.antt =====
-- `preserve_unrecorded` and `unrecorded_path` of vfy/store.py, with nothing else running in between.
use verify_run.Base.{
  Bool, ◌&&◌, Option, none, some, [], Text, codes, ◌++◌, text_eq, if◌then◌else◌, ◌≡◌, refl, ap, ◌∙◌,
  Bool-cases, inl, inr,
}
use verify_run.Base.Attempt.{Attempt, raised, returned, require, ◌>>=◌}
use verify_run.Authorization.{Bytes, Host}
use verify_run.Receipt.{FrozenReceipt}
use verify_run.Store.{
  StoreFailure, record_conflict, commit_conflict, check_storable, read_store_file,
  max_receipt_bytes,
}
use verify_run.Store.Consume.{is_consumed, consumption_path, entry_stands}
use verify_run.Store.Files.{StoreEntry, file, Disk, find, put, remove, find-put, find-remove}

abbrev pub partial_path : Text → Text
partial_path receipt_id = codes "tmp/" ++ receipt_id ++ codes ".unrecorded.json.partial"

-- `unrecorded_path`
abbrev pub unrecorded_name : Text → Text
unrecorded_name receipt_id = codes "tmp/" ++ receipt_id ++ codes ".unrecorded.json"

unfoldable pub unrecorded_path : Text → Attempt StoreFailure Text
unfolding check_storable
unrecorded_path receipt_id =
    check_storable receipt_id >>= λ _. returned (unrecorded_name receipt_id)

-- What the host answers to the calls that make the staging file, write it, and rename it.
pub record Answers : Type 0 where
  pub opens : Bool
  pub writes : Bool
  pub replaces : Bool

-- The `with` block and the rename, on a staging file that is open
abbrev pub replace_staged : Answers → Text → Bytes → Disk → Disk × Attempt StoreFailure Text
replace_staged answers receipt_id payload d =
    if answers.writes && answers.replaces
    then (
      put (unrecorded_name receipt_id) (file payload) (remove (partial_path receipt_id) d),
      returned (unrecorded_name receipt_id),
    )
    else (remove (partial_path receipt_id) d, raised commit_conflict)

abbrev pub stage_unrecorded :
    Answers → Text → Bytes → Disk → Option StoreEntry → Disk × Attempt StoreFailure Text
stage_unrecorded answers receipt_id payload d (some e) = (d, raised commit_conflict)
stage_unrecorded answers receipt_id payload d none =
    if answers.opens
    then replace_staged answers receipt_id payload (put (partial_path receipt_id) (file []) d)
    else (d, raised commit_conflict)

abbrev pub compare_preserved :
    Answers
    → Text
    → Bytes
    → Disk
    → Attempt StoreFailure (Option Bytes)
    → Disk × Attempt StoreFailure Text
compare_preserved answers receipt_id payload d (raised f) = (d, raised f)
compare_preserved answers receipt_id payload d (returned (some preserved)) = (
  d,
  (require (text_eq preserved payload) record_conflict >>= λ _.
      returned (unrecorded_name receipt_id)),
)
compare_preserved answers receipt_id payload d (returned none) =
    stage_unrecorded answers receipt_id payload d (find (partial_path receipt_id) d)

abbrev pub preserve_storable :
    Answers
    → Text
    → Bytes
    → Disk
    → Attempt StoreFailure (Unit {0})
    → Disk × Attempt StoreFailure Text
preserve_storable answers receipt_id payload d (raised f) = (d, raised f)
preserve_storable answers receipt_id payload d (returned u) =
    compare_preserved answers receipt_id payload d
      (read_store_file max_receipt_bytes d (unrecorded_name receipt_id))

-- `preserve_unrecorded`
unfoldable pub preserve_unrecorded :
    Host → Answers → FrozenReceipt → Disk → Disk × Attempt StoreFailure Text
unfolding check_storable read_store_file find put remove
preserve_unrecorded host answers receipt d =
    let receipt_id = receipt.value.payload.receipt_id in
    preserve_storable answers receipt_id (host.encode receipt.canonical) d
      (check_storable receipt_id)

module _ (g : Text) (answers : Answers) (receipt_id : Text) (payload : Bytes) where
  -- Neither name is that of a consumption.
  put-elsewhere :
      (d : Disk) (rest : Text) (e : StoreEntry)
      → is_consumed (put (codes "tmp/" ++ rest) e d) g ≡ is_consumed d g
  unfolding is_consumed text_eq
  put-elsewhere d rest e =
      ap entry_stands (find-put (consumption_path g) (codes "tmp/" ++ rest) e d refl)

  remove-elsewhere :
      (d : Disk) (rest : Text) → is_consumed (remove (codes "tmp/" ++ rest) d) g ≡ is_consumed d g
  unfolding is_consumed text_eq
  remove-elsewhere d rest =
      ap entry_stands (find-remove (consumption_path g) (codes "tmp/" ++ rest) d refl)

  replace_staged-keeps :
      (d : Disk) → is_consumed (replace_staged answers receipt_id payload d).0 g ≡ is_consumed d g
  replace_staged-keeps d = elim (Bool-cases (answers.writes && answers.replaces)) [
    | inl h ↦
        rw (h, if◌then◌else◌)
          (put-elsewhere (remove (partial_path receipt_id) d)
              (receipt_id ++ codes ".unrecorded.json") (file payload)
            ∙ remove-elsewhere d (receipt_id ++ codes ".unrecorded.json.partial"))
    | inr h ↦
        rw (h, if◌then◌else◌) (remove-elsewhere d (receipt_id ++ codes ".unrecorded.json.partial"))
  ]

  stage_unrecorded-keeps :
      (d : Disk) (o : Option StoreEntry)
      → is_consumed (stage_unrecorded answers receipt_id payload d o).0 g ≡ is_consumed d g
  stage_unrecorded-keeps d (some e) = refl
  stage_unrecorded-keeps d none = elim (Bool-cases answers.opens) [
    | inl h ↦
        rw (h, if◌then◌else◌)
          (replace_staged-keeps (put (partial_path receipt_id) (file []) d)
            ∙ put-elsewhere d (receipt_id ++ codes ".unrecorded.json.partial") (file []))
    | inr h ↦ rw (h, if◌then◌else◌) refl
  ]

  preserve_storable-keeps :
      (d : Disk) (x : Attempt StoreFailure (Unit {0}))
      → is_consumed (preserve_storable answers receipt_id payload d x).0 g ≡ is_consumed d g
  preserve_storable-keeps d (raised f) = refl
  preserve_storable-keeps d (returned u) =
      compared (read_store_file max_receipt_bytes d (unrecorded_name receipt_id))
    where
      compared :
          (x : Attempt StoreFailure (Option Bytes))
          → is_consumed (compare_preserved answers receipt_id payload d x).0 g ≡ is_consumed d g
      compared (raised f) = refl
      compared (returned (some raw)) = refl
      compared (returned none) = stage_unrecorded-keeps d (find (partial_path receipt_id) d)

pub preserve_unrecorded-keeps :
    (host : Host) (answers : Answers) (receipt : FrozenReceipt) (d : Disk) (g : Text)
    → is_consumed (preserve_unrecorded host answers receipt d).0 g ≡ is_consumed d g
unfolding preserve_unrecorded
preserve_unrecorded-keeps host answers receipt d g =
    preserve_storable-keeps g answers receipt.value.payload.receipt_id
      (host.encode receipt.canonical) d (check_storable receipt.value.payload.receipt_id)
