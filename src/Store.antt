-- ===== src/Store.antt =====
-- vfy/store.py: what a store keeps under its root, and how it reads an entry that nobody vouches for.
-- The bytes of a canonical text and the digest are the host's; the strict JSON reader is a parameter.
pub mod Files
pub mod Consume
pub mod Unrecorded
use verify_run.Base.{
  ℕ, ◌+◌, Bool, true, false, not, ◌&&◌, ◌||◌, Option, none, some, List, [], ◌∷◌, ◌++◌, Text, codes,
  text_eq, leb, ltb, ◌==◌, all, length, if◌then◌else◌,
}
use verify_run.Base.Attempt.{Attempt, raised, returned, require, or_raise, ◌>>=◌}
use verify_run.Authorization.{Bytes, Host}
use verify_run.Canon
use verify_run.Canon.{Written, canonicalize}
use verify_run.Store.Files.{StoreEntry, file, directory, link, other, Disk, find}
use verify_run.Value.{Value}

-- The exceptions. `source_invalid` stands for those of the strict JSON reader, `os_error` for an OSError
-- that no handler catches, `unfinished` for a model out of fuel, which does not happen.
pub data StoreFailure : Type 0 where
  path_invalid artifact_noncanonical record_missing record_incomplete record_conflict : StoreFailure
  commit_conflict consumption_conflict nonce_reused : StoreFailure
  source_invalid os_error unfinished : StoreFailure
  not_canonical : Canon.Refusal → StoreFailure

-- MAX_RECEIPT_BYTES
abbrev pub max_receipt_bytes : ℕ
max_receipt_bytes = 1048576

-- `_read_bounded`, once the size is known
abbrev pub bounded : ℕ → Bytes → Attempt StoreFailure (Option Bytes)
bounded bound raw =
    require (leb (length raw) bound) artifact_noncanonical >>= λ _. returned (some raw)

-- The entry that was opened, if there is one.
abbrev pub read_entry : ℕ → Option StoreEntry → Attempt StoreFailure (Option Bytes)
read_entry bound none = returned none
read_entry bound (some (file raw)) = bounded bound raw
read_entry bound (some _) = raised path_invalid

-- `read_store_file`
unfoldable pub read_store_file : ℕ → Disk → Text → Attempt StoreFailure (Option Bytes)
unfolding find
read_store_file bound d path = read_entry bound (find path d)

-- `_require_store_file`
unfoldable pub require_store_file : Disk → Text → StoreFailure → Attempt StoreFailure Bytes
unfolding read_store_file
require_store_file d path absent =
    read_store_file max_receipt_bytes d path >>= λ raw. or_raise absent raw

-- `_require_directory`
abbrev directory_entry : StoreFailure → Option StoreEntry → Attempt StoreFailure (Unit {0})
directory_entry absent none = raised absent
directory_entry absent (some directory) = returned tt
directory_entry absent (some _) = raised path_invalid

unfoldable pub require_directory : Disk → Text → StoreFailure → Attempt StoreFailure (Unit {0})
unfolding find
require_directory d path absent = directory_entry absent (find path d)

-- STORABLE_ID
abbrev pub is_alphanumeric : ℕ → Bool
is_alphanumeric c =
    leb b'A' c && leb c b'Z' || (leb b'a' c && leb c b'z' || leb b'0' c && leb c b'9')

abbrev pub is_storable_character : ℕ → Bool
is_storable_character c = is_alphanumeric c || (c == b'.' || (c == b'_' || c == b'-'))

unfoldable pub storable_id : Text → Bool
storable_id [] = false
storable_id (c ∷ rest) =
    is_alphanumeric c && (leb (length rest) 127 && all is_storable_character rest)

-- `_check_storable`; no id that STORABLE_ID matches is `.` or `..`.
unfoldable pub check_storable : Text → Attempt StoreFailure (Unit {0})
unfolding storable_id
check_storable receipt_id = require (storable_id receipt_id) path_invalid >>= λ _.
    require (not (text_eq receipt_id (codes ".") || text_eq receipt_id (codes ".."))) path_invalid

-- `canon.canonicalize`
abbrev pub written_text : Option Written → Attempt StoreFailure Text
written_text (some (Canon.text t)) = returned t
written_text (some (Canon.refused e)) = raised (not_canonical e)
written_text none = raised unfinished

module _ (host : Host) where
  -- `canon.canonical_bytes`
  unfoldable pub canonical_bytes : Value → Attempt StoreFailure Bytes
  canonical_bytes v = written_text (canonicalize v) >>= λ t. returned (host.encode t)

  -- `_nonce_digest`
  unfoldable pub nonce_digest : Text → Text
  nonce_digest nonce = host.sha256 (host.encode nonce)

  -- `_load_canonical`, with `load_json_bytes`; `none` is one of its exceptions.
  unfoldable pub load_canonical :
      (Bytes → Option Value) → Disk → Text → StoreFailure → Attempt StoreFailure Value
  unfolding require_store_file canonical_bytes
  load_canonical load_json_bytes d path absent = require_store_file d path absent >>= λ raw.
      or_raise source_invalid (load_json_bytes raw) >>= λ value.
      canonical_bytes value >>= λ written.
      require (text_eq written raw) artifact_noncanonical >>= λ _. returned value
