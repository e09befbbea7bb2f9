-- ===== src/Store/Consume/Again.antt =====
-- The second call of `consume_once` for one nonce, by the same authorization or another.
use verify_run.Base.{◌≡◌, refl, true, Option, some, Text, text_eq_refl, length, leb}
use verify_run.Base.Attempt.{returned, require, or_raise, ◌>>=◌}
use verify_run.Authorization.{Bytes, Host}
use verify_run.Store.{
  StoreFailure, canonical_bytes, load_canonical, require_store_file, read_store_file, read_entry,
  max_receipt_bytes, bounded,
}
use verify_run.Store.Files.{file, Disk, find}
use verify_run.Value.{Value}

-- A file that holds the canonical bytes of a value, in a size that is read, loads as that value.
pub load_canonical-file :
    (host : Host) (load : Bytes → Option Value) (d : Disk) (path : Text) (absent : StoreFailure)
    (raw : Bytes) (v : Value)
    → find path d ≡ some (file raw)
    → leb (length raw) max_receipt_bytes ≡ true
    → load raw ≡ some v
    → canonical_bytes host v ≡ returned raw
    → load_canonical host load d path absent ≡ returned v
unfolding load_canonical require_store_file read_store_file
load_canonical-file host load d path absent raw v there small loads written =
    rw
      (
        there,
        read_entry,
        bounded,
        small,
        require,
        ◌>>=◌,
        or_raise,
        loads,
        written,
        text_eq_refl raw,
      )
      refl
