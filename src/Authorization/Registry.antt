-- ===== src/Authorization/Registry.antt =====
-- `build_key_registry` and `check_key_status` of vfy/authorization.py.
use verify_run.Base.{
  Bool, true, false, not, ◌&&◌, ◌||◌, Option, none, some, List, [], ◌∷◌, Text, codes, text_eq,
  text_mem, length, ◌==◌, if◌then◌else◌,
}
use verify_run.Base.Int.{eq_ℤ}
use verify_run.Base.Attempt.{Attempt, returned, require, ◌>>=◌}
use verify_run.Authorization.{
  Bytes, Identity, Failure, signing_key_invalid, signing_key_revoked, signing_key_retired,
}

-- What a caller registers; a missing status is `active`.
pub record KeyEntry : Type 0 where
  pub identity : Identity
  pub public_key : Bytes
  pub status : Option Text

pub record Key : Type 0 where
  pub public_key : Bytes
  pub status : Text

-- The dict `registry`, newest entry first.
abbrev pub KeyRegistry : Type 0
KeyRegistry = List (Identity × Key)

unfoldable pub identity_eq : Identity → Identity → Bool
identity_eq i j = text_eq i.key_id j.key_id && eq_ℤ i.key_version j.key_version

-- `keys.get(identity)`
unfoldable pub find_key : Identity → KeyRegistry → Option Key
unfolding identity_eq
find_key i [] = none
find_key i (r ∷ registry) = if identity_eq r.0 i then some r.1 else find_key i registry

abbrev pub is_some : Option Key → Bool
is_some (some a) = true
is_some none = false

-- The keys of the dict `identities`: those of the entries so far.
abbrev pub public_keys : KeyRegistry → List Bytes
public_keys [] = []
public_keys (r ∷ registry) = r.1.public_key ∷ public_keys registry

unfoldable pub is_status : Text → Bool
is_status status =
    text_eq status (codes "active")
    || text_eq status (codes "retired")
    || text_eq status (codes "revoked")

abbrev status_or_active : Option Text → Text
status_or_active none = codes "active"
status_or_active (some status) = status

abbrev pub key_of : KeyEntry → Key
key_of e = record { public_key = e.public_key; status = status_or_active e.status }

-- The loop of `build_key_registry`.
unfoldable pub register : KeyRegistry → List KeyEntry → Attempt Failure KeyRegistry
unfolding find_key is_status
register registry [] = returned registry
register registry (e ∷ entries) =
    require (not (is_some (find_key e.identity registry))) signing_key_invalid >>= λ _.
    require (length e.public_key == 32) signing_key_invalid >>= λ _.
    require (not (text_mem e.public_key (public_keys registry))) signing_key_invalid >>= λ _.
    require (is_status (key_of e).status) signing_key_invalid >>= λ _.
    register ((e.identity, key_of e) ∷ registry) entries

-- `build_key_registry`
unfoldable pub build_key_registry : List KeyEntry → Attempt Failure KeyRegistry
unfolding register
build_key_registry entries = register [] entries

-- `check_key_status`
unfoldable pub check_key_status : Text → Bool → Attempt Failure (Unit {0})
unfolding is_status
check_key_status status historical = require (is_status status) signing_key_invalid >>= λ _.
    require (not (text_eq status (codes "revoked"))) signing_key_revoked >>= λ _.
    require (not (text_eq status (codes "retired")) || historical) signing_key_retired
