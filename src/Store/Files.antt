-- ===== src/Store/Files.antt =====
-- What stands under the root of a vfy/store.py store: an entry for a name, relative to the root. A file
-- is read, made and removed by its name, and an entry says what one `os.lstat` or `os.open` finds.
use verify_run.Base.{
  false, Option, none, some, List, [], ◌∷◌, Text, text_eq, text_eq_refl, text_eq_iff, if◌then◌else◌,
  ◌≡◌, refl, Bool-cases, inl, inr, sym,
}
use verify_run.Authorization.{Bytes}

-- A regular file, a directory, a symbolic link, or anything else: a pipe, a socket, a device.
pub data StoreEntry : Type 0 where
  file : Bytes → StoreEntry
  directory link other : StoreEntry

abbrev pub Disk : Type 0
Disk = List (Text × StoreEntry)

-- `_entry_kind`, which follows nothing
unfoldable pub find : Text → Disk → Option StoreEntry
find p [] = none
find p (e ∷ d) = let rest = find p d in if text_eq p e.0 then some e.1 else rest

-- `unlink(missing_ok=True)`
unfoldable pub remove : Text → Disk → Disk
remove p [] = []
remove p (e ∷ d) = let rest = remove p d in if text_eq p e.0 then rest else e ∷ rest

-- The name holds that entry, whatever was there before.
unfoldable pub put : Text → StoreEntry → Disk → Disk
unfolding remove
put p e d = (p, e) ∷ remove p d

pub find-remove_same : (p : Text) (d : Disk) → find p (remove p d) ≡ none
unfolding find remove
find-remove_same p [] = refl
find-remove_same p (e ∷ d) = elim (Bool-cases (text_eq p e.0)) [
  | inl h ↦ rw (h, if◌then◌else◌) (find-remove_same p d)
  | inr h ↦ rw (h, if◌then◌else◌, find, h, if◌then◌else◌) (find-remove_same p d)
]

pub find-remove : (q p : Text) (d : Disk) → text_eq q p ≡ false → find q (remove p d) ≡ find q d
unfolding find remove
find-remove q p [] ne = refl
find-remove q p (e ∷ d) ne = elim (Bool-cases (text_eq p e.0)) [
  | inl h ↦
      let same : p ≡ e.0 = (text_eq_iff p e.0).0 h in
      let apart : text_eq q e.0 ≡ false = rw (sym same) ne in
      rw (h, if◌then◌else◌, apart) (find-remove q p d ne)
  | inr h ↦ rw (h, if◌then◌else◌, find, find-remove q p d ne) refl
]

pub find-put_same : (p : Text) (e : StoreEntry) (d : Disk) → find p (put p e d) ≡ some e
unfolding find put
find-put_same p e d = rw (text_eq_refl p, if◌then◌else◌) refl

pub find-put :
    (q p : Text) (e : StoreEntry) (d : Disk) → text_eq q p ≡ false → find q (put p e d) ≡ find q d
unfolding find put
find-put q p e d ne = rw (ne, if◌then◌else◌) (find-remove q p d ne)
