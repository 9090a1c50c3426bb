-- ===== src/Filesystem/Block/Disk.antt =====
-- The file system as filesystem/block/file.go uses it: whole files by path, appends, and a choice of
-- the paths that can be opened for writing and written. A write that fails may leave its first
-- bytes in the file: `torn_after` says how many, at most.
use tick_framework.Base.{
  ℕ, ◌≡◌, refl, Bool, false, [], ◌∷◌, ◌++◌, Option, none, some, arith, Bytes, length, suc, GoMap,
  lookup, assign, delete, lookup-assign, bytes_eq, bytes_eq_iff, bytes_eq_refl, if◌then◌else◌, ◌==◌,
  Res, ok, fail,
}
use tick_framework.Utility.Kvstore.{Error, io_error}

pub record Disk : Type 0 where
  pub files : GoMap Bytes
  pub writable : Bytes → Bool
  pub torn_after : Bytes → ℕ

-- How a write to a file ends: `some n` is a failure after `n` bytes.
abbrev pub refusal : Disk → Bytes → Option ℕ
refusal disk path = if disk.writable path then none else some (disk.torn_after path)

abbrev content_or_empty : Option Bytes → Bytes
content_or_empty none = []
content_or_empty (some c) = c

-- What a file holds; nothing if there is none.
unfoldable pub contents : Disk → Bytes → Bytes
contents disk path = content_or_empty (lookup path disk.files)

-- `os.OpenFile` with O_WRONLY, O_CREATE and O_APPEND; `trunc` is O_TRUNC.
unfoldable pub open_append : Bytes → Bool → Disk → Res Error Disk
open_append path trunc disk =
    if disk.writable path
    then ok
        (record disk { files = assign path (if trunc then [] else contents disk path) disk.files })
    else fail io_error

-- The file with these contents in place of the old ones.
abbrev pub put : Bytes → Bytes → Disk → Disk
put path content disk = record disk { files = assign path content disk.files }

-- `os.Rename`
unfoldable pub rename : Bytes → Bytes → Disk → Disk
rename from to disk = record disk {
  files = assign to (contents disk from) (delete from disk.files);
}

abbrev pub slash : ℕ
slash = b'/'

-- the name without its leading slashes
unfoldable pub strip : Bytes → Bytes
strip [] = []
strip (c ∷ s) = if c == slash then strip s else c ∷ s

-- `filepath.Join` of a clean directory other than the root with a name that is clean but for
-- leading slashes.
unfoldable pub join : Bytes → Bytes → Bytes
join dir name = dir ++ slash ∷ strip name

-- `strings.TrimPrefix`; `all` is the text that is returned where the prefix does not fit.
unfoldable pub trim_from : Bytes → Bytes → Bytes → Bytes
trim_from all s [] = s
trim_from all [] (p ∷ prefix) = all
trim_from all (c ∷ s) (p ∷ prefix) = if c == p then trim_from all s prefix else all

unfoldable pub trim_prefix : Bytes → Bytes → Bytes
trim_prefix s prefix = trim_from s s prefix

trim_from-append : (all prefix r : Bytes) → trim_from all (prefix ++ r) prefix ≡ r
unfolding trim_from
trim_from-append all [] [] = refl
trim_from-append all [] (c ∷ r) = refl
trim_from-append all (p ∷ prefix) r = ground (arith, trim_from-append all prefix r)

strip_idempotent : (s : Bytes) → strip (strip s) ≡ strip s
unfolding strip
strip_idempotent [] = refl
strip_idempotent (c ∷ s) = ground (arith, strip_idempotent s)

-- The name that an index entry keeps, joined to the directory again, is the path it came from.
pub join-trim_prefix :
    (dir name : Bytes) → join dir (trim_prefix (join dir name) dir) ≡ join dir name
unfolding join trim_prefix strip
join-trim_prefix dir name =
    simp (trim_from-append (dir ++ slash ∷ strip name) dir (slash ∷ strip name), strip_idempotent)

-- The name that an entry keeps is not empty.
pub length-trim_prefix :
    (dir name path : Bytes)
    → path ≡ join dir name
    → length (trim_prefix path dir) ≡ suc (length (strip name))
unfolding join trim_prefix
length-trim_prefix dir name path e =
    rw (e, trim_from-append (dir ++ slash ∷ strip name) dir (slash ∷ strip name))

pub join-trim_prefix_of :
    (dir name path : Bytes) → path ≡ join dir name → join dir (trim_prefix path dir) ≡ path
join-trim_prefix_of dir name path e = rw e (join-trim_prefix dir name)

module _ (path : Bytes) (disk : Disk) where
  pub lookup-put_self : (content : Bytes) → lookup path (put path content disk).files ≡ some content
  lookup-put_self content = rw (lookup-assign path path content disk.files, bytes_eq_refl path)

  pub lookup-put_ne :
      (content other : Bytes)
      → bytes_eq path other ≡ false
      → lookup other (put path content disk).files ≡ lookup other disk.files
  lookup-put_ne content other h = rw (lookup-assign path other content disk.files, h)

  pub contents-put_self : (content : Bytes) → contents (put path content disk) path ≡ content
  unfolding contents
  contents-put_self content =
      ground (arith, lookup-assign path path content disk.files, bytes_eq_iff path path)

  pub contents-put_ne :
      (content other : Bytes)
      → bytes_eq path other ≡ false
      → contents (put path content disk) other ≡ contents disk other
  unfolding contents
  contents-put_ne content other h = ground (arith, lookup-assign path other content disk.files)
