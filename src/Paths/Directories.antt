-- ===== src/Paths/Directories.antt =====
-- `psi_vm_mkdir_p` of src/lua/vm.c, over a file system that answers `stat` and `mkdir`.
pub mod Made
mod Tests
use psi_code.Prelude.{
  ℕ, Bool, true, false, not, ◌&&◌, ◌||◌, Option, none, some, List, [], ◌∷◌, ◌++◌, Bytes, length,
  take, if◌then◌else◌, Status, ok, error,
}
use psi_code.Paths.{is_separator, trim}

-- What `mkdir` answers: 0, EEXIST, or another error.
pub data Mkdir : Type 0 where
  made exists refused : Mkdir

-- `stat` says whether there is a directory or something else; `none` is an error.
pub record FileSystem (Fs : Type 0) : Type 0 where
  pub stat : Fs → Bytes → Option Bool
  pub mkdir : Fs → Bytes → Mkdir × Fs

abbrev pub is_directory : Option Bool → Bool
is_directory none = false
is_directory (some d) = d

abbrev pub status_if : Bool → Status
status_if true = ok
status_if false = error

module _ {Fs : Type 0} (os : FileSystem Fs) where
  abbrev pub after_mkdir : Bytes → Mkdir × Fs → Status × Fs
  after_mkdir path (made, fs) = (ok, fs)
  after_mkdir path (exists, fs) = (status_if (is_directory (os.stat fs path)), fs)
  after_mkdir path (refused, fs) = (error, fs)

  abbrev pub after_stat : Bytes → Fs → Option Bool → Status × Fs
  after_stat path fs (some d) = (status_if d, fs)
  after_stat path fs none = after_mkdir path (os.mkdir fs path)

  unfoldable pub mkdir_one : Bytes → Fs → Status × Fs
  mkdir_one [] fs = (error, fs)
  mkdir_one (c ∷ cs) fs = after_stat (c ∷ cs) fs (os.stat fs (c ∷ cs))

  abbrev pub and_then : Status × Fs → (Fs → Status × Fs) → Status × Fs
  and_then (error, fs) f = (error, fs)
  and_then (ok, fs) f = f fs

  -- `buf[0] != '\0'`
  abbrev pub mkdir_some : Bytes → Fs → Status × Fs
  mkdir_some [] fs = (ok, fs)
  mkdir_some (c ∷ cs) fs = mkdir_one (c ∷ cs) fs

  -- The loop, with what is in front of `i` and what is from there on. `skip` says that the byte in front
  -- is a separator that has been dealt with.
  unfoldable pub make_all : Bool → Bytes → Bytes → Fs → Status × Fs
  unfolding mkdir_one
  make_all skip front [] fs = (ok, fs)
  make_all skip front (c ∷ rest) fs =
      if not (is_separator c)
      then make_all false (front ++ (c ∷ [])) rest fs
      else if skip
      then make_all true (front ++ (c ∷ [])) rest fs
      else and_then (mkdir_some front fs) λ fs1. make_all true (front ++ (c ∷ [])) rest fs1

  abbrev pub make_parents : Bytes → Fs → Status × Fs
  make_parents [] fs = (ok, fs)
  make_parents (c ∷ cs) fs =
      if is_separator c then make_all false (c ∷ []) cs fs else make_all false [] (c ∷ cs) fs

  -- The copy of the path is `granted`.
  unfoldable pub mkdir_p : Bool → Bytes → Fs → Status × Fs
  unfolding make_all mkdir_one trim
  mkdir_p granted [] fs = (error, fs)
  mkdir_p granted (c ∷ cs) fs =
      let buf = take (trim (c ∷ cs) (length (c ∷ cs))) (c ∷ cs) in
      if granted then and_then (make_parents buf fs) (λ fs1. mkdir_one buf fs1) else (error, fs)
