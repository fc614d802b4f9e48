-- ===== src/Paths/Directories/Tests.antt =====
-- A file system of directories, and the parents of a path in it (src/lua/vm.c).
use psi_code.Prelude.{
  ◌≡◌, refl, Bool, true, false, ◌||◌, none, some, List, [], ◌∷◌, Bytes, codes, strcmp_eq,
  strcmp_eq_refl, if◌then◌else◌, length, take, ok,
}
use psi_code.Paths.{trim}
use psi_code.Paths.Directories.{made, FileSystem, mkdir_p, make_all, mkdir_one}
use psi_code.Paths.Directories.Made.{Documented, IsMade, mkdir_p-IsMade}

abbrev has : Bytes → List Bytes → Bool
has q [] = false
has q (p ∷ fs) = strcmp_eq q p || has q fs

abbrev directories : FileSystem (List Bytes)
directories = record {
  stat = λ fs p. if has p fs then some true else none;
  mkdir = λ fs p. (made, p ∷ fs);
}

has_more :
    (a b : Bool)
    → (if b then some true else none) ≡ some true
    → (if a || b then some true else none) ≡ some true
has_more true b h = refl
has_more false b h = h

directories-Documented : Documented directories
directories-Documented = record {
  creates = λ fs p h. rw (strcmp_eq_refl p) refl;
  keeps = λ fs p q h. has_more (strcmp_eq q p) (has q fs) h;
}

made_all :
    mkdir_p directories true (codes "a/b//c/") []
    ≡ (ok, codes "a/b//c" ∷ (codes "a/b" ∷ (codes "a" ∷ [])))
unfolding mkdir_p make_all mkdir_one trim strcmp_eq
made_all = refl

succeeds : (mkdir_p directories true (codes "a/b//c/") []).0 ≡ ok
unfolding mkdir_p make_all mkdir_one trim strcmp_eq
succeeds = refl

mkdir_p-IsMade_example :
    IsMade directories directories-Documented
      (take (trim (codes "a/b//c/") (length (codes "a/b//c/"))) (codes "a/b//c/"))
      (mkdir_p directories true (codes "a/b//c/") []).1
mkdir_p-IsMade_example =
    mkdir_p-IsMade directories directories-Documented true (codes "a/b//c/") [] succeeds
