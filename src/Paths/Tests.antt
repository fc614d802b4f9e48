-- ===== src/Paths/Tests.antt =====
-- Runs of the path functions, and their theorem at a concrete path.
use psi_code.Prelude.{◌≡◌, refl, true, none, some, arith, codes, strcmp_eq, byte_at}
use psi_code.Paths.{path_join, resolve_path, parent_directory}
use psi_code.Paths.Parent.{parent_directory-path_join}

join-run : path_join true (some (codes "/home/a")) (some (codes "b.c")) ≡ some (codes "/home/a/b.c")
unfolding path_join
join-run = refl

parent_directory-path_join_example :
    parent_directory true (codes "/home/a/b.c") ≡ some (codes "/home/a")
unfolding strcmp_eq byte_at
parent_directory-path_join_example =
    parent_directory-path_join true (codes "/home/a") (codes "b.c") (codes "/home/a/b.c")
      (omega arith) refl refl (omega arith) (refl, (refl, (refl, tt))) join-run

parent-root : parent_directory true (codes "//x/") ≡ some (codes "/")
unfolding parent_directory
parent-root = refl

resolve-home :
    resolve_path true true (some (codes "/home/a")) (some (codes "/tmp")) (codes "@~/x")
    ≡ some (codes "/home/a/x")
unfolding resolve_path
resolve-home = refl

resolve-relative :
    resolve_path true true none (some (codes "/tmp")) (codes "x") ≡ some (codes "/tmp/x")
unfolding resolve_path
resolve-relative = refl
