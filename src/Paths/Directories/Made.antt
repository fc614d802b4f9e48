-- ===== src/Paths/Directories/Made.antt =====
-- The directories that `psi_vm_mkdir_p` leaves behind.
use psi_code.Prelude.{
  ℕ, ◌≡◌, refl, ap, ◌∙◌, Bool, true, false, Option, none, some, [], ◌∷◌, ◌++◌, append_assoc, Bytes,
  length, take, Bool-cases, inl, inr, Status, ok, error,
}
use psi_code.Paths.{is_separator, trim}
use psi_code.Paths.Directories.{
  Mkdir, made, exists, refused, FileSystem, is_directory, status_if, after_mkdir, after_stat,
  mkdir_one, and_then, mkdir_some, make_all, make_parents, mkdir_p,
}

error-ne-ok : {A : Type 0} → ◌≡◌ {A = Status} error ok → A
error-ne-ok h = absurd (cc h)

-- What POSIX documents of `mkdir`: where it succeeds there is a directory, and no directory is lost.
pub record Documented {Fs : Type 0} (os : FileSystem Fs) : Type 0 where
  pub creates :
      (fs : Fs) (p : Bytes) → (os.mkdir fs p).0 ≡ made → os.stat (os.mkdir fs p).1 p ≡ some true
  pub keeps :
      (fs : Fs) (p q : Bytes) → os.stat fs q ≡ some true → os.stat (os.mkdir fs p).1 q ≡ some true

module _ {Fs : Type 0} (os : FileSystem Fs) (posix : Documented os) where
  Directory : Bytes → Fs → Type 0
  Directory p fs = os.stat fs p ≡ some true

  found : (o : Option Bool) → status_if (is_directory o) ≡ ok → o ≡ some true
  found none h = error-ne-ok h
  found (some true) h = refl
  found (some false) h = error-ne-ok h

  found_at : (d : Bool) → status_if d ≡ ok → d ≡ true
  found_at true h = refl
  found_at false h = error-ne-ok h

  mkdir_one-Directory :
      (p : Bytes) (fs : Fs) → (mkdir_one os p fs).0 ≡ ok → Directory p (mkdir_one os p fs).1
  unfolding mkdir_one Directory
  mkdir_one-Directory [] fs h = error-ne-ok h
  mkdir_one-Directory (c ∷ cs) fs h = by_stat (os.stat fs (c ∷ cs)) refl h
    where
      by_mkdir :
          (m : Mkdir) (fs1 : Fs)
          → (m ≡ made → os.stat fs1 (c ∷ cs) ≡ some true)
          → (after_mkdir os (c ∷ cs) (m, fs1)).0 ≡ ok
          → os.stat (after_mkdir os (c ∷ cs) (m, fs1)).1 (c ∷ cs) ≡ some true
      by_mkdir made fs1 k h = k refl
      by_mkdir exists fs1 k h = found (os.stat fs1 (c ∷ cs)) h
      by_mkdir refused fs1 k h = error-ne-ok h

      by_stat :
          (o : Option Bool)
          → os.stat fs (c ∷ cs) ≡ o
          → (after_stat os (c ∷ cs) fs o).0 ≡ ok
          → os.stat (after_stat os (c ∷ cs) fs o).1 (c ∷ cs) ≡ some true
      by_stat none e h =
          by_mkdir (os.mkdir fs (c ∷ cs)).0 (os.mkdir fs (c ∷ cs)).1 (posix.creates fs (c ∷ cs)) h
      by_stat (some d) e h = e ∙ ap some (found_at d h)

  mkdir_one-keeps : (p q : Bytes) (fs : Fs) → Directory q fs → Directory q (mkdir_one os p fs).1
  unfolding mkdir_one Directory
  mkdir_one-keeps [] q fs d = d
  mkdir_one-keeps (c ∷ cs) q fs d = by_stat (os.stat fs (c ∷ cs))
    where
      by_mkdir :
          (m : Mkdir) (fs1 : Fs)
          → os.stat fs1 q ≡ some true
          → os.stat (after_mkdir os (c ∷ cs) (m, fs1)).1 q ≡ some true
      by_mkdir made fs1 k = k
      by_mkdir exists fs1 k = k
      by_mkdir refused fs1 k = k

      by_stat : (o : Option Bool) → os.stat (after_stat os (c ∷ cs) fs o).1 q ≡ some true
      by_stat none =
          by_mkdir (os.mkdir fs (c ∷ cs)).0 (os.mkdir fs (c ∷ cs)).1 (posix.keeps fs (c ∷ cs) q d)
      by_stat (some b) = d

  -- The rest of a chain.
  and_then-keeps :
      (r : Status × Fs) (f : Fs → Status × Fs) (q : Bytes)
      → Directory q r.1
      → ((fs : Fs) → Directory q fs → Directory q (f fs).1)
      → Directory q (and_then os r f).1
  and_then-keeps (error, fs) f q d h = d
  and_then-keeps (ok, fs) f q d h = h fs d

  mkdir_some-keeps : (p q : Bytes) (fs : Fs) → Directory q fs → Directory q (mkdir_some os p fs).1
  mkdir_some-keeps [] q fs d = d
  mkdir_some-keeps (c ∷ cs) q fs d = mkdir_one-keeps (c ∷ cs) q fs d

  make_all-keeps :
      (skip : Bool) (front rest q : Bytes) (fs : Fs)
      → Directory q fs
      → Directory q (make_all os skip front rest fs).1
  unfolding make_all
  make_all-keeps skip front [] q fs d = d
  make_all-keeps skip front (c ∷ rest) q fs d = elim (Bool-cases (is_separator c)) [
    | inr s ↦ rw s (make_all-keeps false (front ++ (c ∷ [])) rest q fs d)
    | inl s ↦ elim (Bool-cases skip) [
      | inl k ↦ rw (s, k) (make_all-keeps true (front ++ (c ∷ [])) rest q fs d)
      | inr k ↦
          rw (s, k)
            (and_then-keeps (mkdir_some os front fs) _ q (mkdir_some-keeps front q fs d)
              (λ fs1 d1. make_all-keeps true (front ++ (c ∷ [])) rest q fs1 d1))
    ]
  ]

  -- A chain that succeeds.
  and_then-Directory :
      (r : Status × Fs) (f : Fs → Status × Fs) (q : Bytes)
      → (and_then os r f).0 ≡ ok
      → (r.0 ≡ ok → (f r.1).0 ≡ ok → Directory q (f r.1).1)
      → Directory q (and_then os r f).1
  and_then-Directory (error, fs) f q h k = error-ne-ok h
  and_then-Directory (ok, fs) f q h k = k refl h

  mkdir_some-Directory :
      (front : Bytes) (c : ℕ) (fs : Fs)
      → (mkdir_some os (front ++ (c ∷ [])) fs).0 ≡ ok
      → Directory (front ++ (c ∷ [])) (mkdir_some os (front ++ (c ∷ [])) fs).1
  mkdir_some-Directory [] c fs h = mkdir_one-Directory (c ∷ []) fs h
  mkdir_some-Directory (x ∷ xs) c fs h = mkdir_one-Directory (x ∷ (xs ++ (c ∷ []))) fs h

  -- Where a name ends in front of a separator.
  make_all-Directory :
      (pre : Bytes) (skip : Bool) (front : Bytes) (c d : ℕ) (suf : Bytes) (fs : Fs)
      → is_separator c ≡ false
      → is_separator d ≡ true
      → (make_all os skip front (pre ++ (c ∷ (d ∷ suf))) fs).0 ≡ ok
      → Directory
          (front ++ (pre ++ (c ∷ [])))
          (make_all os skip front (pre ++ (c ∷ (d ∷ suf))) fs).1
  unfolding make_all
  make_all-Directory [] skip front c d suf fs n s h =
      let p = front ++ (c ∷ []) in
      rw (n, s)
        (and_then-Directory (mkdir_some os p fs) (λ fs1. make_all os true (p ++ (d ∷ [])) suf fs1) p
          (rw (n, s) at h)
          (λ first all.
            make_all-keeps true (p ++ (d ∷ [])) suf p _ (mkdir_some-Directory front c fs first)))
  make_all-Directory (x ∷ pre) skip front c d suf fs n s h =
      let front1 = front ++ (x ∷ []) in
      let rest = pre ++ (c ∷ (d ∷ suf)) in
      let same_path = append_assoc front (x ∷ []) (pre ++ (c ∷ [])) in
      elim (Bool-cases (is_separator x)) [
        | inr m ↦
            rw m (rw same_path at (make_all-Directory pre false front1 c d suf fs n s (rw m at h)))
        | inl m ↦ elim (Bool-cases skip) [
          | inl k ↦
              rw (m, k)
                (rw same_path at
                  (make_all-Directory pre true front1 c d suf fs n s (rw (m, k) at h)))
          | inr k ↦
              rw (m, k)
                (and_then-Directory (mkdir_some os front fs)
                  (λ fs1. make_all os true front1 rest fs1) (front ++ (x ∷ (pre ++ (c ∷ []))))
                  (rw (m, k) at h)
                  (λ first all.
                    rw same_path at (make_all-Directory pre true front1 c d suf _ n s all)))
        ]
      ]

  make_parents-Directory :
      (pre : Bytes) (c d : ℕ) (suf : Bytes) (fs : Fs)
      → is_separator c ≡ false
      → is_separator d ≡ true
      → (make_parents os (pre ++ (c ∷ (d ∷ suf))) fs).0 ≡ ok
      → Directory (pre ++ (c ∷ [])) (make_parents os (pre ++ (c ∷ (d ∷ suf))) fs).1
  make_parents-Directory [] c d suf fs n s h =
      rw n (make_all-Directory [] false [] c d suf fs n s (rw n at h))
  make_parents-Directory (x ∷ pre) c d suf fs n s h = elim (Bool-cases (is_separator x)) [
    | inl m ↦ rw m (make_all-Directory pre false (x ∷ []) c d suf fs n s (rw m at h))
    | inr m ↦ rw m (make_all-Directory (x ∷ pre) false [] c d suf fs n s (rw m at h))
  ]

  -- Each place in a path where a name ends, and the path itself, is a directory.
  pub record IsMade (path : Bytes) (fs : Fs) : Type 0 where
    pub whole : os.stat fs path ≡ some true
    pub parents :
        (pre : Bytes) (c d : ℕ) (suf : Bytes)
        → path ≡ pre ++ (c ∷ (d ∷ suf))
        → is_separator c ≡ false
        → is_separator d ≡ true
        → os.stat fs (pre ++ (c ∷ [])) ≡ some true

  all-IsMade :
      (buf : Bytes) (fs : Fs)
      → (and_then os (make_parents os buf fs) (λ fs1. mkdir_one os buf fs1)).0 ≡ ok
      → IsMade buf (and_then os (make_parents os buf fs) (λ fs1. mkdir_one os buf fs1)).1
  unfolding Directory
  all-IsMade buf fs h =
      let r = make_parents os buf fs in
      record {
        whole =
            and_then-Directory r (λ fs1. mkdir_one os buf fs1) buf h
              (λ first last. mkdir_one-Directory buf _ last);
        parents = λ pre c d suf e n s.
            and_then-Directory r (λ fs1. mkdir_one os buf fs1) (pre ++ (c ∷ [])) h
              (λ first last. mkdir_one-keeps buf _ _ (parent pre c d suf e n s first));
      }
    where
      parent :
          (pre : Bytes) (c d : ℕ) (suf : Bytes)
          → buf ≡ pre ++ (c ∷ (d ∷ suf))
          → is_separator c ≡ false
          → is_separator d ≡ true
          → (make_parents os buf fs).0 ≡ ok
          → os.stat (make_parents os buf fs).1 (pre ++ (c ∷ [])) ≡ some true
      parent pre c d suf e n s h = rw e (make_parents-Directory pre c d suf fs n s (rw e at h))

  -- When mkdir creates a directory where it succeeds and loses none, and psi_vm_mkdir_p succeeds,
  -- the path without the separators at its end is a directory afterwards, and so is each part of
  -- it that ends in a name in front of a separator.
  pub mkdir_p-IsMade :
      (granted : Bool) (path : Bytes) (fs : Fs)
      → (mkdir_p os granted path fs).0 ≡ ok
      → IsMade (take (trim path (length path)) path) (mkdir_p os granted path fs).1
  unfolding mkdir_p
  mkdir_p-IsMade granted [] fs h = error-ne-ok h
  mkdir_p-IsMade true (c ∷ cs) fs h = all-IsMade _ fs h
  mkdir_p-IsMade false (c ∷ cs) fs h = error-ne-ok h
