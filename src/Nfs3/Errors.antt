-- ===== src/Nfs3/Errors.antt =====
-- nfsstat3_to_errno of src/nfsv3/nfs3.c.
use unfsclient.Prelude.{
  ℕ, [], if◌then◌else◌, negsuc, false, pos, Bool, ◌∷◌, ◌==◌, true, ℤ, List, ◌≡◌, ◌≢◌, ap,
  Bool-cases, refl, arith, inr, inl,
}

-- The error numbers of the system by their names; `no_error` is 0.
pub data Errno : Type 0 where
  no_error eperm enoent eio enxio eacces eexist exdev enodev enotdir eisdir einval : Errno
  efbig enospc erofs emlink enametoolong enotempty edquot estale : Errno

-- The entries before the one for -1, which ends the table.
abbrev pub nfs3errtbl : List (ℕ × Errno)
nfs3errtbl =
    (0, no_error)
    ∷ (1, eperm)
    ∷ (2, enoent)
    ∷ (5, eio)
    ∷ (6, enxio)
    ∷ (13, eacces)
    ∷ (17, eexist)
    ∷ (18, exdev)
    ∷ (19, enodev)
    ∷ (20, enotdir)
    ∷ (21, eisdir)
    ∷ (22, einval)
    ∷ (27, efbig)
    ∷ (28, enospc)
    ∷ (30, erofs)
    ∷ (31, emlink)
    ∷ (63, enametoolong)
    ∷ (66, enotempty)
    ∷ (69, edquot)
    ∷ (70, estale)
    ∷ []

-- `nfs3errtbl[i].stat == stat`: an entry's status against an int.
unfoldable pub is_stat : ℕ → ℤ → Bool
is_stat n (pos m) = n == m
is_stat n (negsuc m) = false

unfoldable pub search : List (ℕ × Errno) → ℤ → Errno
unfolding is_stat
search [] stat = eio
search ((n, syserr) ∷ tbl) stat = if is_stat n stat then syserr else search tbl stat

unfoldable pub nfsstat3_to_errno : ℤ → Errno
unfolding search
nfsstat3_to_errno = search nfs3errtbl

-- The entries are errors.
abbrev AllErrors : List (ℕ × Errno) → Type 0
AllErrors [] = Unit {0}
AllErrors ((n, syserr) ∷ tbl) = (syserr ≢ no_error) × AllErrors tbl

either_error :
    (c : Bool) (a b : Errno) → a ≢ no_error → b ≢ no_error → (if c then a else b) ≢ no_error
either_error true a b na nb = na
either_error false a b na nb = nb

tail : List (ℕ × Errno) → List (ℕ × Errno)
tail [] = []
tail (p ∷ l) = l

search-AllErrors : (tbl : List (ℕ × Errno)) (stat : ℤ) → AllErrors tbl → search tbl stat ≢ no_error
unfolding search
search-AllErrors [] stat errors = λ e. cc
search-AllErrors ((n, syserr) ∷ tbl) stat errors =
    either_error (is_stat n stat) syserr (search tbl stat) errors.0
      (search-AllErrors tbl stat errors.1)

is_stat_zero : (stat : ℤ) → is_stat 0 stat ≡ true → stat ≡ pos 0
unfolding is_stat
is_stat_zero (pos m) e = ap pos (ground (arith, e))
is_stat_zero (negsuc m) e = cc

only_first :
    (tbl : List (ℕ × Errno)) (stat : ℤ)
    → AllErrors tbl
    → search ((0, no_error) ∷ tbl) stat ≡ no_error
    → stat ≡ pos 0
unfolding search
only_first tbl stat errors e = elim (Bool-cases (is_stat 0 stat)) [
  | inl yes_zero ↦ is_stat_zero stat yes_zero
  | inr not_zero ↦ absurd (search-AllErrors tbl stat errors (rw not_zero at e))
]

all_errors : AllErrors (tail nfs3errtbl)
unfolding tail
all_errors = (
  λ e. cc,
  (
    λ e. cc,
    (
      λ e. cc,
      (
        λ e. cc,
        (
          λ e. cc,
          (
            λ e. cc,
            (
              λ e. cc,
              (
                λ e. cc,
                (
                  λ e. cc,
                  (
                    λ e. cc,
                    (
                      λ e. cc,
                      (
                        λ e. cc,
                        (
                          λ e. cc,
                          (λ e. cc, (λ e. cc, (λ e. cc, (λ e. cc, (λ e. cc, (λ e. cc, tt)))))),
                        ),
                      ),
                    ),
                  ),
                ),
              ),
            ),
          ),
        ),
      ),
    ),
  ),
)

-- A status is translated to 0 exactly when it is NFS3_OK; every other int, unknown and negative
-- ones included, is translated to an error.
pub nfsstat3_to_errno-no_error :
    (stat : ℤ)
    → (nfsstat3_to_errno stat ≡ no_error → stat ≡ pos 0)
      × (stat ≡ pos 0 → nfsstat3_to_errno stat ≡ no_error)
unfolding nfsstat3_to_errno tail
nfsstat3_to_errno-no_error stat = (only_first (tail nfs3errtbl) stat all_errors, λ e. rw e refl)
