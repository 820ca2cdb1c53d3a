-- ===== src/Keystore/AtomicWrite.antt =====
-- internal/keystore/keystore.go, `atomicWriteFile`: the states of the disk after each of its system
-- calls. A crash leaves the disk in one of them.
use degenbox_hyperliquid_cli.Base.{
  ℕ, ◌≡◌, refl, sym, ap, ◌∙◌, ◌≢◌, ◌⊎◌, inl, inr, Bool, true, false, Option, none, some, List, [],
  ◌∷◌, ◌++◌, arith, ◌==◌, if◌then◌else◌, Bool-cases, length, length-append, All, last,
}
use degenbox_hyperliquid_cli.Text.{codes}

-- A path is the list of its bytes.
abbrev pub Disk : Type 0
Disk = List ℕ → Option (List ℕ)

abbrev pub same : List ℕ → List ℕ → Bool
same [] [] = true
same [] (y ∷ ys) = false
same (x ∷ xs) [] = false
same (x ∷ xs) (y ∷ ys) = let rest = same xs ys in if x == y then rest else false

-- The disk with another content, or none, at a path.
unfoldable pub put : List ℕ → Option (List ℕ) → Disk → Disk
put path content disk p = if same path p then content else disk p

-- The system call that fails, if one does; a failing write has written some bytes.
pub data WriteOutcome : Type 0 where
  open_fails sync_fails rename_fails written : WriteOutcome
  write_fails : List ℕ → WriteOutcome

abbrev pub temporary : List ℕ → List ℕ
temporary path = path ++ codes ".tmp"

-- The states that the disk passes through, from the first call on.
unfoldable pub disks : List ℕ → List ℕ → WriteOutcome → Disk → List Disk
disks path bytes open_fails disk = []
disks path bytes (write_fails part) disk =
    put (temporary path) (some []) disk
    ∷ put (temporary path) (some part) disk
    ∷ put (temporary path) none disk
    ∷ []
disks path bytes sync_fails disk =
    put (temporary path) (some []) disk
    ∷ put (temporary path) (some bytes) disk
    ∷ put (temporary path) none disk
    ∷ []
disks path bytes rename_fails disk =
    put (temporary path) (some []) disk ∷ put (temporary path) (some bytes) disk ∷ []
disks path bytes written disk =
    put (temporary path) (some []) disk
    ∷ put (temporary path) (some bytes) disk
    ∷ put path (some bytes) (put (temporary path) none disk)
    ∷ []

unfoldable pub succeeds : WriteOutcome → Bool
succeeds written = true
succeeds other = false

-- `atomicWriteFile`: the disk in the end, and whether the error is nil.
unfoldable pub atomic_write_file : List ℕ → List ℕ → WriteOutcome → Disk → Disk × Bool
unfolding disks succeeds
atomic_write_file path bytes outcome disk =
    (last disk (disks path bytes outcome disk), succeeds outcome)

pub same_refl : (xs : List ℕ) → same xs xs ≡ true
same_refl [] = refl
same_refl (x ∷ xs) = ground (arith, same_refl xs)

pub same_eq : (xs ys : List ℕ) → same xs ys ≡ true → xs ≡ ys
same_eq [] [] h = refl
same_eq [] (y ∷ ys) h = cc
same_eq (x ∷ xs) [] h = cc
same_eq (x ∷ xs) (y ∷ ys) h = ground (arith, same_eq xs ys)

same_ne : (xs ys : List ℕ) → xs ≢ ys → same xs ys ≡ false
same_ne xs ys ne = elim (Bool-cases (same xs ys)) [
  | inl e ↦ absurd (ne (same_eq xs ys e))
  | inr e ↦ e
]

temporary_ne : (path : List ℕ) → temporary path ≢ path
temporary_ne path e = absurd (omega (arith, ap length e, length-append {0} path (codes ".tmp")))

put_self :
    (path : List ℕ) (content : Option (List ℕ)) (d : Disk) → put path content d path ≡ content
unfolding put
put_self path content d = ground (arith, same_refl path)

put_ne :
    (path q : List ℕ) (content : Option (List ℕ)) (d : Disk) → path ≢ q → put path content d q ≡ d q
unfolding put
put_ne path q content d ne = ground (arith, same_ne path q ne)

-- A state holds the old content of the path or the new one, and other paths are as they were.
pub record IsSafe (path bytes : List ℕ) (disk d : Disk) : Type 0 where
  pub whole : (d path ≡ disk path) ⊎ (d path ≡ some bytes)
  pub others : (q : List ℕ) → q ≢ path → q ≢ temporary path → d q ≡ disk q

module _ (path bytes : List ℕ) (disk : Disk) where
  put-temporary-IsSafe :
      (content : Option (List ℕ)) → IsSafe path bytes disk (put (temporary path) content disk)
  put-temporary-IsSafe content = record {
    whole = inl (put_ne _ _ _ disk (temporary_ne path));
    others = λ q p t. put_ne _ q content disk (λ e. t (sym e));
  }

  renamed-IsSafe : IsSafe path bytes disk (put path (some bytes) (put (temporary path) none disk))
  renamed-IsSafe = record {
    whole = inr (put_self path (some bytes) _);
    others = λ q p t. put_ne path q _ _ (λ e. p (sym e)) ∙ put_ne _ q none disk (λ e. t (sym e));
  }

  disks-IsSafe :
      (outcome : WriteOutcome) → All (IsSafe path bytes disk) (disks path bytes outcome disk)
  unfolding disks
  disks-IsSafe open_fails = tt
  disks-IsSafe (write_fails part) = (
    put-temporary-IsSafe (some []),
    (put-temporary-IsSafe (some part), (put-temporary-IsSafe none, tt)),
  )
  disks-IsSafe sync_fails = (
    put-temporary-IsSafe (some []),
    (put-temporary-IsSafe (some bytes), (put-temporary-IsSafe none, tt)),
  )
  disks-IsSafe rename_fails =
      (put-temporary-IsSafe (some []), (put-temporary-IsSafe (some bytes), tt))
  disks-IsSafe written =
      (put-temporary-IsSafe (some []), (put-temporary-IsSafe (some bytes), (renamed-IsSafe, tt)))

  -- What the path holds in the end: the new content exactly if no error is returned.
  pub atomic_write_file-path :
      (outcome : WriteOutcome)
      → (atomic_write_file path bytes outcome disk).0 path
        ≡ (if (atomic_write_file path bytes outcome disk).1 then some bytes else disk path)
  unfolding atomic_write_file
  atomic_write_file-path open_fails = refl
  atomic_write_file-path (write_fails part) = put_ne _ _ _ disk (temporary_ne path)
  atomic_write_file-path sync_fails = put_ne _ _ _ disk (temporary_ne path)
  atomic_write_file-path rename_fails = put_ne _ _ _ disk (temporary_ne path)
  atomic_write_file-path written = put_self path (some bytes) _

  -- Wherever the writing of a file stops, by a crash after any of its system calls or by an error
  -- of any of them, the path holds its old content or the whole new one, and no path but it and its
  -- temporary file has changed. In the end it holds the new content exactly if no error is returned.
  pub atomic_write_file_lem :
      (outcome : WriteOutcome)
      → All (IsSafe path bytes disk) (disks path bytes outcome disk)
        × ((atomic_write_file path bytes outcome disk).0 path
            ≡ (if (atomic_write_file path bytes outcome disk).1 then some bytes else disk path))
  atomic_write_file_lem outcome = (disks-IsSafe outcome, atomic_write_file-path outcome)
