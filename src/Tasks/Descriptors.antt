-- ===== src/Tasks/Descriptors.antt =====
-- The numbers of the open files of a task (task.go): OpenFD, CloseFD and FD.
use wanix.Base.{
  ℕ, ◌+◌, ◌≤◌, ◌<◌, ◌≡◌, refl, ◌∙◌, Bytes, Bool, true, false, not, ◌&&◌, Option, none, some, List,
  [], ◌∷◌, arith, ◌==◌, ltb, nat_eq, eq_refl, eq_nat_iff, lookup, put, lookup-put, lookup-delete,
  Bool-cases, Option-cases, inl, inr,
}
use wanix.Errors.{Result, ok, err}
use wanix.Tasks.{
  Calls, Task, OpenFile, open_fd, close_fd, close_found, fd_file, fd_name, std_opened,
}

module _ {Ns F D : Type 0} where
  -- No number above the last one given is in use, and the first three are not given.
  pub record IsNumbered (t : Task Ns F D) : Type 0 where
    pub beyond : (fd : ℕ) → t.fd_idx < fd → lookup fd t.fds ≡ none
    pub standard : 3 ≤ t.fd_idx

  pub open_fd-IsNumbered :
      (file : F) (path : Bytes) (t : Task Ns F D)
      → IsNumbered t
      → IsNumbered (open_fd file path t).1
  unfolding open_fd
  open_fd-IsNumbered file path t h = record {
    beyond = λ fd far. ground (
      arith,
      lookup-put (t.fd_idx + 1) fd (record { file = file; path = path }) t.fds,
      h.beyond fd (omega (arith, far)),
      eq_nat_iff (t.fd_idx + 1) fd,
      far,
    );
    standard = omega (arith, h.standard);
  }

pub data Call (F : Type 0) : Type 0 where
  opening : F → Bytes → Call F
  closing : ℕ → Call F
  asking : ℕ → Call F

module _ {F : Type 0} where
  abbrev pub is_close : ℕ → Call F → Bool
  is_close fd (closing k) = k == fd
  is_close fd _ = false

  -- None of the calls closes the number.
  abbrev pub spares : ℕ → List (Call F) → Bool
  spares fd [] = true
  spares fd (call ∷ calls) = not (is_close fd call) && spares fd calls

module _ {Ns F D : Type 0} where
  -- An open file that is found under its number, and no standard one.
  record Holds (fd : ℕ) (f : OpenFile F) (t : Task Ns F D) : Type 0 where
    pub there : lookup fd t.fds ≡ some f
    pub given : fd ≤ t.fd_idx
    pub high : 3 ≤ fd

module _ {Ns F D : Type 0} (c : Calls Ns F) where
  unfoldable pub perform : Call F → Task Ns F D → Task Ns F D
  unfolding open_fd close_fd fd_file
  perform (opening file path) t = (open_fd file path t).1
  perform (closing fd) t = (close_fd c fd t).1
  perform (asking fd) t = (fd_file c fd t).1

  unfoldable pub run : List (Call F) → Task Ns F D → Task Ns F D
  unfolding perform
  run [] t = t
  run (call ∷ calls) t = run calls (perform call t)

  close_fd-IsNumbered : (fd : ℕ) (t : Task Ns F D) → IsNumbered t → IsNumbered (close_fd c fd t).1
  unfolding close_fd
  close_fd-IsNumbered fd t h = elim (Bool-cases (ltb t.fd_idx fd)) [
    | inl far ↦ rw far h
    | inr near ↦ elim (Option-cases (lookup fd t.fds)) [
      | inl absent ↦ rw (near, absent) h
      | inr (f, there) ↦
          rw (near, there)
            (record {
              beyond = λ k far. ground (arith, lookup-delete fd k t.fds, h.beyond k far);
              standard = h.standard;
            })
    ]
  ]

  std_opened-IsNumbered :
      (fd : ℕ) (name : Bytes) (r : Result F) (t : Task Ns F D)
      → fd < 3
      → IsNumbered t
      → IsNumbered (std_opened fd name r t).1
  std_opened-IsNumbered fd name (err e) t low h = h
  std_opened-IsNumbered fd name (ok file) t low h = record {
    beyond = λ k far. ground (
      arith,
      lookup-put fd k (record { file = file; path = name }) t.fds,
      h.beyond k far,
      eq_nat_iff fd k,
      far,
      low,
      h.standard,
    );
    standard = h.standard;
  }

  fd_file-IsNumbered : (fd : ℕ) (t : Task Ns F D) → IsNumbered t → IsNumbered (fd_file c fd t).1
  unfolding fd_file
  fd_file-IsNumbered fd t h = elim (Bool-cases (ltb t.fd_idx fd)) [
    | inl far ↦ rw far h
    | inr near ↦ elim (Bool-cases (ltb fd 3)) [
      | inl low ↦
          rw (near, low)
            (std_opened-IsNumbered fd (fd_name c fd t) (c.open_in t.ns (fd_name c fd t)) t
              (ground (arith, low)) h)
      | inr high ↦ rw (near, high) h
    ]
  ]

  pub run-IsNumbered :
      (calls : List (Call F)) (t : Task Ns F D) → IsNumbered t → IsNumbered (run calls t)
  unfolding run
  run-IsNumbered [] t h = h
  run-IsNumbered (opening file path ∷ calls) t h =
      run-IsNumbered calls (open_fd file path t).1 (open_fd-IsNumbered file path t h)
  run-IsNumbered (closing fd ∷ calls) t h =
      run-IsNumbered calls (close_fd c fd t).1 (close_fd-IsNumbered fd t h)
  run-IsNumbered (asking fd ∷ calls) t h =
      run-IsNumbered calls (fd_file c fd t).1 (fd_file-IsNumbered fd t h)

  close_found-Holds :
      (k fd : ℕ) (f : OpenFile F) (o : Option (OpenFile F)) (t : Task Ns F D)
      → (k == fd) ≡ false
      → Holds fd f t
      → Holds fd f (close_found c k o t).1
  close_found-Holds k fd f none t other h = h
  close_found-Holds k fd f (some g) t other h = record {
    there = lookup-delete k fd t.fds ∙ rw other h.there;
    given = h.given;
    high = h.high;
  }

  std_opened-Holds :
      (k fd : ℕ) (f : OpenFile F) (name : Bytes) (r : Result F) (t : Task Ns F D)
      → k < 3
      → Holds fd f t
      → Holds fd f (std_opened k name r t).1
  std_opened-Holds k fd f name (err e) t low h = h
  std_opened-Holds k fd f name (ok file) t low h = record {
    there = ground (
      arith,
      lookup-put k fd (record { file = file; path = name }) t.fds,
      h.there,
      h.high,
      low,
      eq_nat_iff k fd,
    );
    given = h.given;
    high = h.high;
  }

  close_fd-Holds :
      (k fd : ℕ) (f : OpenFile F) (t : Task Ns F D)
      → (k == fd) ≡ false
      → Holds fd f t
      → Holds fd f (close_fd c k t).1
  unfolding close_fd
  close_fd-Holds k fd f t other h = elim (Bool-cases (ltb t.fd_idx k)) [
    | inl far ↦ rw far h
    | inr near ↦ rw near (close_found-Holds k fd f (lookup k t.fds) t other h)
  ]

  fd_file-Holds :
      (k fd : ℕ) (f : OpenFile F) (t : Task Ns F D) → Holds fd f t → Holds fd f (fd_file c k t).1
  unfolding fd_file
  fd_file-Holds k fd f t h = elim (Bool-cases (ltb t.fd_idx k)) [
    | inl far ↦ rw far h
    | inr near ↦ elim (Bool-cases (ltb k 3)) [
      | inl low ↦
          rw (near, low)
            (std_opened-Holds k fd f (fd_name c k t) (c.open_in t.ns (fd_name c k t)) t
              (ground (arith, low)) h)
      | inr high ↦ rw (near, high) h
    ]
  ]

  perform-Holds :
      (call : Call F) (fd : ℕ) (f : OpenFile F) (t : Task Ns F D)
      → is_close fd call ≡ false
      → Holds fd f t
      → Holds fd f (perform call t)
  unfolding perform open_fd
  perform-Holds (opening file path) fd f t other h = record {
    there = ground (
      arith,
      lookup-put (t.fd_idx + 1) fd (record { file = file; path = path }) t.fds,
      h.there,
      h.given,
      eq_nat_iff (t.fd_idx + 1) fd,
    );
    given = omega (arith, h.given);
    high = h.high;
  }
  perform-Holds (closing k) fd f t other h = close_fd-Holds k fd f t other h
  perform-Holds (asking k) fd f t other h = fd_file-Holds k fd f t h

  run-Holds :
      (calls : List (Call F)) (fd : ℕ) (f : OpenFile F) (t : Task Ns F D)
      → spares fd calls ≡ true
      → Holds fd f t
      → Holds fd f (run calls t)
  unfolding run
  run-Holds [] fd f t spared h = h
  run-Holds (call ∷ calls) fd f t spared h = elim (Bool-cases (is_close fd call)) [
    | inl closes ↦ absurd (ground (arith, spared, closes))
    | inr other ↦
        run-Holds calls fd f (perform call t) (rw other at spared)
          (perform-Holds call fd f t other h)
  ]

  Holds-fd_file :
      (fd : ℕ) (f : OpenFile F) (t : Task Ns F D)
      → Holds fd f t
      → (fd_file c fd t).0 ≡ ok (f.file, f.path)
  unfolding fd_file
  Holds-fd_file fd f t h =
      let near : ltb t.fd_idx fd ≡ false = ground (arith, h.given) in
      let high : ltb fd 3 ≡ false = ground (arith, h.high) in rw (near, high, h.there) refl

  -- OpenFD gives a number that no open file of the task has, and FD of that number gives the file
  -- and its path after any further calls of OpenFD, CloseFD and FD, none of which closes that
  -- number; for a task that has no number above the last one given.
  pub run-open_fd :
      (file : F) (path : Bytes) (calls : List (Call F)) (t : Task Ns F D)
      → IsNumbered t
      → spares (open_fd file path t).0 calls ≡ true
      → (lookup (open_fd file path t).0 t.fds ≡ none)
        × ((fd_file c (open_fd file path t).0 (run calls (open_fd file path t).1)).0
            ≡ ok (file, path))
  unfolding open_fd
  run-open_fd file path calls t h spared =
      let f : OpenFile F = record { file = file; path = path } in
      let fd = t.fd_idx + 1 in
      let t' = record t { fd_idx = fd; fds = put fd f t.fds } in
      let held : Holds fd f t' = record {
        there = lookup-put fd fd f t.fds ∙ rw (eq_refl fd) refl;
        given = omega arith;
        high = omega (arith, h.standard);
      } in
      (
        h.beyond fd (omega arith),
        Holds-fd_file fd f (run calls t') (run-Holds calls fd f t' spared held),
      )
