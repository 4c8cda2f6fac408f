-- ===== src/Nodes/Splice.antt =====
-- Write of fs/fskit/node.go: what its copies leave in the data of the file.
use wanix.Base.{
  ℕ, zero, suc, ◌+◌, ◌-◌, ◌≤◌, ◌<◌, Bytes, ◌≡◌, refl, false, inl, inr, [], ◌∷◌, ◌++◌, arith, ltb,
  length, take, drop, Bool-cases, length-append, length-take, length-replicate, drop-drop,
  drop-length, append-nil, length-drop,
}
use wanix.Nodes.{copy, copy_at, written, zeros}

pub take-length : (n : ℕ) (xs : Bytes) → length xs ≤ n → take n xs ≡ xs
take-length zero [] h = refl
take-length zero (x ∷ xs) h = absurd (omega arith)
take-length (suc n) [] h = refl
take-length (suc n) (x ∷ xs) h = rw (take-length n xs (omega arith))

pub length-zeros : (n : ℕ) → length (zeros n) ≡ n
length-zeros n = length-replicate n zero

take-replicate : (n k : ℕ) → n ≤ k → take n (zeros k) ≡ zeros n
take-replicate zero k h = refl
take-replicate (suc n) zero h = absurd (omega arith)
take-replicate (suc n) (suc k) h = rw (take-replicate n k (omega arith))

drop-replicate : (n k : ℕ) → drop n (zeros k) ≡ zeros (k - n)
drop-replicate zero k = let e : k - zero ≡ k = omega arith in rw e
drop-replicate (suc n) zero = let e : zero - suc n ≡ zero = omega arith in rw e
drop-replicate (suc n) (suc k) =
    let e : suc k - suc n ≡ k - n = omega arith in rw e (drop-replicate n k)

-- Past the zeros that are needed, more of them change nothing.
take-padded :
    (n k : ℕ) (xs : Bytes)
    → n - length xs ≤ k
    → take n (xs ++ zeros k) ≡ take n (xs ++ zeros (n - length xs))
take-padded zero k xs h = refl
take-padded (suc n) k [] h =
    let e : suc n - zero ≡ suc n = omega arith in
    rw (e, take-replicate (suc n) k (omega arith), take-replicate (suc n) (suc n) (omega arith))
take-padded (suc n) k (x ∷ xs) h =
    let e : suc n - length (x ∷ xs) ≡ n - length xs = omega arith in
    rw (e, take-padded n k xs (omega arith))

-- A copy into zeros that are longer pads the source with them.
copy-zeros : (n : ℕ) (xs : Bytes) → length xs ≤ n → copy (zeros n) xs ≡ xs ++ zeros (n - length xs)
copy-zeros n xs h = rw (length-zeros n, take-length n xs h, drop-replicate (length xs) n)

pub length-padded : (n : ℕ) (xs : Bytes) → length xs ≤ n → length (copy (zeros n) xs) ≡ n
length-padded n xs h =
    rw (copy-zeros n xs h)
      (omega (arith, length-append xs (zeros (n - length xs)), length-zeros (n - length xs)))

pub copy_at-grown :
    (cur : ℕ) (b old : Bytes)
    → length old < cur + length b
    → copy_at cur (copy (zeros (cur + length b)) old) b
      ≡ take cur (old ++ zeros (cur - length old)) ++ (b ++ drop (cur + length b) old)
copy_at-grown cur b old h =
    let k = cur + length b - length old in
    let grown = old ++ zeros k in
    let size : length grown ≡ cur + length b =
      omega (arith, length-append old (zeros k), length-zeros k) in
    let room : length b ≤ length (drop cur grown) = omega (arith, length-drop cur grown) in
    let over : drop (length b) (drop cur grown) ≡ [] =
      drop-length (length b) (drop cur grown) (omega (arith, length-drop cur grown)) in
    rw (
      copy-zeros (cur + length b) old (omega arith),
      take-padded cur k old (omega arith),
      take-length (length (drop cur grown)) b room,
      over,
      append-nil,
      drop-length (cur + length b) old (omega arith),
      append-nil,
    )

pub copy_at-inside :
    (cur : ℕ) (b old : Bytes)
    → cur + length b ≤ length old
    → copy_at cur old b
      ≡ take cur (old ++ zeros (cur - length old)) ++ (b ++ drop (cur + length b) old)
copy_at-inside cur b old h =
    let e : cur - length old ≡ 0 = omega arith in
    rw (
      e,
      append-nil,
      take-length (length (drop cur old)) b (omega (arith, length-drop cur old)),
      drop-drop cur (length b) old,
    )

-- The three cases of Write come to one: the data before the offset, filled up with zeros where it
-- is shorter, then the bytes written, then the data after them.
pub written_lem :
    (cur : ℕ) (b old : Bytes)
    → written cur b old
      ≡ take cur (old ++ zeros (cur - length old)) ++ (b ++ drop (cur + length b) old)
unfolding written
written_lem cur b old = elim (Bool-cases (ltb (length old) (cur + length b))) [
  | inl grows ↦ elim (Bool-cases (ltb (length old) cur)) [
    | inl past ↦ rw past (copy_at-grown cur b old (ground arith))
    | inr within ↦ rw (within, grows) (copy_at-grown cur b old (ground arith))
  ]
  | inr fits ↦
      let within : ltb (length old) cur ≡ false = ground arith in
      rw (within, fits) (copy_at-inside cur b old (ground arith))
]

-- What is written fits into the data.
pub length-written : (cur : ℕ) (b old : Bytes) → cur + length b ≤ length (written cur b old)
length-written cur b old =
    let front = take cur (old ++ zeros (cur - length old)) in
    let rest = drop (cur + length b) old in
    rw (written_lem cur b old) (
      omega (
        arith,
        length-append front (b ++ rest),
        length-append b rest,
        length-take cur (old ++ zeros (cur - length old)),
        length-append old (zeros (cur - length old)),
        length-zeros (cur - length old),
      ))
