-- ===== src/Files/Written.antt =====
-- src/fs.rs, `write_all`: what reaches the file.
use slope.Base.{
  ℕ, zero, suc, ◌+◌, ◌-◌, ◌≤◌, ◌<◌, ◌≡◌, refl, sym, ap, ◌∙◌, ◌==◌, Bool-cases, inl, inr, some,
  Result, ok, err, Result-cases, List, [], ◌∷◌, ◌++◌, length, take, drop, arith,
}
use slope.Files.{FsError, io, from_syscall, returned, write_all}

append_assoc : (xs ys zs : List ℕ) → (xs ++ ys) ++ zs ≡ xs ++ (ys ++ zs)
append_assoc [] ys zs = refl
append_assoc (x ∷ xs) ys zs = ap (λ (l : List ℕ). x ∷ l) (append_assoc xs ys zs)

take-drop : (n : ℕ) (xs : List ℕ) → take n xs ++ drop n xs ≡ xs
take-drop zero xs = refl
take-drop (suc n) [] = refl
take-drop (suc n) (x ∷ xs) = ap (λ (l : List ℕ). x ∷ l) (take-drop n xs)

length-drop : (n : ℕ) (xs : List ℕ) → length (drop n xs) ≡ length xs - n
length-drop zero xs = omega arith
length-drop (suc n) [] = omega arith
length-drop (suc n) (x ∷ xs) = omega (arith, length-drop n xs)

take-nil : (n : ℕ) → take {A = ℕ} n [] ≡ []
take-nil zero = refl
take-nil (suc n) = refl

take-add : (n k : ℕ) (xs : List ℕ) → take n xs ++ take k (drop n xs) ≡ take (n + k) xs
take-add zero k xs = ap (λ j. take j xs) (omega arith)
take-add (suc n) k [] = take-nil k ∙ sym (take-nil (suc n + k))
take-add (suc n) k (x ∷ xs) =
    let e : suc n + k ≡ suc (n + k) = omega arith in
    ap (λ (l : List ℕ). x ∷ l) (take-add n k xs) ∙ sym (ap (λ j. take j (x ∷ xs)) e)

append-nil : (xs : List ℕ) → xs ++ [] ≡ xs
append-nil [] = refl
append-nil (x ∷ xs) = ap (λ (l : List ℕ). x ∷ l) (append-nil xs)

-- What the file holds after a write of `buf` to one that held `before`.
abbrev pub Wrote : List ℕ → Result FsError (Unit {0}) → List ℕ → List ℕ → Type 0
Wrote buf (ok u) before after = after ≡ before ++ buf
Wrote buf (err e) before after = (k : ℕ) × (k < length buf) × (after ≡ before ++ take k buf)

Wrote-after :
    (n : ℕ) (buf : List ℕ) (r : Result FsError (Unit {0})) (before middle after : List ℕ)
    → n ≤ length buf
    → middle ≡ before ++ take n buf
    → Wrote (drop n buf) r middle after
    → Wrote buf r before after
Wrote-after n buf (ok u) before middle after h m e =
    e
    ∙ ap (λ (l : List ℕ). l ++ drop n buf) m
    ∙ append_assoc before (take n buf) (drop n buf)
    ∙ ap (λ (l : List ℕ). before ++ l) (take-drop n buf)
Wrote-after n buf (err x) before middle after h m (k, less, e) = (
  n + k,
  omega (arith, less, length-drop n buf),
  e
      ∙ ap (λ (l : List ℕ). l ++ take k (drop n buf)) m
      ∙ append_assoc before (take n buf) (take k (drop n buf))
      ∙ ap (λ (l : List ℕ). before ++ l) (take-add n k buf),
)

module _ {World : Type 0} (syscall_write : List ℕ → World → Result ℕ ℕ × World)
    (content : World → List ℕ)
    (takes : (buf : List ℕ) (w : World) (n : ℕ)
      → (syscall_write buf w).0 ≡ ok n
      → (n ≤ length buf) × (content (syscall_write buf w).1 ≡ content w ++ take n buf))
    (keeps : (buf : List ℕ) (w : World) (e : ℕ)
      → (syscall_write buf w).0 ≡ err e
      → content (syscall_write buf w).1 ≡ content w) where
  write_all_step :
      (fuel b n : ℕ) (bytes : List ℕ) (w : World)
      → (syscall_write (b ∷ bytes) w).0 ≡ ok n
      → 0 < n
      → n ≤ length (b ∷ bytes)
      → write_all syscall_write (suc fuel) (b ∷ bytes) w
        ≡ write_all syscall_write fuel (drop n (b ∷ bytes)) (syscall_write (b ∷ bytes) w).1
  unfolding write_all
  write_all_step fuel b n bytes w q h k = ground (arith, q)

  -- If a write system call that succeeds appends the number of bytes that it returns, at most the
  -- whole buffer, from the front of the buffer, and one that fails appends nothing, then write_all
  -- ends, after at most one call for each byte and without a panic, and either the file has grown
  -- by the whole buffer, or an error is returned and the file has grown by a proper prefix of it.
  pub write_all-Wrote :
      (fuel : ℕ) (buf : List ℕ) (w : World)
      → length buf < fuel
      → (r : Result FsError (Unit {0})) × (w' : World) × (write_all syscall_write fuel buf w
          ≡ some (returned r, w'))
        × Wrote buf r (content w) (content w')
  unfolding write_all
  write_all-Wrote zero buf w h = absurd (omega arith)
  write_all-Wrote (suc fuel) [] w h = (ok tt, w, refl, sym (append-nil (content w)))
  write_all-Wrote (suc fuel) (b ∷ bytes) w h =
      let buf : List ℕ = b ∷ bytes in
      let w' : World = (syscall_write buf w).1 in
      elim (Result-cases (syscall_write buf w).0) [
        | inr (e, q) ↦ (
          err (from_syscall e),
          w',
          ground (arith, q),
          (0, omega arith, keeps buf w e q ∙ sym (append-nil (content w))),
        )
        | inl (n, q) ↦
            let (room, grown) = takes buf w n q in
            elim (Bool-cases (n == 0)) [
              | inl z ↦
                  let zero_taken : n ≡ 0 = ground arith in
                  (
                    err (io 5),
                    w',
                    ground (arith, q, z),
                    (0, omega arith, grown ∙ ap (λ j. content w ++ take j buf) zero_taken),
                  )
              | inr z ↦
                  let some_taken : 0 < n = ground arith in
                  let (r, w'', run, wrote) =
                    write_all-Wrote fuel (drop n buf) w' (omega (arith, length-drop n buf)) in
                  (
                    r,
                    w'',
                    write_all_step fuel b n bytes w q some_taken room ∙ run,
                    Wrote-after n buf r (content w) (content w') (content w'') room grown wrote,
                  )
            ]
      ]
