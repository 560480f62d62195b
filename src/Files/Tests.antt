-- ===== src/Files/Tests.antt =====
-- Runs of src/fs.rs on a file that takes two bytes at a time.
use slope.Base.{
  ℕ, ◌-◌, ap, true, false, ◌+◌, ◌≤◌, min, ◌≡◌, refl, arith, none, some, Result, ok, err, List, [],
  ◌∷◌, ◌++◌, length, take, ok-injective,
}
use slope.Files.{FsError, returned, write_all, RawDirent, AkashicDir, next_entry}
use slope.Files.Written.{Wrote, write_all-Wrote}

abbrev by_two : List ℕ → List ℕ → Result ℕ ℕ × List ℕ
by_two buf held = (ok (min 2 (length buf)), held ++ take (min 2 (length buf)) buf)

by_two_takes :
    (buf held : List ℕ) (n : ℕ)
    → (by_two buf held).0 ≡ ok n
    → (n ≤ length buf) × ((by_two buf held).1 ≡ held ++ take n buf)
by_two_takes buf held n h =
    let e : min 2 (length buf) ≡ n = ok-injective h in
    (omega (arith, e), ap (λ k. held ++ take k buf) e)

by_two_keeps :
    (buf held : List ℕ) (e : ℕ) → (by_two buf held).0 ≡ err e → (by_two buf held).1 ≡ held
by_two_keeps buf held e h = cc

write_all-Wrote_example :
    (r : Result FsError (Unit {0})) × (held : List ℕ) × (write_all by_two 4
        (1 ∷ 2 ∷ 3 ∷ [])
        (9 ∷ [])
      ≡ some (returned r, held))
    × Wrote (1 ∷ 2 ∷ 3 ∷ []) r (9 ∷ []) held
write_all-Wrote_example =
    write_all-Wrote by_two (λ held. held) by_two_takes by_two_keeps 4 (1 ∷ 2 ∷ 3 ∷ []) (9 ∷ [])
      (omega arith)

-- A directory of one entry; the world counts the calls.
abbrev one_entry : ℕ → ℕ → Result ℕ ℕ × RawDirent × ℕ
one_entry handle w = (ok (1 - w), record { name = []; name_len = 0; kind = 1 }, w + 1)

abbrev open_dir : AkashicDir
open_dir = record { handle = 4; is_done = false }

abbrev closed_dir : AkashicDir
closed_dir = record { handle = 4; is_done = true }

at_end : next_entry one_entry open_dir 1 ≡ (ok none, closed_dir, 2)
unfolding next_entry
at_end = refl
