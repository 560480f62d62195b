-- ===== src/Files/Directory.antt =====
-- src/fs.rs, `AkashicDir`: the end of a directory.
use slope.Base.{
  ℕ, zero, suc, replicate, ◌≡◌, refl, sym, ap, ◌∙◌, true, inl, inr, Option, none, Result, ok,
  Result-cases, List, [], ◌∷◌, arith,
}
use slope.Files.{FsError, RawDirent, Dirent, AkashicDir, next_entry}

module _ {World : Type 0} (syscall_readdir : ℕ → World → Result ℕ ℕ × RawDirent × World) where
  -- A number of calls, one after another.
  unfoldable pub calls :
      ℕ → AkashicDir → World → List (Result FsError (Option Dirent)) × AkashicDir × World
  calls zero d w = ([], d, w)
  calls (suc n) d w =
      let (r, d', w') = next_entry syscall_readdir d w in
      let (rs, d'', w'') = calls n d' w' in (r ∷ rs, d'', w'')

  ended :
      (d : AkashicDir) (w : World)
      → d.is_done ≡ true
      → next_entry syscall_readdir d w ≡ (ok none, d, w)
  unfolding next_entry
  ended d w h = rw h refl

  calls_ended :
      (n : ℕ) (d : AkashicDir) (w : World)
      → d.is_done ≡ true
      → calls n d w ≡ (replicate n (ok none), d, w)
  unfolding calls
  calls_ended zero d w h = refl
  calls_ended (suc n) d w h = rw (ended d w h, calls_ended n d w h) refl

  is_done_after :
      (d : AkashicDir) (w : World)
      → (next_entry syscall_readdir d w).0 ≡ ok none
      → (next_entry syscall_readdir d w).1.is_done ≡ true
  unfolding next_entry
  is_done_after d w h = elim (Result-cases (syscall_readdir d.handle w).0) [
    | inl (n, e) ↦ ground (arith, e)
    | inr (x, e) ↦ ground (arith, e)
  ]

  -- Once a directory has told its end, it tells it again at every call, with no system call.
  pub next_entry-ended :
      (d d' : AkashicDir) (w w' : World) (n : ℕ)
      → next_entry syscall_readdir d w ≡ (ok none, d', w')
      → calls n d' w' ≡ (replicate n (ok none), d', w')
  next_entry-ended d d' w w' n h =
      calls_ended n d' w' (sym (ap (λ x. x.1.is_done) h) ∙ is_done_after d w (ap (λ x. x.0) h))
