-- ===== src/Files.antt =====
-- src/fs.rs: files and directories over the system call, which is a parameter. An error number is
-- kept without its sign: the call fails exactly with a negative word.
use slope.Base.{
  ℕ, zero, suc, ◌==◌, Bool, true, false, Option, none, some, Result, ok, err, List, [], ◌∷◌, length,
  take, drop, leb, if◌then◌else◌, map_err,
}
pub mod Written
pub mod Directory
mod Tests

pub data FsError : Type 0 where
  not_found already_exists permission_denied not_a_directory not_a_file directory_not_empty
        invalid_path handle_invalid :
      FsError
  io : ℕ → FsError

-- `From<SyscallError>`.
unfoldable pub from_syscall : ℕ → FsError
from_syscall e =
    if e == 2
    then not_found
    else (if e == 17
        then already_exists
        else (if e == 13
            then permission_denied
            else (if e == 20 then not_a_directory else (if e == 9 then handle_invalid else io e))))

pub data NodeKind : Type 0 where
  file directory device hologram symlink : NodeKind

unfoldable pub kind_of : ℕ → NodeKind
kind_of kind =
    if kind == 1
    then directory
    else (if kind == 2
        then device
        else (if kind == 3 then hologram else (if kind == 4 then symlink else file)))

-- How a call that may panic ends.
pub data Outcome : Type 0 where
  returned : Result FsError (Unit {0}) → Outcome
  panicked : Outcome

module _ {World : Type 0} (syscall_write : List ℕ → World → Result ℕ ℕ × World) where
  unfoldable pub write : List ℕ → World → Result FsError ℕ × World
  write buf w = let (r, w') = syscall_write buf w in (map_err from_syscall r, w')

  -- The loop; none when the fuel runs out. The slice from `n` on panics past the end.
  unfoldable pub write_all : ℕ → List ℕ → World → Option (Outcome × World)
  unfolding write
  write_all zero buf w = none
  write_all (suc fuel) [] w = some (returned (ok tt), w)
  write_all (suc fuel) (b ∷ bytes) w =
      let buf : List ℕ = b ∷ bytes in
      let (r, w') = write buf w in
      elim r [
        | err e ↦ some (returned (err e), w')
        | ok n ↦
            let rest = write_all fuel (drop n buf) w' in
            if n == 0
            then some (returned (err (io 5)), w')
            else (if leb n (length buf) then rest else some (panicked, w'))
      ]

abbrev pub dirent_name_max : ℕ
dirent_name_max = 255

pub record RawDirent : Type 0 where
  pub name : List ℕ
  pub name_len : ℕ
  pub kind : ℕ

pub record Dirent : Type 0 where
  pub name : List ℕ
  pub name_len : ℕ
  pub kind : NodeKind

unfoldable pub dirent_of : RawDirent → Dirent
unfolding kind_of
dirent_of r = record { name = r.name; name_len = r.name_len; kind = kind_of r.kind }

unfoldable pub name_bytes : Dirent → List ℕ
name_bytes d = take d.name_len d.name

pub record AkashicDir : Type 0 where
  pub handle : ℕ
  pub is_done : Bool

module _ {World : Type 0} (syscall_readdir : ℕ → World → Result ℕ ℕ × RawDirent × World) where
  unfoldable pub next_entry :
      AkashicDir → World → Result FsError (Option Dirent) × AkashicDir × World
  unfolding dirent_of
  next_entry d w =
      if d.is_done
      then (ok none, d, w)
      else (let (r, raw, w') = syscall_readdir d.handle w in
          elim r [
            | err e ↦ (err (from_syscall e), d, w')
            | ok n ↦
                if n == 0
                then (ok none, record d { is_done = true }, w')
                else (ok (some (dirent_of raw)), d, w')
          ])
