-- ===== src/Files/Tests.antt =====
-- The theorems on descriptors at a table of three, in which two name one file.
use cs402_os.Base.{
  negsuc, ◌+ℤ◌, ℕ, ◌+◌, ◌≡◌, refl, true, false, none, some, [], ◌∷◌, ◌==◌, if◌then◌else◌, get_elem?,
  set, ◌<◌, arith, pos, done, ◌⊎◌, ◌<◌,
}
use cs402_os.Files.Table.{get_empty_fd, empty_loop, File, Vnodes, State, open_file}
use cs402_os.Files.Calls.{
  Modes, Errno, ebadf, value, fail, to_off, add_off, do_close, do_dup, do_dup2,
}
use cs402_os.Files.Count.{count}
use cs402_os.Files.Invariant.{WellFormed}
use cs402_os.Files.CallLaws.{do_close_lem, do_dup_lem}
use cs402_os.Files.Dup2.{do_dup2_lem}
use cs402_os.Files.Open.{OpenFlags, Names, mode_of, opens}

-- Vnodes over a counter: every vnode is a regular file of 100 bytes.
abbrev vnodes : Vnodes ℕ
vnodes = record {
  vput = λ n v. v + 1;
  vn_len = λ n v. pos 100;
  is_dir = λ n v. false;
  is_reg = λ n v. true;
  is_special = λ n v. false;
  read = λ n p bytes v. (pos bytes, v);
  write = λ n p bytes v. (pos 1, v);
  file_alloc = λ v. (some v, v + 1);
  file_free = λ f v. v;
}

abbrev file : File
file = record { f_pos = pos 4; f_mode = 3; f_refcount = 2; f_vnode = some 6 }

abbrev table : State ℕ
table = record {
  files = λ f. if f == 20 then some file else none;
  fds = some 20 ∷ none ∷ some 20 ∷ [];
  past_end = none;
  rest = 50;
}

abbrev nobody : ℕ → ℕ
nobody f = 0

table-WellFormed : WellFormed 3 nobody table
unfolding count
table-WellFormed = record { table = refl; counted = λ f. ground arith }

do_close_example :
    ((open_file vnodes 3 (pos 2) table ≡ none)
      × (do_close vnodes 3 (pos 2) table ≡ done (fail ebadf, table)))
    ⊎ ((n : ℕ) × (s' : State ℕ) × (pos 2 ≡ pos n)
        × (do_close vnodes 3 (pos 2) table ≡ done (value (pos 0), s'))
        × (s'.fds ≡ set table.fds n none)
        × WellFormed 3 nobody s')
do_close_example = do_close_lem 3 vnodes nobody (pos 2) table table-WellFormed

do_dup_example :
    ((e : Errno) × (s' : State ℕ) × (do_dup vnodes 3 (pos 0) table ≡ done (fail e, s'))
      × (s'.fds ≡ table.fds)
      × WellFormed 3 nobody s')
    ⊎ ((n f : ℕ) × (s' : State ℕ) × (do_dup vnodes 3 (pos 0) table ≡ done (value (pos n), s'))
        × (open_file vnodes 3 (pos 0) table ≡ some f)
        × (get_elem? table.fds n ≡ some none)
        × (s'.fds ≡ set table.fds n (some f))
        × WellFormed 3 nobody s')
do_dup_example = do_dup_lem 3 vnodes nobody (pos 0) table table-WellFormed

abbrev open_flags : OpenFlags
open_flags = record {
  o_rdonly = 0;
  o_wronly = 1;
  o_rdwr = 2;
  o_creat = 256;
  o_trunc = 512;
  o_append = 1024;
  name_len = 28;
}

abbrev modes : Modes
modes = record { fmode_read = 1; fmode_write = 2; fmode_append = 4; errno_code = λ e. negsuc 8 }

abbrev no_names : Names ℕ
no_names = record { open_namev = λ n o v. ((negsuc 1, none), v); strlen = λ n. 5 }

free_fd : get_empty_fd vnodes 3 table ≡ some 1
unfolding get_empty_fd empty_loop
free_fd = refl

-- O_WRONLY with both O_CREAT and O_TRUNC.
unknown_flags : mode_of open_flags modes 769 ≡ none
unfolding mode_of opens
unknown_flags = refl

do_dup2_example :
    ((do_dup2 vnodes 3 (pos 0) (pos 2) table ≡ done (fail ebadf, table))
      × ((open_file vnodes 3 (pos 0) table ≡ none) ⊎ ¬ ((n : ℕ) × (pos 2 ≡ pos n) × (n < 3))))
    ⊎ ((n f : ℕ) × (s' : State ℕ) × (pos 2 ≡ pos n)
        × (open_file vnodes 3 (pos 0) table ≡ some f)
        × (do_dup2 vnodes 3 (pos 0) (pos 2) table ≡ done (value (pos n), s'))
        × (s'.fds ≡ set table.fds n (some f))
        × WellFormed 3 nobody s')
do_dup2_example = do_dup2_lem 3 vnodes nobody (pos 0) (pos 2) table table-WellFormed

-- The largest offset and one more, as the sum of a read would be.
sum_wraps : add_off (pos 2147483647) (pos 1) ≡ negsuc 2147483647
unfolding to_off ◌+ℤ◌
sum_wraps = refl
