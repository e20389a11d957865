-- ===== src/Proc/Tests.antt =====
-- The theorems on processes, at a table of three: init, its child 1, and a child 2 of that, which is
-- dead.
use cs402_os.Base.{
  ℕ, ◌+◌, ◌<◌, ◌≡◌, ◌≢◌, refl, true, false, Option, none, some, List, [], ◌∷◌, ◌==◌, if◌then◌else◌,
  pos, get_elem?, arith, done, ◌⊎◌,
}
use cs402_os.Files.Table.{Vnodes, State}
use cs402_os.Files.Count.{count}
use cs402_os.Files.Invariant.{WellFormed}
use cs402_os.Sched.Queue.{kt_run, kt_sleep, kt_exited, Thread, Sched, update, unsnoc}
use cs402_os.Sched.Ops.{sched_wakeup_on, sched_switch}
use cs402_os.Sched.Invariant.{links}
use cs402_os.Sched.MutexLaws.{IsSettled}
use cs402_os.Proc.Table.{Process, Table, PidResult, pid_used, proc_getid}
use cs402_os.Proc.Ids.{IsAnswer, proc_getid_lem}
use cs402_os.Proc.Tree.{IsTree}
use cs402_os.Proc.Exit.{Kernel, proc_cleanup}
use cs402_os.Proc.Create.{Inherited, proc_create}
use cs402_os.Proc.NewProcess.{Unique}
use cs402_os.Proc.CreateLaws.{Creates, proc_create_lem}
use cs402_os.Proc.Thread.{Threads, kthread_exit}
use cs402_os.Proc.ThreadLaws.{kthread_exit_lem}
use cs402_os.Proc.ExitLaws.{proc_cleanup_lem}

abbrev proc_0 : Process
proc_0 = record {
  p_pid = 1;
  p_dead = false;
  p_status = pos 0;
  p_pproc = none;
  p_children = 1 ∷ [];
  all_exited = false;
}

abbrev proc_1 : Process
proc_1 = record {
  p_pid = 2;
  p_dead = false;
  p_status = pos 0;
  p_pproc = some 0;
  p_children = 2 ∷ [];
  all_exited = false;
}

abbrev proc_2 : Process
proc_2 = record {
  p_pid = 3;
  p_dead = true;
  p_status = pos 7;
  p_pproc = some 1;
  p_children = [];
  all_exited = true;
}

abbrev processes : Table
processes = record {
  process = λ p. if p == 0 then proc_0 else if p == 1 then proc_1 else proc_2;
  proc_list = 0 ∷ 1 ∷ 2 ∷ [];
  next_pid = 2;
  initproc = some 0;
}

processes-IsTree : IsTree processes
unfolding links
processes-IsTree = record { once = λ c. ground arith; linked = λ p c. ground arith }

proc_getid_example :
    (r : PidResult) × (s' : Table) × (proc_getid 5 processes ≡ some (r, s'))
    × IsAnswer 5 processes (omega arith) r
    × (s'.next_pid < 5)
    × (s'.proc_list ≡ processes.proc_list)
proc_getid_example = proc_getid_lem 5 processes (omega arith)

-- Init's thread 4 waits for a child on queue 10; the run queue is 8. Process 1 has one open file.
abbrev idle : Thread
idle = record { kt_state = kt_run; kt_cancelled = false; kt_wchan = none; kt_proc = 1 }

abbrev scheduler : Sched
scheduler = record {
  threads = λ t. if t == 4 then record idle { kt_state = kt_sleep; kt_wchan = some 10 } else idle;
  queues = λ q.
      if q == 10
      then record { tq_list = 4 ∷ []; tq_size = 1 }
      else record { tq_list = []; tq_size = 0 };
  km_holder = λ m. none;
  p_dead = λ p. false;
  curthr = 1;
  curproc = 1;
}

scheduler-IsSettled : IsSettled 8 scheduler
unfolding links
scheduler-IsSettled = record {
  links_right = record { size = λ q. ground arith; linked = λ q t. ground arith };
  states_right = λ t q e. ground arith;
}

abbrev vnodes : Vnodes ℕ
vnodes = record {
  vput = λ n v. v + 1;
  vn_len = λ n v. pos 100;
  is_dir = λ n v. false;
  is_reg = λ n v. true;
  is_special = λ n v. false;
  read = λ n p bytes v. (pos bytes, v);
  write = λ n p bytes v. (pos 1, v);
  file_alloc = λ v. (some v, v + 1);
  file_free = λ f v. v;
}

abbrev descriptors : State ℕ
descriptors = record {
  files = λ f.
      if f == 20
      then some (record { f_pos = pos 4; f_mode = 3; f_refcount = 1; f_vnode = some 6 })
      else none;
  fds = none ∷ some 20 ∷ [];
  past_end = none;
  rest = 50;
}

descriptors-WellFormed : WellFormed 2 (λ f. 0) descriptors
unfolding count
descriptors-WellFormed = record { table = refl; counted = λ f. ground arith }

abbrev kernel : Kernel ℕ
kernel = record { table = processes; sched = scheduler; files = descriptors; p_cwd = some 6 }

proc_cleanup_example :
    (k' : Kernel ℕ) × (proc_cleanup vnodes 2 (λ p. p + 10) (λ v. v + 1) 8 1 1 (pos 3) kernel
      ≡ done k')
    × IsTree k'.table
    × ((k'.table.process 1).p_children ≡ [])
    × WellFormed 2 (λ f. 0) k'.files
    × ((j : ℕ) → j < 2 → get_elem? k'.files.fds j ≡ some none)
    × IsSettled 8 k'.sched
    × (((kernel.sched.queues 10).tq_list ≡ [])
        ⊎ ((front : List ℕ) × (y : ℕ) × (unsnoc (kernel.sched.queues 10).tq_list ≡ some (front, y))
            × ((k'.sched.threads y).kt_state ≡ kt_run)))
    × ((w : Option ℕ) × (sched_wakeup_on 8 10
            (record scheduler { p_dead = update scheduler.p_dead 1 true })
          ≡ done (w, k'.sched)))
proc_cleanup_example =
    proc_cleanup_lem 2 vnodes (λ f. 0) (λ p. p + 10) (λ v. v + 1) 8 1 1 0 0 (pos 3) kernel
      processes-IsTree scheduler-IsSettled descriptors-WellFormed refl (omega arith) (omega arith)
      (omega arith) refl (omega arith)

-- No two of the three share an identifier.
processes-Unique : Unique processes
unfolding links
processes-Unique c d lc ld e = ground (arith, e)

not_parents : (c : ℕ) → 0 < links c processes.proc_list → (processes.process c).p_pproc ≢ some 3
unfolding links
not_parents c lc e = ground (arith, e)

-- The identifiers 1 and 2 are those of the processes 0 and 1 here, which stand for idle and init.
one_used : pid_used processes.process 1 processes.proc_list ≡ true
unfolding pid_used
one_used = refl

two_used : pid_used processes.process 2 processes.proc_list ≡ true
unfolding pid_used
two_used = refl

four_unused : pid_used processes.process 4 processes.proc_list ≡ false
unfolding pid_used
four_unused = refl

one_listed : 0 < links 1 processes.proc_list
unfolding links
one_listed = omega arith

three_unknown : links 3 processes.proc_list ≡ 0
unfolding links
three_unknown = refl

proc_create_example :
    (pid : ℕ) × (o : Inherited) × (k' : Kernel ℕ) × (proc_create
        (λ n v. v + 1)
        (λ v. (true, v + 1))
        (λ p. p + 10)
        2
        5
        1
        2
        (some 1)
        3
        kernel
      ≡ done (some (o, k')))
    × Creates 1 2 5 1 3 processes pid k'.table
    × ((j : ℕ) → j < 2 → get_elem? o.p_files j ≡ some none)
    × (o.p_cwd ≡ some 6)
    × ((k'.sched.queues 13).tq_list ≡ [])
proc_create_example =
    proc_create_lem 1 2 5 1 3 2 (λ n v. v + 1) (λ v. (true, v + 1)) (λ v. refl) (λ p. p + 10) kernel
      processes-IsTree processes-Unique (omega arith) one_listed three_unknown not_parents one_used
      two_used 4 (omega arith) four_unused

abbrev threads : Threads ℕ
threads = record {
  kernel = kernel;
  kt_retval = λ t. pos 0;
  p_threads = λ p. if p == 1 then 1 ∷ [] else [];
}

kthread_exit_example :
    (s' : Threads ℕ) × (kthread_exit vnodes 2 (λ p. p + 10) (λ v. v + 1) 8 1 (pos 3) threads
      ≡ done s')
    × ((s'.kernel.sched.threads 1).kt_state ≡ kt_exited)
    × (s'.kt_retval 1 ≡ pos 3)
    × ((s'.kernel.table.process 1).p_children ≡ [])
    × IsTree s'.kernel.table
    × IsSettled 8 s'.kernel.sched
    × (((scheduler.queues 10).tq_list ≡ [])
        ⊎ ((next : Sched) × (sched_switch 8 s'.kernel.sched ≡ some next) × (next.curthr ≢ 1)))
kthread_exit_example =
    kthread_exit_lem vnodes 2 (λ f. 0) (λ p. p + 10) (λ v. v + 1) 8 1 0 0 (pos 3) threads
      processes-IsTree scheduler-IsSettled descriptors-WellFormed refl (omega arith) (omega arith)
      (omega arith) refl (omega arith) refl refl
