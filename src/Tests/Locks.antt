-- ===== src/Tests/Locks.antt =====
-- Examples for the mutex of win/lib/lib_mutex.cc.
use rlz.Prelude.{ℕ, ◌+◌, ◌-◌, ◌≡◌, refl, Bool, true, false}
use rlz.LibMutex.{WaitResult, wait_object_0, wait_abandoned, MutexApi, lib_mutex, end_lib_mutex}
use rlz.LibMutex.Laws.{MutexLaws, gives_ownership, finds_abandoned, lib_mutex-end_lib_mutex}

-- How often this thread owns the mutex, and whether another one left it abandoned.
abbrev Kernel : Type 0
Kernel = ℕ × Bool

abbrev wait_on : Kernel → WaitResult × Kernel
wait_on (n, true) = (wait_abandoned, (n + 1, false))
wait_on (n, false) = (wait_object_0, (n + 1, false))

abbrev kernel : MutexApi Kernel
kernel = record {
  is_vista = true;
  create_mutex = λ w. w;
  converts_sddl = λ w. true;
  gets_sacl = λ w. true;
  set_security_info = λ w. (true, w);
  wait_for_single_object = λ w ms. wait_on w;
  release_mutex = λ w. (w.0 - 1, w.1);
  close_handle = λ w. w;
}

pub wait_on-owns : (w : Kernel) → (wait_on w).1.0 ≡ w.0 + gives_ownership (wait_on w).0
wait_on-owns (n, true) = refl
wait_on-owns (n, false) = refl

abbrev kernel_laws : MutexLaws kernel
kernel_laws = record {
  owned = λ w. w.0;
  created = λ w. refl;
  secured = λ w. refl;
  waited = λ w ms. wait_on-owns w;
  released = λ w. refl;
  closed = λ w. refl;
}

abbrev left_behind : Kernel
left_behind = (0, true)

lib_mutex-end_lib_mutex_example :
    (kernel_laws.owned (end_lib_mutex kernel (lib_mutex kernel left_behind).0 (1, false))
      ≡ kernel_laws.owned left_behind + finds_abandoned kernel left_behind)
    × (finds_abandoned kernel left_behind ≡ 1 → (lib_mutex kernel left_behind).0 ≡ false)
unfolding lib_mutex
lib_mutex-end_lib_mutex_example =
    lib_mutex-end_lib_mutex kernel kernel_laws left_behind (1, false) refl
