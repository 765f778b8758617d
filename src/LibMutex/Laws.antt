-- ===== src/LibMutex/Laws.antt =====
-- How often the thread owns the mutex of win/lib/lib_mutex.cc after a LibMutex object.
use rlz.Prelude.{
  ℕ, ◌+◌, ◌-◌, ◌≡◌, refl, sym, ap, ◌∙◌, Bool, true, false, inl, inr, Bool-cases, if◌then◌else◌,
  arith,
}
use rlz.LibMutex.{
  WaitResult, wait_object_0, wait_abandoned, wait_timeout, wait_failed, MutexApi,
  set_object_to_low_integrity, is_object_0, lib_mutex, end_lib_mutex,
}

abbrev pub gives_ownership : WaitResult → ℕ
gives_ownership wait_object_0 = 1
gives_ownership wait_abandoned = 1
gives_ownership wait_timeout = 0
gives_ownership wait_failed = 0

-- The mutex as it is documented, while another handle keeps it alive: a wait that succeeds, or that finds
-- the mutex abandoned, gives the thread ownership once more, and each release takes one back.
pub record MutexLaws {W : Type 0} (api : MutexApi W) : Type 0 where
  pub owned : W → ℕ
  pub created : (w : W) → owned (api.create_mutex w) ≡ owned w
  pub secured : (w : W) → owned (api.set_security_info w).1 ≡ owned w
  pub waited :
      (w : W) (ms : ℕ)
      → owned (api.wait_for_single_object w ms).1
        ≡ owned w + gives_ownership (api.wait_for_single_object w ms).0
  pub released : (w : W) → owned (api.release_mutex w) ≡ owned w - 1
  pub closed : (w : W) → owned (api.close_handle w) ≡ owned w

abbrev pub is_abandoned : WaitResult → ℕ
is_abandoned wait_abandoned = 1
is_abandoned _ = 0

-- 1 where the wait of the constructor finds the mutex abandoned.
abbrev pub finds_abandoned : {W : Type 0} → MutexApi W → W → ℕ
finds_abandoned api w =
    let (result, w') = set_object_to_low_integrity api (api.create_mutex w) in
    if result then is_abandoned (api.wait_for_single_object w' 5000).0 else 0

module _ {W : Type 0} (api : MutexApi W) (laws : MutexLaws api) where
  open laws use {owned}

  low_integrity-owned :
      (w : W) → owned (set_object_to_low_integrity api (api.create_mutex w)).1 ≡ owned w
  unfolding set_object_to_low_integrity
  low_integrity-owned w = ground (arith, laws.created w, laws.secured (api.create_mutex w))

  after_wait :
      (before : ℕ) (result : WaitResult) (w w' : W)
      → owned w ≡ before + gives_ownership result
      → owned w' ≡ owned w
      → owned (end_lib_mutex api (is_object_0 api result) w') ≡ before + is_abandoned result
  unfolding end_lib_mutex is_object_0
  after_wait before wait_object_0 w w' h k =
      laws.closed (api.release_mutex w') ∙ (laws.released w' ∙ omega arith)
  after_wait before wait_abandoned w w' h k = laws.closed w' ∙ omega arith
  after_wait before wait_timeout w w' h k = laws.closed w' ∙ omega arith
  after_wait before wait_failed w w' h k = laws.closed w' ∙ omega arith

  -- The state after SetObjectToLowIntegrity.
  abbrev secured_state : W → W
  secured_state w = (set_object_to_low_integrity api (api.create_mutex w)).1

  abbrev wait_result : W → WaitResult
  wait_result w = (api.wait_for_single_object (secured_state w) 5000).0

  when_secured :
      (w : W)
      → (set_object_to_low_integrity api (api.create_mutex w)).0 ≡ true
      → lib_mutex api w
        ≡ (is_object_0 api (wait_result w), (api.wait_for_single_object (secured_state w) 5000).1)
  unfolding lib_mutex
  when_secured w secured = rw (lib_mutex, secured)

  when_refused :
      (w : W)
      → (set_object_to_low_integrity api (api.create_mutex w)).0 ≡ false
      → lib_mutex api w ≡ (false, secured_state w)
  unfolding lib_mutex
  when_refused w refused = rw (lib_mutex, refused)

  no_object : (result : WaitResult) → is_abandoned result ≡ 1 → is_object_0 api result ≡ false
  unfolding is_object_0
  no_object wait_object_0 h = ground arith
  no_object wait_abandoned h = refl
  no_object wait_timeout h = refl
  no_object wait_failed h = refl

  -- For a mutex as it is documented, that another handle keeps alive: after a LibMutex object, in whose
  -- life the mutex is else acquired and released equally often, the thread owns the mutex as often as
  -- before; but once more where the constructor's wait found the mutex abandoned, and then the object
  -- has failed as well.
  pub lib_mutex-end_lib_mutex :
      (w w' : W)
      → owned w' ≡ owned (lib_mutex api w).1
      → (owned (end_lib_mutex api (lib_mutex api w).0 w') ≡ owned w + finds_abandoned api w)
        × (finds_abandoned api w ≡ 1 → (lib_mutex api w).0 ≡ false)
  unfolding end_lib_mutex
  lib_mutex-end_lib_mutex w w' kept =
      elim (Bool-cases (set_object_to_low_integrity api (api.create_mutex w)).0) [
        | inl secured ↦
            let runs = when_secured w secured in
            let found : finds_abandoned api w ≡ is_abandoned (wait_result w) = rw secured in
            let before : owned (api.wait_for_single_object (secured_state w) 5000).1
                ≡ owned w + gives_ownership (wait_result w) =
              laws.waited (secured_state w) 5000
              ∙ ap (λ (n : ℕ). n + gives_ownership (wait_result w)) (low_integrity-owned w) in
            (
              ap (λ (r : Bool × W). owned (end_lib_mutex api r.0 w')) runs
                  ∙ (after_wait (owned w) (wait_result w)
                        (api.wait_for_single_object (secured_state w) 5000).1 w' before
                        (kept ∙ ap (λ (r : Bool × W). owned r.1) runs)
                      ∙ ap (λ (n : ℕ). owned w + n) (sym found)),
              λ one. ap (λ (r : Bool × W). r.0) runs ∙ no_object (wait_result w) (sym found ∙ one),
            )
        | inr refused ↦
            let runs = when_refused w refused in
            let none_found : finds_abandoned api w ≡ 0 = rw refused in
            let same : owned w' ≡ owned w =
              kept ∙ (ap (λ (r : Bool × W). owned r.1) runs ∙ low_integrity-owned w) in
            (
              ap (λ (r : Bool × W). owned (end_lib_mutex api r.0 w')) runs
                  ∙ (laws.closed w' ∙ omega arith),
              λ one. ap (λ (r : Bool × W). r.0) runs,
            )
      ]
