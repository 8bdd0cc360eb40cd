-- ===== src/Timer/Linux.antt =====
-- The timers of Linux as driver/ntoskernel.c uses them: what its calls do with the set of pending
-- timers. A timer is named by the address of the structure that it stands in.
use ndiswrapper.Base.{ℕ, ◌≡◌, ◌≢◌, Bool, false, Option, none, some, is_some}

-- `expiry` is the time at which a pending timer is due, `expire` what Linux does with a timer before
-- it calls the timer's function. The flag of `del_timer_sync` says whether the timer's function may arm
-- the timer again while the call waits for it.
pub record LinuxTimers (T : Type 0) : Type 0 where
  pub timer_setup : T → ℕ → T
  pub mod_timer : T → ℕ → ℕ → T × Bool
  pub del_timer_sync : T → ℕ → Bool → T × Bool
  pub expire : T → ℕ → T
  pub expiry : T → ℕ → Option ℕ

-- What the documentation of Linux says of the calls: mod_timer makes the timer pending with the new
-- time and returns whether it was pending, del_timer_sync returns whether it was
-- pending and, if the caller has prevented that the timer is armed again, takes it off, a timer is not pending while its function starts, and no call touches another timer.
pub record IsLawful {T : Type 0} (lt : LinuxTimers T) : Type 0 where
  pub setup_clears : (s : T) (p : ℕ) → lt.expiry (lt.timer_setup s p) p ≡ none
  pub setup_keeps : (s : T) (p q : ℕ) → p ≢ q → lt.expiry (lt.timer_setup s p) q ≡ lt.expiry s q
  pub mod_sets : (s : T) (p e : ℕ) → lt.expiry (lt.mod_timer s p e).0 p ≡ some e
  pub mod_returns : (s : T) (p e : ℕ) → (lt.mod_timer s p e).1 ≡ is_some (lt.expiry s p)
  pub mod_keeps : (s : T) (p e q : ℕ) → p ≢ q → lt.expiry (lt.mod_timer s p e).0 q ≡ lt.expiry s q
  pub del_clears : (s : T) (p : ℕ) → lt.expiry (lt.del_timer_sync s p false).0 p ≡ none
  pub del_returns :
      (s : T) (p : ℕ) (rearms : Bool) → (lt.del_timer_sync s p rearms).1 ≡ is_some (lt.expiry s p)
  pub del_keeps :
      (s : T) (p q : ℕ) (rearms : Bool)
      → p ≢ q
      → lt.expiry (lt.del_timer_sync s p rearms).0 q ≡ lt.expiry s q
  pub expire_clears : (s : T) (p : ℕ) → lt.expiry (lt.expire s p) p ≡ none
  pub expire_keeps : (s : T) (p q : ℕ) → p ≢ q → lt.expiry (lt.expire s p) q ≡ lt.expiry s q
