-- ===== src/Event/Exclusion.antt =====
-- The mutex of an event, and its signal, in every reachable state.
use unix_thread_ipc.Prelude.{ℕ, ◌+◌, Bool, true, false, none, some, ◌≡◌, refl, arith}
use unix_thread_ipc.Event.{
  Call, wait, wait_with_timeout, Pc, outside, locking, entered, blocked, woken, expired, retrying,
  gave_up, Event, new_event, wake, signal_section, wait_section, fail_section, move, acquire, Step,
  call, lock, do_signal, do_wait, do_timed, spurious, time_out, relock, relock_expired, retry_wait,
  retry_timed, out_of_time, fail, Reach, start, next,
}

-- Whether a thread has the mutex.
abbrev pub holds : Pc → Bool
holds (entered c) = true
holds (retrying c) = true
holds gave_up = true
holds _ = false

abbrev pub is_blocked : Pc → Bool
is_blocked (blocked c) = true
is_blocked _ = false

abbrev pub bit : Bool → ℕ
bit true = 1
bit false = 0

pub record Inv (e : Event) : Type 0 where
  pub owned : (i : ℕ) → holds (e.pc i) ≡ true → e.owner ≡ some i
  pub unblocked : (i : ℕ) → e.signalled ≡ true → is_blocked (e.pc i) ≡ false
  pub balance : e.raised ≡ e.taken + bit e.signalled

Inv-new_event : Inv new_event
Inv-new_event = record { owned = λ i h. cc; unblocked = λ i h. refl; balance = refl }

holds-wake : (p : Pc) → (holds (wake p) ≡ holds p)
holds-wake (blocked c) = refl
holds-wake outside = refl
holds-wake (locking c) = refl
holds-wake (entered c) = refl
holds-wake (woken c) = refl
holds-wake expired = refl
holds-wake (retrying c) = refl
holds-wake gave_up = refl

is_blocked-wake : (p : Pc) → is_blocked (wake p) ≡ false
is_blocked-wake (blocked c) = refl
is_blocked-wake outside = refl
is_blocked-wake (locking c) = refl
is_blocked-wake (entered c) = refl
is_blocked-wake (woken c) = refl
is_blocked-wake expired = refl
is_blocked-wake (retrying c) = refl
is_blocked-wake gave_up = refl

module _ {e : Event} (i : ℕ) (v : Inv e) where
  move-Inv : (p : Pc) → holds p ≡ false → is_blocked p ≡ false → Inv (move e i p)
  move-Inv p free awake = record {
    owned = λ j h. ground (arith, v.owned j);
    unblocked = λ j h. ground (arith, v.unblocked j);
    balance = v.balance;
  }

  acquire-Inv : (p : Pc) → e.owner ≡ none → is_blocked p ≡ false → Inv (acquire e i p)
  acquire-Inv p free awake = record {
    owned = λ j h. ground (arith, v.owned j);
    unblocked = λ j h. ground (arith, v.unblocked j);
    balance = v.balance;
  }

  -- The sections that end with the release of the mutex, which thread `i` has.
  module _ (mine : holds (e.pc i) ≡ true) where
    signal_section-Inv : Inv (signal_section e i)
    unfolding signal_section
    signal_section-Inv = record {
      owned = λ j h. ground (arith, v.owned j, v.owned i, holds-wake (e.pc j));
      unblocked = λ j h. ground (arith, v.unblocked j, is_blocked-wake (e.pc j));
      balance = ground (arith, v.balance);
    }

    wait_section-Inv : (c : Call) → Inv (wait_section e i c)
    unfolding wait_section
    wait_section-Inv c = record {
      owned = λ j h. ground (arith, v.owned j, v.owned i);
      unblocked = λ j h. ground (arith, v.unblocked j);
      balance = ground (arith, v.balance);
    }

    fail_section-Inv : Inv (fail_section e i)
    unfolding fail_section
    fail_section-Inv = record {
      owned = λ j h. ground (arith, v.owned j, v.owned i);
      unblocked = λ j h. ground (arith, v.unblocked j);
      balance = v.balance;
    }

Step-Inv : {e e' : Event} (i : ℕ) → Step e i e' → Inv e → Inv e'
Step-Inv i (call c at eq) v = rw eq (move-Inv i v (locking c) refl refl)
Step-Inv i (lock c at free eq) v = rw eq (acquire-Inv i v (entered c) free refl)
Step-Inv i (do_signal at eq) v = rw eq (signal_section-Inv i v (rw at refl))
Step-Inv i (do_wait at eq) v = rw eq (wait_section-Inv i v (rw at refl) wait)
Step-Inv i (do_timed at eq) v = rw eq (wait_section-Inv i v (rw at refl) wait_with_timeout)
Step-Inv i (spurious c at eq) v = rw eq (move-Inv i v (woken c) refl refl)
Step-Inv i (time_out at eq) v = rw eq (move-Inv i v expired refl refl)
Step-Inv i (relock c at free eq) v = rw eq (acquire-Inv i v (retrying c) free refl)
Step-Inv i (relock_expired at free eq) v = rw eq (acquire-Inv i v gave_up free refl)
Step-Inv i (retry_wait at eq) v = rw eq (wait_section-Inv i v (rw at refl) wait)
Step-Inv i (retry_timed at eq) v = rw eq (wait_section-Inv i v (rw at refl) wait_with_timeout)
Step-Inv i (out_of_time at off eq) v = rw eq (fail_section-Inv i v (rw at refl))
Step-Inv i (fail at eq) v = rw eq (fail_section-Inv i v (rw at refl))

Reach-Inv : {e : Event} → Reach e → Inv e
Reach-Inv start = Inv-new_event
Reach-Inv (next i r st) = Step-Inv i st (Reach-Inv r)

-- In every reachable state at most one thread is between its acquisition and its release of the
-- mutex, so the tests and updates of `signal_` do not overlap.
Reach-exclusive :
    {e : Event} (i j : ℕ) → Reach e → holds (e.pc i) ≡ true → holds (e.pc j) ≡ true → i ≡ j
Reach-exclusive i j r hi hj = let v = Reach-Inv r in ground (arith, v.owned i hi, v.owned j hj)

-- In every reachable state, while the event is signalled no thread is blocked in a wait: a wait
-- never sleeps through a signal that nobody has consumed.
pub Reach-unblocked :
    {e : Event} (i : ℕ) → Reach e → e.signalled ≡ true → is_blocked (e.pc i) ≡ false
Reach-unblocked i r h = (Reach-Inv r).unblocked i h

-- In every reachable state the successful waits are as many as the times that the event became
-- signalled, less one if it is signalled now: each signal releases one wait.
pub Reach-balance : {e : Event} → Reach e → e.raised ≡ e.taken + bit e.signalled
Reach-balance r = (Reach-Inv r).balance
