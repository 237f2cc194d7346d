-- ===== src/Event/Deadline.antt =====
-- The deadline of a timed wait: CondVar::WaitWithTimeout of common/mutex_posix.cc turns a duration
-- into the `timespec` that `pthread_cond_timedwait` takes. Durations are not negative, and the
-- fields do not overflow.
use Prim.Native.Nat.{◌/◌}
use unix_thread_ipc.Prelude.{ℕ, ◌+◌, ◌-◌, ◌*◌, ◌%◌, ◌<◌, ◌≡◌, ltb, if◌then◌else◌, arith}

pub record Timespec : Type 0 where
  pub tv_sec : ℕ
  pub tv_nsec : ℕ

-- From the time of day, in seconds and microseconds, and a duration in milliseconds.
unfoldable pub deadline : ℕ → ℕ → ℕ → Timespec
deadline tv_sec tv_usec milliseconds =
    let nsec = tv_usec * 1000 + milliseconds % 1000 * 1000000 in
    if ltb 999999999 nsec
    then record { tv_sec = tv_sec + milliseconds / 1000 + 1; tv_nsec = nsec - 1000000000 }
    else record { tv_sec = tv_sec + milliseconds / 1000; tv_nsec = nsec }

-- The deadline is valid, with less than a second of nanoseconds as pthread requires, and it lies
-- exactly the duration after the time of day, if that time of day is valid.
pub deadline_lem :
    (tv_sec tv_usec milliseconds : ℕ)
    → tv_usec < 1000000
    → let t = deadline tv_sec tv_usec milliseconds in
      (t.tv_nsec < 1000000000)
      × (t.tv_sec * 1000000000 + t.tv_nsec
          ≡ tv_sec * 1000000000 + tv_usec * 1000 + milliseconds * 1000000)
unfolding deadline
deadline_lem tv_sec tv_usec milliseconds h = (ground arith, ground arith)
