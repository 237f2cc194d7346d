-- ===== src/ThreadQueue/Drain.antt =====
-- The runs of the owner of a queue of common/message_queue_android.cc without further sends.
use mathlib.Core.List.{map-append}
use mathlib.Core.Path.{subst}
use unix_thread_ipc.Prelude.{
  ℕ, zero, suc, true, false, List, [], ◌∷◌, ◌++◌, map, append_assoc, append-nil, ◌≡◌, refl, sym, ap,
  ◌∙◌, All, Bool-cases, inl, inr,
}
use unix_thread_ipc.ThreadQueue.{Message, Queue, push, signal, wait, pop_messages}
use unix_thread_ipc.ThreadQueue.Traffic.{
  Mode, once, outside, waiting, awake, dispatching, Fate, handled, Traffic, fresh, exits,
  after_batch, do_push, do_signal, begin, wake, pop, dispatch, end_batch, Steps, stop, more,
}
use unix_thread_ipc.ThreadQueue.Wakeup.{no_lost_wakeup-queue}

module _ {D : Type 0} where
  Steps-trans : {s t u : Traffic D} → Steps s t → Steps t u → Steps s u
  Steps-trans a stop = a
  Steps-trans a (more b st) = more (Steps-trans a b) st

  abbrev pub handle_all : List (Message D) → List (Fate × Message D)
  handle_all = map (λ m. (handled, m))

  -- `s'` comes after `s` with no message sent in between, and has handled the messages `l` more.
  pub record Served (s : Traffic D) (l : List (Message D)) (s' : Traffic D) : Type 0 where
    pub run : Steps s s'
    pub same_sent : s'.sent ≡ s.sent
    pub served : s'.log ≡ s.log ++ handle_all l

  Served-trans :
      {s t u : Traffic D} (xs ys : List (Message D))
      → Served s xs t
      → Served t ys u
      → Served s (xs ++ ys) u
  Served-trans {s} xs ys a b = record {
    run = Steps-trans a.run b.run;
    same_sent = b.same_sent ∙ a.same_sent;
    served = b.served ∙ ap (λ l. l ++ handle_all ys) a.served ∙ simp (map-append, append_assoc);
  }

  Served-eq : {s t : Traffic D} {xs ys : List (Message D)} → xs ≡ ys → Served s xs t → Served s ys t
  Served-eq {s} {t} e = subst (λ l. Served s l t) e

  -- All senders finish.
  flush :
      (n : ℕ) (s : Traffic D)
      → s.senders ≡ n
      → (s' : Traffic D) × Served s [] s'
        × (s'.senders ≡ 0)
        × (s'.receiver ≡ s.receiver)
        × (s'.queue.event_queue ≡ s.queue.event_queue)
  unfolding signal
  flush zero s h =
      (s, record { run = stop; same_sent = refl; served = sym (append-nil s.log) }, h, refl, refl)
  flush (suc n) s h =
      let t : Traffic D = record s { queue = signal s.queue; senders = n } in
      let first : Served s [] t = record {
        run = more stop (do_signal n h refl);
        same_sent = refl;
        served = sym (append-nil s.log);
      } in
      let (u, rest, a, b, c) = flush n t refl in (u, Served-trans [] [] first rest, a, b, c)

  dispatch_batch :
      (mode : Mode) (l : List (Message D)) (s : Traffic D)
      → s.receiver ≡ dispatching mode l
      → All (λ m. exits mode m ≡ false) l
      → (s' : Traffic D) × Served s l s'
        × (s'.receiver ≡ dispatching mode [])
        × (s'.queue ≡ s.queue)
  dispatch_batch mode [] s at h =
      (s, record { run = stop; same_sent = refl; served = sym (append-nil s.log) }, at, refl)
  dispatch_batch mode (m ∷ l) s at h =
      let t : Traffic D = record s {
        receiver = dispatching mode l;
        log = s.log ++ (handled, m) ∷ [];
      } in
      let first : Served s (m ∷ []) t = record {
        run = more stop (dispatch mode m l at h.0 refl);
        same_sent = refl;
        served = refl;
      } in
      let (u, rest, a, b) = dispatch_batch mode l t refl h.1 in
      (u, Served-trans (m ∷ []) l first rest, a, b)

  -- One round of the loop, once the event is signalled.
  serve :
      (mode : Mode) (s : Traffic D)
      → s.receiver ≡ waiting mode
      → s.queue.signalled ≡ true
      → All (λ m. exits mode m ≡ false) s.queue.event_queue
      → (s' : Traffic D) × Served s s.queue.event_queue s'
        × (s'.queue.event_queue ≡ [])
        × (s'.queue.signalled ≡ false)
        × (s'.receiver ≡ after_batch mode)
  unfolding wait pop_messages
  serve mode s at on h =
      let q : Queue D = record s.queue { signalled = false } in
      let s1 : Traffic D = record s { queue = q; receiver = awake mode } in
      let s2 : Traffic D = record s1 {
        queue = record q { event_queue = [] };
        receiver = dispatching mode s.queue.event_queue;
      } in
      let first : Served s [] s2 = record {
        run = more (more stop (wake mode q at (rw on) refl)) (pop mode refl refl);
        same_sent = refl;
        served = sym (append-nil s.log);
      } in
      let (s3, rest, a, b) = dispatch_batch mode s.queue.event_queue s2 refl h in
      let s4 : Traffic D = record s3 { receiver = after_batch mode } in
      let last : Served s3 [] s4 = record {
        run = more stop (end_batch mode a refl);
        same_sent = refl;
        served = sym (append-nil s3.log);
      } in
      (
        s4,
        Served-eq (append-nil s.queue.event_queue) (
            Served-trans s.queue.event_queue [] (Served-trans [] s.queue.event_queue first rest)
              last),
        ap (λ (x : Queue D). x.event_queue) b,
        ap (λ (x : Queue D). x.signalled) b,
        refl,
      )

  -- From every reachable state in which the owner waits in its loop and no message in the queue
  -- ends that loop, there is a continuation without further sends in which every message of the
  -- queue is handled, in order, and the queue is empty.
  pub drain :
      (id : ℕ) {s : Traffic D} (mode : Mode)
      → Steps (fresh id) s
      → s.receiver ≡ waiting mode
      → All (λ m. exits mode m ≡ false) s.queue.event_queue
      → (s' : Traffic D) × Served s s.queue.event_queue s' × (s'.queue.event_queue ≡ [])
  drain id {s} mode r at h =
      let (t, flushed, idle, where_to, same) = flush s.senders s refl in
      elim (Bool-cases t.queue.signalled) [
        | inl on ↦
            let (u, done, empty, _, _) = serve mode t (where_to ∙ at) on (rw same h) in
            (u, Served-eq same (Served-trans [] t.queue.event_queue flushed done), empty)
        | inr off ↦
            let nothing : t.queue.event_queue ≡ [] =
              no_lost_wakeup-queue id mode (Steps-trans r flushed.run) (where_to ∙ at) off idle in
            (t, Served-eq (sym nothing ∙ same) flushed, nothing)
      ]

  -- `RunOnce` can return although no message has arrived since it was called: for any two messages
  -- there is a run after which the owner waits in `RunOnce` with its queue empty, and from there it
  -- returns with no further message sent or handled.
  pub spurious_run_once :
      (id : ℕ) (m m' : Message D)
      → (s : Traffic D) × (s' : Traffic D) × Steps (fresh id) s
        × (s.receiver ≡ waiting once)
        × (s.queue.event_queue ≡ [])
        × Served s [] s'
        × (s'.receiver ≡ outside)
  unfolding push signal wait pop_messages
  spurious_run_once id m m' = (s, u, before, refl, refl, done, refl)
    where
      s : Traffic D
      s = record {
        queue = record { thread_id = id; event_queue = []; signalled = true };
        senders = 0;
        receiver = waiting once;
        sent = m ∷ m' ∷ [];
        log = (handled, m) ∷ (handled, m') ∷ [];
      }

      u : Traffic D
      u = record s {
        queue = record { thread_id = id; event_queue = []; signalled = false };
        receiver = outside;
      }

      -- The second message is pushed between the wake-up for the first and `PopMessages`, and
      -- signalled after it.
      before : Steps (fresh id) s
      before =
          more
            (more
              (more
                (more
                  (more
                    (more
                      (more
                        (more
                          (more (more (more stop (do_push m refl)) (do_signal 0 refl refl))
                            (begin once refl refl))
                          (wake once
                            (record { thread_id = id; event_queue = m ∷ []; signalled = false })
                            refl refl refl))
                        (do_push m' refl))
                      (pop once refl refl))
                    (dispatch once m (m' ∷ []) refl refl refl))
                  (dispatch once m' [] refl refl refl))
                (end_batch once refl refl))
              (do_signal 0 refl refl))
            (begin once refl refl)

      done : Served s [] u
      done = record {
        run =
            more
              (more
                (more stop (
                  wake once (record { thread_id = id; event_queue = []; signalled = false }) refl
                    refl refl))
                (pop once refl refl))
              (end_batch once refl refl);
        same_sent = refl;
        served = refl;
      }
