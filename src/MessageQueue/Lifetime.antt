-- ===== src/MessageQueue/Lifetime.antt =====
-- How long a thread has a queue: from its `InitThreadMessageQueue` to its end.
use unix_thread_ipc.Prelude.{
  ℕ, ◌<◌, false, not, ◌&&◌, Option, none, some, List, [], ◌∷◌, ◌≡◌, refl, ap, ◌∙◌, arith, ◌==◌,
  if◌then◌else◌,
}
use unix_thread_ipc.Prelude.Map
use unix_thread_ipc.Prelude.Map.{lookup-insert, lookup-erase}
use unix_thread_ipc.Prelude.Int.{pos}
use unix_thread_ipc.ThreadLocals.{max_slots}
use unix_thread_ipc.ThreadQueue.{Queue, new_queue}
use unix_thread_ipc.MessageQueue.{
  Process, new_process, register_handler, init_thread_message_queue, send, exit_thread,
}
use unix_thread_ipc.MessageQueue.Sending.{send_lem, after_send, exists}
use unix_thread_ipc.MessageQueue.Exit.{
  has_queue, Inv, exit_thread_lem, lookup-exit_thread, exit_thread-Inv,
}
use unix_thread_ipc.MessageQueue.Init.{init_lem, init-Inv}
use unix_thread_ipc.MessageQueue.Thread.{Thread-none}

-- What the threads of a process do with the queue; `Stop` is a send.
pub data Request (D H : Type 0) : Type 0 where
  init : (self : ℕ) → Request D H
  post : (thread message_type : ℕ) → Option D → Request D H
  register : (message_type : ℕ) → Option H → Request D H
  exit : (self : ℕ) → Request D H

module _ {D H : Type 0} where
  unfoldable pub serve : Process D H → Request D H → Process D H
  serve p (init self) = init_thread_message_queue p self
  serve p (post thread message_type message_data) = (send p thread message_type message_data).1
  serve p (register message_type instance_) = register_handler p message_type instance_
  serve p (exit self) = exit_thread p self

  pub serve_all : Process D H → List (Request D H) → Process D H
  serve_all p [] = p
  serve_all p (r ∷ rest) = serve_all (serve p r) rest

-- The queue of a thread that initialises it.
abbrev pub or_new : {D : Type 0} → ℕ → Option (Queue D) → Option (Queue D)
or_new self none = some (new_queue self)
or_new self (some q) = some q

module _ {D H : Type 0} where
  -- What a request does to the queue of thread `j`.
  abbrev pub request_effect : ℕ → ℕ → Request D H → Option (Queue D) → Option (Queue D)
  request_effect main j (init self) q = if self == j then or_new self q else q
  request_effect main j (post thread message_type d) q =
      if thread == j then after_send message_type d q else q
  request_effect main j (register message_type instance_) q = q
  request_effect main j (exit self) q = if (self == j) && not (self == main) then none else q

  abbrev pub history : ℕ → ℕ → List (Request D H) → Option (Queue D) → Option (Queue D)
  history main j [] q = q
  history main j (r ∷ rest) q = history main j rest (request_effect main j r q)

  -- `Inv` reads only a part of the state.
  Inv-same :
      {i : ℕ} {p p' : Process D H}
      → p'.thread_local_key ≡ p.thread_local_key
      → p'.main_thread_id ≡ p.main_thread_id
      → p'.locals ≡ p.locals
      → ((j : ℕ) → has_queue p' j ≡ has_queue p j)
      → Inv i p
      → Inv i p'
  Inv-same {i} {p} key main locals queues v = record {
    key = key ∙ v.key;
    slot = v.slot;
    threads = λ id. rw (main, locals, queues id) (v.threads id);
  }

  send-Inv :
      {i : ℕ} (p : Process D H) (thread message_type : ℕ) (d : Option D)
      → Inv i p
      → Inv i ((send p thread message_type d).1)
  send-Inv p thread message_type d =
      let same = (send_lem p thread message_type d 0).3 in
      Inv-same (ap (λ x. x.thread_local_key) same) (ap (λ x. x.main_thread_id) same)
        (ap (λ x. x.locals) same) (λ j. ground (arith, send_lem p thread message_type d j))

  register_handler-Inv :
      {i : ℕ} (p : Process D H) (message_type : ℕ) (instance_ : Option H)
      → Inv i p
      → Inv i (register_handler p message_type instance_)
  unfolding register_handler
  register_handler-Inv p message_type instance_ = Inv-same refl refl refl (λ j. refl)

  pub new_process-Inv :
      (main i : ℕ) → i < max_slots → Inv i (new_process {D = D} {H = H} main (pos i))
  unfolding Map.lookup
  new_process-Inv main i h = record {
    key = refl;
    slot = h;
    threads = λ id. Thread-none i main id false (ground arith);
  }

  pub serve-Inv : {i : ℕ} (p : Process D H) (r : Request D H) → Inv i p → Inv i (serve p r)
  unfolding serve
  serve-Inv p (init self) v = init-Inv v self
  serve-Inv p (post thread message_type d) v = send-Inv p thread message_type d v
  serve-Inv p (register message_type instance_) v = register_handler-Inv p message_type instance_ v
  serve-Inv p (exit self) v = exit_thread-Inv v self

  pub serve_all-Inv :
      {i : ℕ} (p : Process D H) (rs : List (Request D H)) → Inv i p → Inv i (serve_all p rs)
  unfolding serve_all
  serve_all-Inv p [] v = v
  serve_all-Inv p (r ∷ rs) v = serve_all-Inv (serve p r) rs (serve-Inv p r v)

  serve-main :
      {i : ℕ} (p : Process D H) (r : Request D H)
      → Inv i p
      → (serve p r).main_thread_id ≡ p.main_thread_id
  unfolding serve register_handler
  serve-main p (init self) v = (init_lem v self).3
  serve-main p (post thread message_type d) v =
      ap (λ x. x.main_thread_id) (send_lem p thread message_type d 0).3
  serve-main p (register message_type instance_) v = refl
  serve-main p (exit self) v = (exit_thread_lem v self).3

  lookup-init :
      {i : ℕ} {p : Process D H} (v : Inv i p) (self j : ℕ)
      → Map.lookup j (init_thread_message_queue p self).message_queues ≡ (
          if self == j
          then or_new self (Map.lookup j p.message_queues)
          else Map.lookup j p.message_queues)
  lookup-init {i} {p} v self j =
      rw (init_lem v self).0
        (ground (arith, lookup-insert self j (new_queue self) p.message_queues))

  serve-lookup :
      {i : ℕ} (main : ℕ) (p : Process D H) (r : Request D H) (j : ℕ)
      → Inv i p
      → p.main_thread_id ≡ main
      → Map.lookup j (serve p r).message_queues
        ≡ request_effect main j r (Map.lookup j p.message_queues)
  unfolding serve register_handler
  serve-lookup main p (init self) j v e = lookup-init v self j
  serve-lookup main p (post thread message_type d) j v e =
      ground (arith, (send_lem p thread message_type d j).1)
  serve-lookup main p (register message_type instance_) j v e = refl
  serve-lookup main p (exit self) j v e =
      lookup-exit_thread v self j
      ∙ ap (λ k. if (self == j) && not (self == k) then none else Map.lookup j p.message_queues) e

  serve_all-lookup :
      {i : ℕ} (main : ℕ) (p : Process D H) (rs : List (Request D H)) (j : ℕ)
      → Inv i p
      → p.main_thread_id ≡ main
      → Map.lookup j (serve_all p rs).message_queues
        ≡ history main j rs (Map.lookup j p.message_queues)
  unfolding serve_all
  serve_all-lookup main p [] j v e = refl
  serve_all-lookup main p (r ∷ rs) j v e =
      serve_all-lookup main (serve p r) rs j (serve-Inv p r v) (serve-main p r v ∙ e)
      ∙ ap (history main j rs) (serve-lookup main p r j v e)

  -- Whatever the threads of a process do, thread `j` has a queue exactly from the first
  -- `InitThreadMessageQueue` after its start to its end, and the main thread for ever. A `Send` to it
  -- returns whether it has one, so false before and from the end on. The queue holds the messages sent
  -- to the thread in that time, in order, and no initialisation or end of another thread, no
  -- registration of a handler and no repeated initialisation changes it. Messages are not taken out
  -- here. The message queue has been constructed on thread `main`, and thread-local slot `i`, below
  -- 64, was allocated to it.
  pub queue_lifetime :
      (main i : ℕ) (rs : List (Request D H)) (j message_type : ℕ) (d : Option D)
      → i < max_slots
      → let p = serve_all (new_process {D = D} {H = H} main (pos i)) rs in
        (Map.lookup j p.message_queues ≡ history main j rs none)
        × ((send p j message_type d).0 ≡ exists (history main j rs none))
  unfolding Map.lookup
  queue_lifetime main i rs j message_type d h =
      let p0 = new_process {D = D} {H = H} main (pos i) in
      let same : Map.lookup j (serve_all p0 rs).message_queues ≡ history main j rs none =
        serve_all-lookup main p0 rs j (new_process-Inv main i h) refl in
      (same, (send_lem (serve_all p0 rs) j message_type d j).0 ∙ ap exists same)
