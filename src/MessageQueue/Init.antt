-- ===== src/MessageQueue/Init.antt =====
-- `InitThreadMessageQueue` and `InitThreadEndHook` of common/message_queue_android.cc.
use unix_thread_ipc.Prelude.{
  ℕ, Bool, true, not, ◌&&◌, some, ◌≡◌, refl, ◌∙◌, arith, ◌==◌, if◌then◌else◌, set, Bool-cases,
  ==_iff, ==_of_eq, inl, inr,
}
use unix_thread_ipc.Prelude.Map
use unix_thread_ipc.Prelude.Map.{lookup-insert, lookup-erase}
use unix_thread_ipc.ThreadLocals.{Table, due, has_value, set_value}
use unix_thread_ipc.ThreadLocals.Values.{entries_of, entry_at, has_value_lem, set_value_lem}
use unix_thread_ipc.ThreadQueue.{new_queue}
use unix_thread_ipc.MessageQueue.{
  Process, Hook, thread_end_hook, table_of, run_hooks, init_thread_end_hook,
  init_thread_message_queue,
}
use unix_thread_ipc.MessageQueue.Exit.{has_queue, Inv}
use unix_thread_ipc.MessageQueue.Thread.{hook_entry, Thread-init}

module _ {D H : Type 0} {i : ℕ} {p : Process D H} (v : Inv i p) where
  has_key : (t : Table ℕ Hook) → has_value t p.thread_local_key ≡ (entry_at t i).valid
  has_key t = rw v.key (has_value_lem t i v.slot)

  set_key :
      (t : Table ℕ Hook) (self : ℕ)
      → set_value t p.thread_local_key (some self) (some thread_end_hook)
        ≡ (due (entry_at t i), some (set (entries_of t) i (hook_entry self)))
  set_key t self = rw v.key (set_value_lem t i (some self) (some thread_end_hook) v.slot)

  hook_lem :
      (self : ℕ)
      → init_thread_end_hook p self ≡ (
          if (entry_at (table_of p self) i).valid then p else (record p {
            locals =
                Map.insert self
                  (some (set (entries_of (table_of p self)) i (hook_entry self)))
                  p.locals;
          }))
  unfolding init_thread_end_hook run_hooks due
  hook_lem self = ground (arith, has_key (table_of p self), set_key (table_of p self) self)

  -- Whether a thread that initialises its queue gets the hook.
  abbrev newly : ℕ → Bool
  newly self =
      not (has_queue p self)
      && (not (self == p.main_thread_id) && not (entry_at (table_of p self) i).valid)

  pub init_lem :
      (self : ℕ)
      → let p' = init_thread_message_queue p self in
        (p'.message_queues ≡ (
          if has_queue p self
          then p.message_queues
          else Map.insert self (new_queue self) p.message_queues))
        × (p'.locals ≡ (
            if newly self
            then Map.insert self
                (some (set (entries_of (table_of p self)) i (hook_entry self)))
                p.locals
            else p.locals))
        × (p'.thread_local_key ≡ p.thread_local_key)
        × (p'.main_thread_id ≡ p.main_thread_id)
  unfolding init_thread_message_queue
  init_lem self = ground (arith, hook_lem self)

  -- What a thread has after `InitThreadMessageQueue` of thread `self`.
  pub has_queue-init :
      (self j : ℕ)
      → has_queue (init_thread_message_queue p self) j ≡ (if self == j then true else has_queue p j)
  has_queue-init self j =
      rw (init_lem self).0 (ground (arith, lookup-insert self j (new_queue self) p.message_queues))

  table_of-init :
      (self j : ℕ)
      → table_of (init_thread_message_queue p self) j ≡ (
          if (self == j) && newly self
          then some (set (entries_of (table_of p self)) i (hook_entry self))
          else table_of p j)
  table_of-init self j = rw (init_lem self).1 (
      ground (
        arith,
        lookup-insert self j (some (set (entries_of (table_of p self)) i (hook_entry self)))
            p.locals,
      ))

  pub init-Inv : (self : ℕ) → Inv i (init_thread_message_queue p self)
  init-Inv self =
      let (_, _, key, main) = init_lem self in
      record {
        key = key ∙ v.key;
        slot = v.slot;
        threads = λ id.
            rw (table_of-init self id, has_queue-init self id, main)
              (elim (Bool-cases (self == id)) [
                | inl same ↦
                    rw ((==_iff self id).0 same, ==_of_eq id id refl)
                      (Thread-init v.slot (v.threads id))
                | inr other ↦ rw other (v.threads id)
              ]);
      }
