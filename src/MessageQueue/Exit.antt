-- ===== src/MessageQueue/Exit.antt =====
-- The end of a thread: `FinalizeKey` of common/thread_locals.cc calls `ThreadEndHook` of
-- common/message_queue_android.cc.
use unix_thread_ipc.Prelude.{
  ℕ, ◌<◌, Bool, not, ◌&&◌, none, some, [], ◌∷◌, ◌≡◌, refl, ◌∙◌, arith, ◌==◌, if◌then◌else◌,
  Bool-cases, inl, inr,
}
use unix_thread_ipc.Prelude.Map
use unix_thread_ipc.Prelude.Map.{lookup-insert, lookup-erase}
use unix_thread_ipc.Prelude.Int.{pos}
use unix_thread_ipc.ThreadLocals.{max_slots, due, finalize_key}
use unix_thread_ipc.ThreadLocals.Values.{entries_of, entry_at}
use unix_thread_ipc.ThreadLocals.Destruction.{finalize_key-pending}
use unix_thread_ipc.MessageQueue.{Process, thread_end_hook, table_of, run_hooks, exit_thread}
use unix_thread_ipc.MessageQueue.Sending.{exists}
use unix_thread_ipc.MessageQueue.Thread.{Thread, pending-single, Thread-exit}

module _ {D H : Type 0} where
  abbrev pub has_queue : Process D H → ℕ → Bool
  has_queue p id = exists (Map.lookup id p.message_queues)

  pub record Inv (i : ℕ) (p : Process D H) : Type 0 where
    pub key : p.thread_local_key ≡ pos i
    pub slot : i < max_slots
    pub threads : (id : ℕ) → Thread i p.main_thread_id id (table_of p id) (has_queue p id)

module _ {D H : Type 0} {i : ℕ} {p : Process D H} (v : Inv i p) where
  -- What pthread hands over at the end of a thread.
  finalize_lem : (self : ℕ) → finalize_key (table_of p self) ≡ due (entry_at (table_of p self) i)
  finalize_lem self =
      finalize_key-pending (table_of p self)
      ∙ pending-single (entries_of (table_of p self)) i
          (omega (arith, v.slot, (v.threads self).table)) (v.threads self).others

  due_lem :
      (self : ℕ)
      → due (entry_at (table_of p self) i)
        ≡ (if (entry_at (table_of p self) i).valid then (thread_end_hook, some self) ∷ [] else [])
  unfolding due
  due_lem self = ground (arith, (v.threads self).own)

  pub exit_thread_lem :
      (self : ℕ)
      → ((exit_thread p self).message_queues ≡ (
          if (entry_at (table_of p self) i).valid
          then Map.erase self p.message_queues
          else p.message_queues))
        × ((exit_thread p self).locals ≡ Map.erase self p.locals)
        × ((exit_thread p self).thread_local_key ≡ p.thread_local_key)
        × ((exit_thread p self).main_thread_id ≡ p.main_thread_id)
  unfolding exit_thread run_hooks
  exit_thread_lem self = elim (Bool-cases (entry_at (table_of p self) i).valid) [
    | inl used ↦ rw (finalize_lem self, due_lem self, used) (refl, refl, refl, refl)
    | inr unused ↦ rw (finalize_lem self, due_lem self, unused) (refl, refl, refl, refl)
  ]

  pub lookup-exit_thread :
      (self j : ℕ)
      → Map.lookup j (exit_thread p self).message_queues ≡ (
          if (self == j) && not (self == p.main_thread_id)
          then none
          else Map.lookup j p.message_queues)
  lookup-exit_thread self j = rw (exit_thread_lem self).0 (
      ground (
        arith,
        lookup-erase self j p.message_queues,
        (v.threads self).hooked,
        (v.threads self).own,
      ))

  table_of-exit_thread :
      (self j : ℕ) → table_of (exit_thread p self) j ≡ (if self == j then none else table_of p j)
  table_of-exit_thread self j = ground (arith, exit_thread_lem self, lookup-erase self j p.locals)

  pub exit_thread-Inv : (self : ℕ) → Inv i (exit_thread p self)
  exit_thread-Inv self =
      let (queues, locals, key, main) = exit_thread_lem self in
      record {
        key = key ∙ v.key;
        slot = v.slot;
        threads = λ id.
            rw (table_of-exit_thread self id, lookup-exit_thread self id, main)
              (Thread-exit (Map.lookup id p.message_queues) self (v.threads id));
      }
