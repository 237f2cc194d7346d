-- ===== src/MessageQueue/Thread.antt =====
-- The thread-local table of a thread that may have a queue.
use unix_thread_ipc.Prelude.{
  ℕ, zero, suc, ◌<◌, Bool, true, not, ◌&&◌, Option, none, some, List, [], ◌∷◌, append-nil, ◌≡◌, ◌≢◌,
  refl, ap, ◌∙◌, arith, ◌==◌, if◌then◌else◌, length, set, get_or, get_or-set, length-set,
  Bool-cases, ==_iff, inl, inr,
}
use unix_thread_ipc.ThreadLocals.{Entry, Table, max_slots, empty_entry, due}
use unix_thread_ipc.ThreadLocals.Values.{IsTable, entries_of, entry_at, entry_at-none, assigned}
use unix_thread_ipc.ThreadLocals.Destruction.{pending}
use unix_thread_ipc.ThreadQueue.{Queue}
use unix_thread_ipc.MessageQueue.{Hook, thread_end_hook}
use unix_thread_ipc.MessageQueue.Sending.{exists}

abbrev pub hook_entry : ℕ → Entry ℕ Hook
hook_entry id = assigned (some id) (some thread_end_hook)

-- What holds of thread `id` with table `t`, where `has_queue` says whether it has a queue, `i` is
-- the slot of the message queue and `main` the main thread: a queue comes with the hook that ends
-- it, and nothing else is in the table.
pub record Thread (i main id : ℕ) (t : Table ℕ Hook) (has_queue : Bool) : Type 0 where
  pub table : IsTable t
  pub hooked : has_queue ≡ true → id ≢ main → (entry_at t i).valid ≡ true
  pub own : (entry_at t i).valid ≡ true → (entry_at t i ≡ hook_entry id) × (id ≢ main)
  pub others : (j : ℕ) → j ≢ i → due (entry_at t j) ≡ []

-- A table in which only slot `i` is in use owes what that slot owes.
pub pending-single :
    (es : List (Entry ℕ Hook)) (i : ℕ)
    → i < length es
    → ((j : ℕ) → j ≢ i → due (get_or es j empty_entry) ≡ [])
    → pending es ≡ due (get_or es i empty_entry)
unfolding pending
pending-single [] i h none_else = absurd (omega arith)
pending-single (e ∷ es) zero h none_else =
    rw (pending-nothing es (λ j. none_else (suc j) (omega arith)), append-nil) refl
  where
    pending-nothing :
        (l : List (Entry ℕ Hook)) → ((j : ℕ) → due (get_or l j empty_entry) ≡ []) → pending l ≡ []
    pending-nothing [] f = refl
    pending-nothing (x ∷ l) f = rw (f 0, pending-nothing l (λ j. f (suc j)))
pending-single (e ∷ es) (suc i) h none_else =
    rw (none_else 0 (omega arith))
      (pending-single es i (omega arith) (λ j ne. none_else (suc j) (omega arith)))

-- A thread without a table.
pub Thread-none : (i main id : ℕ) (b : Bool) → (b ≡ true → id ≡ main) → Thread i main id none b
unfolding due
Thread-none i main id b h = record {
  table = refl;
  hooked = λ e ne. absurd (ne (h e));
  own = λ e. absurd (cc (entry_at-none i));
  others = λ j ne. rw (entry_at-none j) refl;
}

-- What the end of thread `self` means for thread `id`.
pub Thread-exit :
    {D : Type 0} {i main id : ℕ} {t : Table ℕ Hook} (q : Option (Queue D)) (self : ℕ)
    → Thread i main id t (exists q)
    → Thread i main id
        (if self == id then none else t)
        (exists (if (self == id) && not (self == main) then none else q))
Thread-exit {main} {id} q self v = elim (Bool-cases (self == id)) [
  | inl same ↦ rw same (Thread-none _ main id _ (ground (arith, ==_iff self id)))
  | inr other ↦ rw other v
]

pub hooked_at :
    {i : ℕ} (t : Table ℕ Hook)
    → i < max_slots
    → IsTable t
    → (id : ℕ) → get_or (set (entries_of t) i (hook_entry id)) i empty_entry ≡ hook_entry id
hooked_at {i} t h table id =
    ground (arith, get_or-set (entries_of t) i i (hook_entry id) empty_entry)

-- What the initialisation of its queue means for a thread.
pub Thread-hooked :
    {i main id : ℕ} {t : Table ℕ Hook} {b : Bool}
    → i < max_slots
    → id ≢ main
    → Thread i main id t b
    → Thread i main id (some (set (entries_of t) i (hook_entry id))) true
unfolding due
Thread-hooked {i} {id} {t} h ne v =
    let here = hooked_at t h v.table id in
    record {
      table = length-set (entries_of t) i (hook_entry id) ∙ v.table;
      hooked = λ e ne'. ap (λ x. x.valid) here;
      own = λ e. (here, ne);
      others = λ j ne'.
          ground (arith, get_or-set (entries_of t) i j (hook_entry id) empty_entry, v.others j ne');
    }

Thread-queued :
    {i main id : ℕ} {t : Table ℕ Hook} {b : Bool}
    → (id ≢ main → (entry_at t i).valid ≡ true)
    → Thread i main id t b
    → Thread i main id t true
Thread-queued h v = record {
  table = v.table;
  hooked = λ e ne. h ne;
  own = v.own;
  others = v.others;
}

pub Thread-init :
    {i main id : ℕ} {t : Table ℕ Hook} {b : Bool}
    → i < max_slots
    → Thread i main id t b
    → Thread i main id
        (if not b && (not (id == main) && not (entry_at t i).valid)
          then some (set (entries_of t) i (hook_entry id))
          else t)
        true
Thread-init {i} {main} {id} {t} {b} h v =
    elim (Bool-cases (not b && (not (id == main) && not (entry_at t i).valid))) [
      | inl new ↦ rw new (Thread-hooked h (ground arith) v)
      | inr old ↦ rw old (Thread-queued (ground (arith, v.hooked)) v)
    ]
