-- ===== src/ThreadQueue/Traffic.antt =====
-- The traffic through one queue: any number of senders inside `SendMessage`, and the owner inside
-- `GetAndDispatchMessages` or `RunOnce`, in any interleaving of their atomic actions.
use unix_thread_ipc.Prelude.{ℕ, suc, Bool, true, false, some, List, [], ◌∷◌, ◌++◌, map, ◌≡◌, ◌==◌}
use unix_thread_ipc.ThreadQueue.{Message, Queue, new_queue, push, signal, wait, pop_messages}

-- Which loop the owner runs: `GetAndDispatchMessages(exit_type)`, or `RunOnce`.
pub data Mode : Type 0 where
  until : (exit_type : ℕ) → Mode
  once : Mode

pub data Receiver (D : Type 0) : Type 0 where
  outside : Receiver D
  waiting : Mode → Receiver D  -- at `event_.Wait()`
  awake : Mode → Receiver D  -- at `PopMessages`
  dispatching : Mode → List (Message D) → Receiver D  -- with the local queue

-- What became of a message that left the queue.
pub data Fate : Type 0 where
  handled : Fate  -- handed to `HandleThreadMessage`
  ended : Fate  -- it ended the loop
  discarded : Fate  -- it stood behind the one that ended the loop

pub record Traffic (D : Type 0) : Type 0 where
  pub queue : Queue D
  pub senders : ℕ  -- how many are between `push_back` and `Signal`
  pub receiver : Receiver D
  pub sent : List (Message D)  -- in the order of `push_back`
  pub log : List (Fate × Message D)  -- in the order of the local queues

module _ {D : Type 0} where
  abbrev pub fresh : ℕ → Traffic D
  fresh id = record { queue = new_queue id; senders = 0; receiver = outside; sent = []; log = [] }

  -- Where the owner goes when its local queue is empty.
  abbrev pub after_batch : Mode → Receiver D
  after_batch (until exit_type) = waiting (until exit_type)
  after_batch once = outside

  -- Whether a message ends the loop.
  abbrev pub exits : Mode → Message D → Bool
  exits (until exit_type) m = m.message_type == exit_type
  exits once m = false

  abbrev pub discard : List (Message D) → List (Fate × Message D)
  discard = map (λ m. (discarded, m))

  pub data Step (s : Traffic D) (s' : Traffic D) : Type 0 where
    do_push :
        (m : Message D)
        → s' ≡ record s { queue = push s.queue m; senders = suc s.senders; sent = s.sent ++ m ∷ [] }
        → Step s s'
    do_signal :
        (k : ℕ)
        → s.senders ≡ suc k
        → s' ≡ record s { queue = signal s.queue; senders = k }
        → Step s s'
    begin :
        (mode : Mode) → s.receiver ≡ outside → s' ≡ record s { receiver = waiting mode } → Step s s'
    wake :
        (mode : Mode) (q : Queue D)
        → s.receiver ≡ waiting mode
        → wait s.queue ≡ some q
        → s' ≡ record s { queue = q; receiver = awake mode }
        → Step s s'
    pop :
        (mode : Mode)
        → s.receiver ≡ awake mode
        → s' ≡ record s {
          queue = (pop_messages s.queue).1;
          receiver = dispatching mode (pop_messages s.queue).0;
        }
        → Step s s'
    dispatch :
        (mode : Mode) (m : Message D) (rest : List (Message D))
        → s.receiver ≡ dispatching mode (m ∷ rest)
        → exits mode m ≡ false
        → s' ≡ record s { receiver = dispatching mode rest; log = s.log ++ (handled, m) ∷ [] }
        → Step s s'
    leave :
        (mode : Mode) (m : Message D) (rest : List (Message D))
        → s.receiver ≡ dispatching mode (m ∷ rest)
        → exits mode m ≡ true
        → s' ≡ record s { receiver = outside; log = s.log ++ (ended, m) ∷ discard rest }
        → Step s s'
    end_batch :
        (mode : Mode)
        → s.receiver ≡ dispatching mode []
        → s' ≡ record s { receiver = after_batch mode }
        → Step s s'

  pub data Steps (s : Traffic D) : Traffic D → Type 0 where
    stop : Steps s s
    more : {t u : Traffic D} → Steps s t → Step t u → Steps s u
