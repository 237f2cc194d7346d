-- ===== src/IpcQueue/Silence.antt =====
-- The completion callbacks once the worker thread has given up.
use unix_thread_ipc.Prelude.{◌≡◌, refl, ◌∙◌, true, List, [], ◌∷◌, Bool, false, if◌then◌else◌, arith}
use unix_thread_ipc.IpcQueue.{shut_down}
use unix_thread_ipc.IpcQueue.Dying.{send_with_completion-die, send_to_all-die}
use unix_thread_ipc.IpcQueue.Worker.{
  Occurrence, send, broadcast, pass, complete, giving_up, ending, Machine, step, run,
}

-- The worker thread has given up, and the calls are those of `s`.
abbrev IsSilent : Machine → Machine → Type 0
IsSilent s s' = (s'.queue.die ≡ true) × (s'.calls ≡ s.calls)

when_dying :
    (die : Bool) (s s' s'' : Machine)
    → die ≡ true
    → IsSilent s s'
    → IsSilent s (if die then s' else s'')
when_dying true s s' s'' e h = h
when_dying false s s' s'' e h = absurd (ground (arith, e))

when_ended :
    (die : Bool) (s s' s'' : Machine)
    → IsSilent s s''
    → IsSilent s s'
    → IsSilent s (if die then s' else s'')
when_ended true s s' s'' h k = k
when_ended false s s' s'' h k = h

step-IsSilent : (s s' : Machine) (e : Occurrence) → IsSilent s s' → IsSilent s (step s' e)
unfolding step shut_down
step-IsSilent s s' (send opens now m) h = (send_with_completion-die opens now s'.queue m ∙ h.0, h.1)
step-IsSilent s s' (broadcast opens now including_self message_type bytes) h =
    (send_to_all-die opens now including_self message_type bytes s'.queue ∙ h.0, h.1)
step-IsSilent s s' (pass now) h = when_dying s'.queue.die s s' _ h.0 h
step-IsSilent s s' (complete now index block) h = when_dying s'.queue.die s s' _ h.0 h
step-IsSilent s s' giving_up h = (refl, h.1)
step-IsSilent s s' ending h = when_ended s'.queue.die s _ s' h (h.0, h.1)

run-IsSilent : (s s' : Machine) (l : List Occurrence) → IsSilent s s' → IsSilent s (run s' l)
unfolding run
run-IsSilent s s' [] h = h
run-IsSilent s s' (e ∷ l) h = run-IsSilent s (step s' e) l (step-IsSilent s s' e h)

-- Once the worker thread gives up, whether it has come to its end or not, no completion callback is
-- made any more, whatever is sent: neither for the messages that are held then nor for later ones.
pub giving_up-silent :
    (s : Machine) (l : List Occurrence)
    → let given = step s giving_up in
      let ended = record given { queue = shut_down given.queue } in
      ((run given l).calls ≡ s.calls) × ((run ended l).calls ≡ s.calls)
unfolding step shut_down
giving_up-silent s l =
    let given = step s giving_up in
    let ended = record given { queue = shut_down given.queue } in
    ((run-IsSilent s given l (refl, refl)).1, (run-IsSilent s ended l (refl, refl)).1)
