-- ===== src/IpcQueue/EachProcess.antt =====
-- The loop of `SendToAll` over the processes of the registry.
use unix_thread_ipc.Prelude.{
  ℕ, ◌≤◌, ◌≡◌, ◌≢◌, refl, sym, ◌∙◌, Bool, false, not, ◌&&◌, ◌||◌, List, [], ◌∷◌, arith, ◌==◌,
  if◌then◌else◌, Bool-cases, inl, inr, ℕ_discrete,
}
use mathlib.Core.Path.{subst}
use unix_thread_ipc.Prelude.Map
use unix_thread_ipc.Prelude.Map.{Map, lookup-insert}
use unix_thread_ipc.Registry.{remove}
use unix_thread_ipc.Registry.Cells.{count, Holds}
use unix_thread_ipc.Registry.Remove.{remove_lem}
use unix_thread_ipc.Packets.{IpcMessage}
use unix_thread_ipc.IpcQueue.{IpcQueue, send_to_one, send_to_each}
use unix_thread_ipc.IpcQueue.OneProcess.{
  with_message, gets, loses, send_to_one-IsSentTo, send_to_one-Frames, Frames, Frames-trans,
}

module _ (opens : ℕ → Bool) (now : ℕ) (including_self : Bool) (m : IpcMessage) where
  unique-rest :
      (id : ℕ) (ids : List ℕ)
      → ((x : ℕ) → count x (id ∷ ids) ≤ 1)
      → (count id ids ≡ 0) × ((x : ℕ) → count x ids ≤ 1)
  unique-rest id ids u = (ground (arith, u id), λ x. ground (arith, u x))

  -- One process does not change what another one gets.
  next-same :
      (id j : ℕ) (q : IpcQueue)
      → let q' = (send_to_one opens now including_self m id q).1 in
        id ≢ j
        → (Map.lookup j q'.outbound_queues ≡ Map.lookup j q.outbound_queues)
          × (q'.current_process_id ≡ q.current_process_id)
  next-same id j q ne =
      let s = send_to_one-IsSentTo opens now including_self m id q in
      (s.looked_up j ∙ ground (arith, ne), s.self)

  pub send_to_each-lookup :
      (ids : List ℕ) (q : IpcQueue) (j : ℕ)
      → ((x : ℕ) → count x ids ≤ 1)
      → Map.lookup j (send_to_each opens now including_self m ids q).1.outbound_queues ≡ (
          if not (count j ids == 0) && gets opens now including_self m q j
          then with_message opens now including_self m (Map.lookup j q.outbound_queues)
          else Map.lookup j q.outbound_queues)
  unfolding send_to_each
  send_to_each-lookup [] q j u = refl
  send_to_each-lookup (id ∷ ids) q j u =
      let q' = (send_to_one opens now including_self m id q).1 in
      let s = send_to_one-IsSentTo opens now including_self m id q in
      let rest = unique-rest id ids u in
      let later = send_to_each-lookup ids q' j rest.1 in
      elim (ℕ_discrete id j) [
        | yes e ↦ ground (arith, later, s.looked_up j, rest.0, e)
        | no ne ↦ let same = next-same id j q ne in ground (arith, later, same.0, same.1, ne)
      ]

  send_to_one-Holds :
      (id : ℕ) (q : IpcQueue) (ids : List ℕ)
      → id ≢ 0
      → Holds q.registry ids
      → (ids' : List ℕ) × Holds (send_to_one opens now including_self m id q).1.registry ids'
        × ((x : ℕ)
            → count x ids'
              ≡ (if (x == id) && loses opens now including_self m q id then 0 else count x ids))
  send_to_one-Holds id q ids ne v =
      let s = send_to_one-IsSentTo opens now including_self m id q in
      elim (Bool-cases (loses opens now including_self m q id)) [
        | inl e ↦
            let (ids', holds, without, found) = remove_lem id v ne in
            let same : (send_to_one opens now including_self m id q).1.registry
                ≡ (remove q.registry id).1 =
              s.registered ∙ ground (arith, e) in
            (ids', subst (λ r. Holds r ids') (sym same) holds, λ x. ground (arith, without x, e))
        | inr e ↦
            let same : (send_to_one opens now including_self m id q).1.registry ≡ q.registry =
              s.registered ∙ ground (arith, e) in
            (ids, subst (λ r. Holds r ids) (sym same) v, λ x. ground (arith, e))
      ]

  pub send_to_each-Holds :
      (processes : List ℕ) (q : IpcQueue) (ids : List ℕ)
      → ((x : ℕ) → count x processes ≤ 1)
      → count 0 processes ≡ 0
      → Holds q.registry ids
      → (ids' : List ℕ) × Holds
          (send_to_each opens now including_self m processes q).1.registry
          ids'
        × ((x : ℕ)
            → count x ids' ≡ (
                if not (count x processes == 0) && loses opens now including_self m q x
                then 0
                else count x ids))
  unfolding send_to_each
  send_to_each-Holds [] q ids u z v = (ids, v, λ x. refl)
  send_to_each-Holds (id ∷ processes) q ids u z v =
      let q' = (send_to_one opens now including_self m id q).1 in
      let rest = unique-rest id processes u in
      let ne : id ≢ 0 = λ e. absurd (ground (arith, e, z)) in
      let (ids1, holds1, one) = send_to_one-Holds id q ids ne v in
      let (ids2, holds2, later) =
        send_to_each-Holds processes q' ids1 rest.1 (ground (arith, z)) holds1 in
      (
        ids2,
        holds2,
        λ x. elim (ℕ_discrete id x) [
          | yes e ↦ ground (arith, later x, one x, rest.0, e)
          | no ne ↦
              let same = next-same id x q ne in ground (arith, later x, one x, same.0, same.1, ne)
        ],
      )

  -- The message goes to one of the processes.
  abbrev pub any_gets : IpcQueue → List ℕ → Bool
  any_gets q [] = false
  any_gets q (id ∷ ids) = gets opens now including_self m q id || any_gets q ids

  any_gets-same :
      (id : ℕ) (q : IpcQueue) (ids : List ℕ)
      → count id ids ≡ 0
      → any_gets (send_to_one opens now including_self m id q).1 ids ≡ any_gets q ids
  any_gets-same id q [] h = refl
  any_gets-same id q (j ∷ ids) h =
      let ne : id ≢ j = λ e. absurd (ground (arith, e, h)) in
      let same = next-same id j q ne in
      ground (arith, same.0, same.1, any_gets-same id q ids (ground (arith, h)))

  pub send_to_each-added :
      (ids : List ℕ) (q : IpcQueue)
      → ((x : ℕ) → count x ids ≤ 1)
      → (send_to_each opens now including_self m ids q).0 ≡ any_gets q ids
  unfolding send_to_each
  send_to_each-added [] q u = refl
  send_to_each-added (id ∷ ids) q u =
      let q' = (send_to_one opens now including_self m id q).1 in
      let s = send_to_one-IsSentTo opens now including_self m id q in
      let rest = unique-rest id ids u in
      let later = send_to_each-added ids q' rest.1 in
      ground (arith, s.added, later, any_gets-same id q ids rest.0)

  pub send_to_each-Frames :
      (ids : List ℕ) (q : IpcQueue) → Frames q (send_to_each opens now including_self m ids q).1
  unfolding send_to_each
  send_to_each-Frames [] q = refl
  send_to_each-Frames (id ∷ ids) q =
      let q' = (send_to_one opens now including_self m id q).1 in
      Frames-trans q q' (send_to_each opens now including_self m ids q').1
        (send_to_one-Frames opens now including_self m id q) (send_to_each-Frames ids q')
