-- ===== src/Registry/Tests.antt =====
-- Examples for the registry of processes: three processes, of which 6 is removed.
use unix_thread_ipc.Prelude.{
  ℕ, ◌≡◌, refl, Bool, true, not, List, [], ◌∷◌, ◌++◌, arith, ◌==◌, replicate, All,
}
use unix_thread_ipc.Registry.{Registry, add, remove_states, remove}
use unix_thread_ipc.Registry.Cells.{Holds}
use unix_thread_ipc.Registry.Remove.{IsWithout, remove_lem}
use unix_thread_ipc.Registry.Repair.{IsRepaired, repair-remove_states}
use unix_thread_ipc.Registry.Add.{IsAddition, add_lem}

abbrev some_ids : List ℕ
some_ids = 5 ∷ 6 ∷ 7 ∷ []

abbrev some_registry : Registry
some_registry = record { revision = 3; processes = some_ids ++ replicate 28 0 }

some_registry-Holds : Holds some_registry some_ids
some_registry-Holds = record {
  free = 28;
  cells = refl;
  size = refl;
  nonzero = refl;
  unique = λ x. ground arith;
}

remove_lem_example :
    (ids' : List ℕ) × Holds (remove some_registry 6).1 ids'
    × IsWithout 6 some_ids ids'
    × ((remove some_registry 6).0 ≡ true)
remove_lem_example = remove_lem 6 some_registry-Holds (omega arith)

repair-remove_states_example : All (IsRepaired 6 some_ids) (remove_states some_registry 6)
repair-remove_states_example = repair-remove_states 6 some_registry-Holds (omega arith)

-- Process 6 is dead.
abbrev is_alive : ℕ → Bool
is_alive id = not (id == 6)

add_lem_example : IsAddition is_alive 8 some_registry some_ids (add is_alive some_registry 8)
add_lem_example = add_lem 8 some_registry-Holds (omega arith) refl
