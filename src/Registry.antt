-- ===== src/Registry.antt =====
-- IpcProcessRegistry of common/ipc_message_queue_win32.cc: the processes that take part in
-- inter-process messages, in an array in shared memory.
--
-- The array is a list of `kMaxProcesses` numbers, 0 for `kInvalidProcessId`. Each operation is
-- modelled under the lock of the registry, as built without assertions, with the memory mapped.
-- Whether `OpenProcess` finds a process is the parameter `alive`. `revision` is a 32-bit pattern.
pub mod Cells
pub mod Changes
pub mod Remove
pub mod Add
pub mod Repair
mod Tests
use unix_thread_ipc.Prelude.{
  ℕ, zero, suc, ◌+◌, ◌-◌, ◌%◌, ◌^◌, length, Bool, true, false, not, Option, none, some, List, [],
  ◌∷◌, ◌==◌, if◌then◌else◌, get_or, set, take, drop, replicate, map,
}

abbrev pub max_processes : ℕ
max_processes = 31

pub record Registry : Type 0 where
  pub revision : ℕ
  pub processes : List ℕ

-- The memory as the system hands it out.
abbrev pub new_registry : Registry
new_registry = record { revision = 0; processes = replicate max_processes 0 }

-- `revision += 1`
abbrev pub bump : Registry → Registry
bump r = record r { revision = (r.revision + 1) % 2 ^ 32 }

-- The first index that holds `id`.
unfoldable pub find_id : ℕ → List ℕ → Option ℕ
find_id id [] = none
find_id id (x ∷ xs) =
    let rest = find_id id xs in
    if x == id then some 0 else elim rest [ none ↦ none | some i ↦ some (suc i) ]

-- The first index that holds a dead process.
unfoldable pub find_dead : (ℕ → Bool) → List ℕ → Option ℕ
find_dead alive [] = none
find_dead alive (x ∷ xs) =
    let rest = find_dead alive xs in
    if not (alive x) then some 0 else elim rest [ none ↦ none | some i ↦ some (suc i) ]

-- A new entry at index `i`.
abbrev pub store : Registry → ℕ → ℕ → Registry
store r i id = record r { processes = set r.processes i id }

unfoldable pub add : (ℕ → Bool) → Registry → ℕ → Bool × Registry
unfolding find_id find_dead
add alive r id = elim (find_id 0 r.processes) [
  | some i ↦ (true, store (bump r) i id)
  | none ↦ elim (find_dead alive r.processes) [
    | some i ↦ (true, store (bump r) i id)
    | none ↦ (false, r)
  ]
]

-- The last index before the first 0, from index `i` with the entries `xs` behind it.
unfoldable pub last_valid : ℕ → List ℕ → ℕ
last_valid i [] = i
last_valid i (x ∷ xs) = let rest = last_valid (suc i) xs in if x == 0 then i else rest

-- The array after each of its changes, where `i` is the index to remove and `j` the last valid one.
abbrev pub writes : List ℕ → ℕ → ℕ → List (List ℕ)
writes xs i j =
    if j == i
    then set xs i 0 ∷ []
    else set xs i (get_or xs j 0) ∷ set (set xs i (get_or xs j 0)) j 0 ∷ []

unfoldable pub removal : ℕ → List ℕ → Option (List (List ℕ))
unfolding find_id last_valid
removal id xs = elim (find_id id xs) [
  | none ↦ none
  | some i ↦ some (writes xs i (last_valid i (drop (suc i) xs)))
]

-- The states of the shared memory during `Remove`, one for each write.
unfoldable pub remove_states : Registry → ℕ → List Registry
unfolding removal
remove_states r id = elim (removal id r.processes) [
  | none ↦ []
  | some arrays ↦ bump r ∷ map (λ xs. record (bump r) { processes = xs }) arrays
]

abbrev pub last_state : Registry → List Registry → Registry
last_state r [] = r
last_state r (s ∷ rest) = last_state s rest

unfoldable pub remove : Registry → ℕ → Bool × Registry
unfolding remove_states
remove r id = (
  elim (find_id id r.processes) [ none ↦ false | some i ↦ true ],
  last_state r (remove_states r id),
)

-- The entries before the first 0.
unfoldable pub valid_prefix : List ℕ → List ℕ
valid_prefix [] = []
valid_prefix (x ∷ xs) = let rest = valid_prefix xs in if x == 0 then [] else x ∷ rest

-- `GetAll` with the copy that the process keeps: the processes, and the new copy.
unfoldable pub get_all : Registry → Registry → List ℕ × Registry
unfolding valid_prefix
get_all cached r =
    if cached.revision == r.revision
    then (valid_prefix cached.processes, cached)
    else (valid_prefix r.processes, r)

-- `Repair`, where index `n - 1` is the last valid one.
unfoldable pub repair : Registry → Registry
unfolding valid_prefix find_id
repair r =
    let n = length (valid_prefix r.processes) in
    if n == 0 then r else elim (find_id (get_or r.processes (n - 1) 0) (take (n - 1) r.processes)) [
      | none ↦ r
      | some i ↦ store (bump r) (n - 1) 0
    ]
