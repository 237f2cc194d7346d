-- ===== src/CircularBuffer/Fifo.antt =====
-- A circular buffer against its specification: a queue of at most `capacity` bytes.
use unix_thread_ipc.Prelude.{
  ℕ, ◌-◌, ◌≡◌, refl, ◌∙◌, Option, none, some, List, [], ◌∷◌, ◌++◌, arith, length, take, drop, min,
  take-append, drop-append,
}
use unix_thread_ipc.CircularBuffer.{CircularBuffer, data_available, space_available, write, read}
use unix_thread_ipc.CircularBuffer.Valid.{IsValid, contents, observers_lem}
use unix_thread_ipc.CircularBuffer.Write.{write_lem}
use unix_thread_ipc.CircularBuffer.Read.{read_lem}

-- What a client asks of a buffer: to write all of the given bytes, or to read at most a number.
pub data Request : Type 0 where
  put : List ℕ → Request
  get : ℕ → Request

-- What it sees: how many bytes went in, or the bytes that came out.
pub data Reply : Type 0 where
  stored : ℕ → Reply
  received : List ℕ → Reply

-- `none`: an assertion of `read` or `write` failed.
pub run : CircularBuffer → List Request → Option (List Reply)
run r [] = some []
run r (put bytes ∷ rest) = elim (write r bytes (length bytes)) [
  | none ↦ none
  | some (n, r') ↦ elim (run r' rest) [ none ↦ none | some l ↦ some (stored n ∷ l) ]
]
run r (get size ∷ rest) = elim (read r size) [
  | none ↦ none
  | some (out, r') ↦ elim (run r' rest) [ none ↦ none | some l ↦ some (received out ∷ l) ]
]

-- The specification: `q` holds the bytes, oldest first.
unfoldable pub run_queue : ℕ → List ℕ → List Request → List Reply
run_queue capacity q [] = []
run_queue capacity q (put bytes ∷ rest) =
    let n = min (length bytes) (capacity - length q) in
    stored n ∷ run_queue capacity (q ++ take n bytes) rest
run_queue capacity q (get size ∷ rest) =
    let n = min size (length q) in received (take n q) ∷ run_queue capacity (drop n q) rest

take_of_split :
    (n : ℕ) (q out rest : List ℕ)
    → q ≡ out ++ rest
    → length out ≡ n
    → (take n q ≡ out) × (drop n q ≡ rest)
take_of_split n q out rest e l = rw (e, ← l) (take-append out rest, drop-append out rest)

run-put :
    (r r' : CircularBuffer) (bytes : List ℕ) (rest : List Request) (n : ℕ) (l : List Reply)
    → write r bytes (length bytes) ≡ some (n, r')
    → run r' rest ≡ some l
    → run r (put bytes ∷ rest) ≡ some (stored n ∷ l)
unfolding run
run-put r r' bytes rest n l e ih = ground arith

run-get :
    (r r' : CircularBuffer) (size : ℕ) (rest : List Request) (out : List ℕ) (l : List Reply)
    → read r size ≡ some (out, r')
    → run r' rest ≡ some l
    → run r (get size ∷ rest) ≡ some (received out ∷ l)
unfolding run
run-get r r' size rest out l e ih = ground arith

sizes :
    {r : CircularBuffer}
    → IsValid r
    → (space_available r ≡ r.capacity - length (contents r))
      × (data_available r ≡ length (contents r))
sizes v = omega (arith, observers_lem v)

-- No sequence of calls tells a valid buffer from the bounded queue of its contents, and no
-- assertion fails.
pub run_refines :
    (requests : List Request) {r : CircularBuffer}
    → IsValid r
    → run r requests ≡ some (run_queue r.capacity (contents r) requests)
unfolding run run_queue
run_refines [] v = refl
run_refines (put bytes ∷ rest) {r} v =
    let (r', e, v', c, k) = write_lem bytes (length bytes) v (omega arith) in
    run-put r r' bytes rest (min (length bytes) (space_available r)) _ e (run_refines rest v')
    ∙ rw (k, c, (sizes v).0)
run_refines (get size ∷ rest) {r} v =
    let (out, r', e, v', c, n, k) = read_lem size v in
    let (taken, left) = take_of_split (length out) (contents r) out (contents r') c refl in
    run-get r r' size rest out _ e (run_refines rest v') ∙ rw (k, ← (sizes v).1, ← n, taken, left)
