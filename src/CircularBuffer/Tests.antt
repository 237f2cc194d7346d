-- ===== src/CircularBuffer/Tests.antt =====
-- Examples for common/circular_buffer.h: a block of four bytes, which holds three.
use unix_thread_ipc.Prelude.{◌≡◌, refl, some, List, [], ◌∷◌, arith}
use unix_thread_ipc.CircularBuffer.{CircularBuffer}
use unix_thread_ipc.CircularBuffer.Valid.{IsValid}
use unix_thread_ipc.CircularBuffer.Fifo.{
  Request, put, get, stored, received, run, run_queue, run_refines,
}

-- Two bytes, 7 and 8, around the end of the block.
abbrev wrapped : CircularBuffer
wrapped = record {
  head = 3;
  tail = 1;
  capacity = 3;
  buf_size = 4;
  buffer = some (8 ∷ 0 ∷ 0 ∷ 7 ∷ []);
}

wrapped-IsValid : IsValid wrapped
wrapped-IsValid = record {
  mapped = refl;
  block = refl;
  small = omega arith;
  spare = refl;
  head_in = omega arith;
  tail_in = omega arith;
}

abbrev some_requests : List Request
some_requests = put (1 ∷ 2 ∷ 3 ∷ []) ∷ get 2 ∷ put (4 ∷ []) ∷ get 9 ∷ []

-- The model runs.
run_test :
    run wrapped some_requests
    ≡ some (stored 1 ∷ received (7 ∷ 8 ∷ []) ∷ stored 1 ∷ received (1 ∷ 4 ∷ []) ∷ [])
unfolding run_queue
run_test = run_refines some_requests wrapped-IsValid

run_refines_example : run wrapped some_requests ≡ some (run_queue 3 (7 ∷ 8 ∷ []) some_requests)
run_refines_example = run_refines some_requests wrapped-IsValid
