-- ===== src/Queue.antt =====
-- internal/queue/queue.go: the Redis list of the identifiers of scan jobs. LPUSH adds at the head
-- and BRPOP takes from the end; a call that fails changes nothing.
pub mod Fifo
mod Tests
use amankan.Prelude.{String, Option, none, some, List, [], ◌∷◌}

-- Enqueue: the error, and the list.
unfoldable pub enqueue : Option String → String → List String → Option String × List String
enqueue none scan_job_id list = (none, scan_job_id ∷ list)
enqueue (some e) scan_job_id list = (some e, list)

-- BRPOP: the last element and the ones before it.
abbrev pub shifted : String → Option (String × List String) → Option (String × List String)
shifted x none = some (x, [])
shifted x (some (last, before)) = some (last, x ∷ before)

abbrev pub pop_last : List String → Option (String × List String)
pop_last [] = none
pop_last (x ∷ list) = shifted x (pop_last list)

pub data Popped : Type 0 where
  job_id : String → Popped
  broken : String → Popped

abbrev pub popped : Option (String × List String) → List String → Popped × List String
popped none list = (job_id "", list)
popped (some (last, before)) list = (job_id last, before)

-- Dequeue: "" where nothing arrives until the timeout.
unfoldable pub dequeue : Option String → List String → Popped × List String
dequeue none list = popped (pop_last list) list
dequeue (some e) list = (broken e, list)
