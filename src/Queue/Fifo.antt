-- ===== src/Queue/Fifo.antt =====
-- internal/queue/queue.go: the Redis list as a queue, first in, first out.
use amankan.Prelude.{
  ℕ, suc, String, ◌≡◌, refl, sym, ap, Option, none, some, List, [], ◌∷◌, ◌++◌, length,
}
use amankan.Queue.{enqueue, dequeue, pop_last, shifted, popped, Popped, job_id, broken}

-- A call of the client, with the error of Redis if it fails.
pub data Call : Type 0 where
  push : Option String → String → Call
  pop : Option String → Call

-- What a call gives back.
pub data Reply : Type 0 where
  pushed : Option String → Reply
  got : Popped → Reply

abbrev pub reply : Call → List String → Reply × List String
reply (push e id) list = (pushed (enqueue e id list).0, (enqueue e id list).1)
reply (pop e) list = (got (dequeue e list).0, (dequeue e list).1)

abbrev pub replies : List Call → List String → List Reply
replies [] list = []
replies (c ∷ cs) list = (reply c list).0 ∷ replies cs (reply c list).1

-- A queue with its oldest element first.
abbrev pub served : Call → List String → Reply × List String
served (push none id) fifo = (pushed none, fifo ++ id ∷ [])
served (push (some e) id) fifo = (pushed (some e), fifo)
served (pop none) [] = (got (job_id ""), [])
served (pop none) (x ∷ fifo) = (got (job_id x), fifo)
served (pop (some e)) fifo = (got (broken e), fifo)

abbrev pub servings : List Call → List String → List Reply
servings [] fifo = []
servings (c ∷ cs) fifo = (served c fifo).0 ∷ servings cs (served c fifo).1

abbrev pub oldest_first : List String → List String
oldest_first [] = []
oldest_first (x ∷ list) = oldest_first list ++ x ∷ []

-- What BRPOP takes is the oldest element.
abbrev pub IsOldest : Option (String × List String) → List String → Type 0
IsOldest none fifo = fifo ≡ []
IsOldest (some (last, before)) fifo = fifo ≡ last ∷ oldest_first before

shifted-IsOldest :
    (x : String) (taken : Option (String × List String)) (fifo : List String)
    → IsOldest taken fifo
    → IsOldest (shifted x taken) (fifo ++ x ∷ [])
shifted-IsOldest x none fifo h = rw h refl
shifted-IsOldest x (some (last, before)) fifo h = rw h refl

pub pop_last-IsOldest : (list : List String) → IsOldest (pop_last list) (oldest_first list)
pop_last-IsOldest [] = refl
pop_last-IsOldest (x ∷ list) =
    shifted-IsOldest x (pop_last list) (oldest_first list) (pop_last-IsOldest list)

-- One element less is left.
abbrev pub IsShorter : Option (String × List String) → ℕ → Type 0
IsShorter none n = n ≡ 0
IsShorter (some (last, before)) n = n ≡ suc (length before)

shifted-IsShorter :
    (x : String) (taken : Option (String × List String)) (n : ℕ)
    → IsShorter taken n
    → IsShorter (shifted x taken) (suc n)
shifted-IsShorter x none n h = ap (λ (m : ℕ). suc m) h
shifted-IsShorter x (some (last, before)) n h = ap (λ (m : ℕ). suc m) h

pub pop_last-IsShorter : (list : List String) → IsShorter (pop_last list) (length list)
pop_last-IsShorter [] = refl
pop_last-IsShorter (x ∷ list) =
    shifted-IsShorter x (pop_last list) (length list) (pop_last-IsShorter list)

-- A reply with the list that is left stands for a reply with the queue that is left.
abbrev Agree : Reply × List String → Reply × List String → Type 0
Agree (r, list) (s, fifo) = (r ≡ s) × (oldest_first list ≡ fifo)

popped-served :
    (taken : Option (String × List String)) (list : List String)
    → (pop_last list ≡ taken)
    → IsOldest taken (oldest_first list)
    → Agree
        (got (popped taken list).0, (popped taken list).1)
        (served (pop none) (oldest_first list))
popped-served none list e h = rw h (refl, refl)
popped-served (some (last, before)) list e h = rw h (refl, refl)

reply-served : (c : Call) (list : List String) → Agree (reply c list) (served c (oldest_first list))
unfolding enqueue dequeue
reply-served (push none id) list = (refl, refl)
reply-served (push (some e) id) list = (refl, refl)
reply-served (pop none) list = popped-served (pop_last list) list refl (pop_last-IsOldest list)
reply-served (pop (some e)) list = (refl, refl)

-- The Redis list under Enqueue and Dequeue refines a queue: whatever sequence of the calls runs
-- from whatever list, and whichever of them fail, their replies are those of a queue that adds at
-- its end and serves its oldest element, and "" where it has none.
pub replies-servings :
    (cs : List Call) (list : List String) → replies cs list ≡ servings cs (oldest_first list)
replies-servings [] list = refl
replies-servings (c ∷ cs) list =
    let (same, left) = reply-served c list in
    rw (same, sym left)
      (ap (λ rs. (served c (oldest_first list)).0 ∷ rs) (replies-servings cs (reply c list).1))
