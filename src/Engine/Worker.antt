-- ===== src/Engine/Worker.antt =====
-- cmd/worker/main.go: the loop of the worker over the queue.
use amankan.Prelude.{
  ℕ, zero, suc, String, ◌≡◌, refl, subst, Option, none, some, List, [], ◌∷◌, arith, length,
}
use amankan.Float64.{Float64}
use amankan.Scanner.{World}
use amankan.Queue.{Popped, job_id, broken, dequeue, pop_last}
use amankan.Queue.Fifo.{oldest_first, IsOldest, pop_last-IsOldest, IsShorter, pop_last-IsShorter}
use amankan.Engine.{Processor, System}
use amankan.Engine.Process.{handle}

module _ (fl : Float64) {G : Type 0} (world : World) (p : Processor fl world G) where
  abbrev taken : Popped × List String → System fl.Carrier G → List String × System fl.Carrier G
  taken (broken e, list) s = (list, s)
  taken (job_id id, list) s = (list, handle fl world p id s)

  -- One turn of the loop, with the error of the queue if its call fails.
  unfoldable pub turn :
      Option String → List String × System fl.Carrier G → List String × System fl.Carrier G
  unfolding dequeue handle
  turn failure (list, s) = taken (dequeue failure list) s

  -- Turns in which the queue does not fail.
  abbrev pub turns : ℕ → List String × System fl.Carrier G → List String × System fl.Carrier G
  turns zero w = w
  turns (suc n) w = turns n (turn none w)

  abbrev pub handle_all : List String → System fl.Carrier G → System fl.Carrier G
  handle_all [] s = s
  handle_all (id ∷ ids) s = handle_all ids (handle fl world p id s)

  turns-taken :
      (n : ℕ) (list : List String) (last : Option (String × List String)) (s : System fl.Carrier G)
      → pop_last list ≡ last
      → IsShorter last (suc n)
      → IsOldest last (oldest_first list)
      → ((before : List String)
          → length before ≡ n
          → (t : System fl.Carrier G)
          → turns n (before, t) ≡ ([], handle_all (oldest_first before) t))
      → turns (suc n) (list, s) ≡ ([], handle_all (oldest_first list) s)
  unfolding turn dequeue
  turns-taken n list none s e shorter oldest rest = absurd (omega (arith, shorter))
  turns-taken n list (some (id, before)) s e shorter oldest rest =
      rw (e, oldest) (rest before (omega (arith, shorter)) (handle fl world p id s))

  pub turns-handle_all :
      (n : ℕ) (list : List String) (s : System fl.Carrier G)
      → length list ≡ n
      → turns n (list, s) ≡ ([], handle_all (oldest_first list) s)
  turns-handle_all zero [] s h = refl
  turns-handle_all zero (x ∷ list) s h = absurd (omega (arith, h))
  turns-handle_all (suc n) list s h =
      turns-taken n list (pop_last list) s refl
        (subst (IsShorter (pop_last list)) h (pop_last-IsShorter list)) (pop_last-IsOldest list)
        (λ before k t. turns-handle_all n before t k)
