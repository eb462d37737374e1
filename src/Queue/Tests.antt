-- ===== src/Queue/Tests.antt =====
-- Two jobs, one call that fails, and a queue that runs empty.
use amankan.Prelude.{◌≡◌, refl, none, some, List, [], ◌∷◌}
use amankan.Queue.{job_id, broken}
use amankan.Queue.Fifo.{Call, push, pop, pushed, got, replies, servings, replies-servings}

abbrev calls : List Call
calls =
    push none "a"
    ∷ push (some "down") "b"
    ∷ push none "c"
    ∷ pop none
    ∷ pop (some "down")
    ∷ pop none
    ∷ pop none
    ∷ []

served_in_order :
    servings calls []
    ≡ pushed none
      ∷ pushed (some "down")
      ∷ pushed none
      ∷ got (job_id "a")
      ∷ got (broken "down")
      ∷ got (job_id "c")
      ∷ got (job_id "")
      ∷ []
served_in_order = refl

replies-servings_example : replies calls [] ≡ servings calls []
replies-servings_example = replies-servings calls []
