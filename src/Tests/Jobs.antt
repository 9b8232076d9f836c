-- ===== src/Tests/Jobs.antt =====
-- Two devices, of which one fails, with two jobs at a time.
use netspoc.Prelude.{
  ℕ, ◌*◌, ◌≤◌, ◌≡◌, refl, false, true, some, List, [], ◌∷◌, map, if◌then◌else◌, ◌==◌, arith, length,
}
use netspoc.Pass2.Jobs.{
  Pass2Result, fail, ok, Pool, new_pool, Step, main, job, main_step, main_at, start_job,
  wait_and_check, check, Run, stay, go, finished,
}
use netspoc.Pass2.Jobs.Count.{tally, counted}
use netspoc.Pass2.Jobs.Finished.{apply_concurrent-finished, apply_concurrent-blocked}

abbrev results : ℕ → Pass2Result
results d = if d == 1 then fail else ok

abbrev devices : List ℕ
devices = 1 ∷ 2 ∷ []

abbrev one_started : Pool
one_started = record (new_pool 2 devices) {
  lines = 2 ∷ [];
  workers_left = 1;
  ups = 1;
  running = 1 ∷ [];
}

abbrev two_started : Pool
two_started = record one_started { lines = []; workers_left = 0; ups = 2; running = 2 ∷ 1 ∷ [] }

abbrev one_sent : Pool
one_sent = record two_started { running = 2 ∷ []; channel = fail ∷ [] }

abbrev both_sent : Pool
both_sent = record one_sent { running = []; channel = fail ∷ ok ∷ [] }

abbrev one_counted : Pool
one_counted = record both_sent { channel = ok ∷ []; downs = 1; errors = 1 }

abbrev both_counted : Pool
both_counted = record one_counted { channel = []; downs = 2; generated = 1 }

first : main_step 2 results (new_pool 2 devices) ≡ some one_started
unfolding main_step main_at start_job new_pool
first = refl

second : main_step 2 results one_started ≡ some two_started
unfolding main_step main_at start_job new_pool
second = refl

third : main_step 2 results both_sent ≡ some one_counted
unfolding main_step main_at wait_and_check check new_pool
third = refl

fourth : main_step 2 results one_counted ≡ some both_counted
unfolding main_step main_at wait_and_check check new_pool
fourth = refl

-- Both jobs are started, both send their result, and both results are counted.
all_steps : Run 2 results (new_pool 2 devices) both_counted 6
unfolding new_pool
all_steps =
    go
      (go
        (go
          (go
            (go (go stay (main (new_pool 2 devices) one_started first))
              (main one_started two_started second))
            (job two_started (2 ∷ []) 1 [] refl (omega arith)))
          (job one_sent [] 2 [] refl (omega arith)))
        (main both_sent one_counted third))
      (main one_counted both_counted fourth)

apply_concurrent-finished_example :
    (6 ≤ 3 * length devices)
    × (length both_counted.running ≤ 2)
    × (finished both_counted ≡ false → (t : Pool) × Step 2 results both_counted t)
    × (finished both_counted ≡ true
        → (r : Pass2Result) → counted r both_counted ≡ tally r (map results devices))
apply_concurrent-finished_example =
    apply_concurrent-finished 2 results devices both_counted 6 (omega arith) all_steps

apply_concurrent-blocked_example :
    (finished (new_pool 0 devices) ≡ false)
    × ((t : Pool) → Step 0 results (new_pool 0 devices) t → ⊥)
apply_concurrent-blocked_example = apply_concurrent-blocked results 1 (2 ∷ [])
