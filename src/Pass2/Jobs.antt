-- ===== src/Pass2/Jobs.antt =====
-- go/cmd/spoc2/main.go: `applyConcurrent` and the jobs that it starts, `pass2File`. A job is one device,
-- and sends its result to the channel; which result is a parameter, for jobs that come to an end.
pub mod Count
pub mod Finished
use netspoc.Prelude.{
  ℕ, zero, suc, ◌+◌, ◌-◌, ◌<◌, ◌≡◌, Bool, true, false, Option, none, some, List, [], ◌∷◌, ◌++◌,
  if◌then◌else◌, ltb, leb, length,
}

pub data Pass2Result : Type 0 where
  fail ok reuse : Pass2Result

-- The variables of the function, the channel, and the jobs that run. The number `started`, which goes
-- below 0 where jobs are processed sequentially, is `ups` less `downs`.
pub record Pool : Type 0 where
  pub lines : List ℕ
  pub workers_left : ℕ
  pub ups : ℕ
  pub downs : ℕ
  pub generated : ℕ
  pub reused : ℕ
  pub errors : ℕ
  pub running : List ℕ
  pub channel : List Pass2Result

unfoldable pub new_pool : ℕ → List ℕ → Pool
new_pool concurrent lines = record {
  lines = lines;
  workers_left = concurrent;
  ups = 0;
  downs = 0;
  generated = 0;
  reused = 0;
  errors = 0;
  running = [];
  channel = [];
}

-- The `switch` of `waitAndCheck`
unfoldable pub check : Pass2Result → Pool → Pool
check ok s = record s { generated = suc s.generated }
check reuse s = record s { reused = suc s.reused }
check fail s = record s { errors = suc s.errors }

-- `waitAndCheck`; `none` where it is blocked
unfoldable pub wait_and_check : List Pass2Result → Pool → Option Pool
unfolding check
wait_and_check [] s = none
wait_and_check (r ∷ rs) s = some (check r (record s { channel = rs; downs = suc s.downs }))

-- `go pass2File(…); started++`
unfoldable pub start_job : ℕ → List ℕ → Pool → Pool
start_job d ds s = record s { lines = ds; running = d ∷ s.running; ups = suc s.ups }

start_next : ℕ → List ℕ → Option Pool → Option Pool
unfolding start_job
start_next d ds none = none
start_next d ds (some s) = some (start_job d ds s)

module _ (concurrent : ℕ) (outcome : ℕ → Pass2Result) where
  -- `pass2File`, run by the caller: the channel must have room for the result.
  unfoldable pub process : ℕ → List ℕ → Pool → Option Pool
  unfolding wait_and_check
  process d ds s =
      if ltb (length s.channel) concurrent
      then wait_and_check (s.channel ++ outcome d ∷ []) (record s { lines = ds })
      else none

  -- The body of the loop over the lines, and that of the last loop; `none` where the function is
  -- blocked or at its end.
  unfoldable pub main_at : List ℕ → Pool → Option Pool
  unfolding process wait_and_check start_job start_next
  main_at [] s = if ltb s.downs s.ups then wait_and_check s.channel s else none
  main_at (d ∷ ds) s =
      if leb concurrent 1
      then process d ds s
      else if ltb 0 s.workers_left
      then some (record (start_job d ds s) { workers_left = s.workers_left - 1 })
      else start_next d ds (wait_and_check s.channel s)

  unfoldable pub main_step : Pool → Option Pool
  unfolding main_at
  main_step s = main_at s.lines s

  -- A step of the function itself, or a job that sends its result while the channel has room.
  pub data Step : Pool → Pool → Type 0 where
    main : (s t : Pool) → main_step s ≡ some t → Step s t
    job :
        (s : Pool) (before : List ℕ) (d : ℕ) (behind : List ℕ)
        → s.running ≡ before ++ d ∷ behind
        → length s.channel < concurrent
        → Step s (record s { running = before ++ behind; channel = s.channel ++ outcome d ∷ [] })

  -- The states after some steps.
  pub data Run (s : Pool) : Pool → ℕ → Type 0 where
    stay : Run s s 0
    go : {t u : Pool} {n : ℕ} → Run s t n → Step t u → Run s u (suc n)

-- Both loops are left.
abbrev pub at_end : List ℕ → Pool → Bool
at_end [] s = leb s.ups s.downs
at_end (d ∷ ds) s = false

abbrev pub finished : Pool → Bool
finished s = at_end s.lines s
