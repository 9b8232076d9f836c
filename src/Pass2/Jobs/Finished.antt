-- ===== src/Pass2/Jobs/Finished.antt =====
-- Runs of the pool from its start to its end.
use netspoc.Prelude.{
  ℕ, suc, ◌+◌, ◌-◌, ◌*◌, ◌<◌, ◌≤◌, ◌≡◌, inl, inr, refl, sym, ap, ◌∙◌, true, false, none, some, List,
  [], ◌∷◌, ◌++◌, map, ltb, leb, arith, Bool-cases, length,
}
use netspoc.Pass2.Jobs.{
  Pass2Result, Pool, new_pool, check, wait_and_check, start_job, start_next, process, main_at,
  main_step, Step, main, job, Run, stay, go, at_end, finished,
}
use netspoc.Pass2.Jobs.Count.{tally, counted, busy, work, total, Steady, Step-Moved}

module _ (concurrent : ℕ) (outcome : ℕ → Pass2Result) where
  new_pool-Steady : (lines : List ℕ) → Steady concurrent outcome (new_pool concurrent lines)
  unfolding new_pool
  new_pool-Steady lines = elim (Bool-cases (leb concurrent 1)) [
    | inl e ↦ inl (e, omega arith, refl)
    | inr e ↦ inr (e, omega arith, omega arith, inr (omega arith))
  ]

  new_pool-total :
      (lines : List ℕ) (r : Pass2Result)
      → total concurrent outcome r (new_pool concurrent lines) ≡ tally r (map outcome lines)
  unfolding new_pool
  new_pool-total lines Pass2Result.fail = omega arith
  new_pool-total lines Pass2Result.ok = omega arith
  new_pool-total lines Pass2Result.reuse = omega arith

  new_pool-work : (lines : List ℕ) → work (new_pool concurrent lines) ≡ 3 * length lines
  unfolding new_pool
  new_pool-work lines = omega arith

  -- A run keeps the results and uses up work.
  Run-keeps :
      {s t : Pool} {n : ℕ}
      → Run concurrent outcome s t n
      → Steady concurrent outcome s
      → Steady concurrent outcome t
        × ((r : Pass2Result) → total concurrent outcome r t ≡ total concurrent outcome r s)
        × (work t + n ≤ work s)
  Run-keeps stay h = (h, λ r. refl, omega arith)
  Run-keeps (go {t} {u} run step) h =
      let (h', e, le) = Run-keeps run h in
      let m = Step-Moved concurrent outcome step in
      (m.steady h', λ r. m.counts r ∙ e r, omega (arith, m.less))

  Step-at :
      (s t : Pool) (ls : List ℕ)
      → s.lines ≡ ls
      → main_at concurrent outcome ls s ≡ some t
      → Step concurrent outcome s t
  unfolding main_step
  Step-at s t ls e f = main s t (ap (λ l. main_at concurrent outcome l s) e ∙ f)

  -- With a job that runs or a result that waits there is a step, if the function would take the result.
  take_or_send :
      (s : Pool) (ls : List ℕ) (f : Pool → Pool) (cs : List Pass2Result) (js : List ℕ)
      → s.lines ≡ ls
      → s.channel ≡ cs
      → s.running ≡ js
      → 0 < concurrent
      → 0 < busy s
      → ((x : Pass2Result) (xs : List Pass2Result) (t : Pool)
          → wait_and_check s.channel s ≡ some t
          → main_at concurrent outcome ls s ≡ some (f t))
      → (t : Pool) × Step concurrent outcome s t
  unfolding wait_and_check
  take_or_send s ls f (x ∷ xs) js e c j room some_busy takes =
      let t = check x (record s { channel = xs; downs = suc s.downs }) in
      (f t, Step-at s (f t) ls e (takes x xs t (ap (λ l. wait_and_check l s) c)))
  take_or_send s ls f [] (d ∷ ds) e c j room some_busy takes =
      (_, job s [] d ds j (omega (arith, ap length c)))
  take_or_send s ls f [] [] e c j room some_busy takes =
      absurd (omega (arith, ap length c, ap length j))

  progress :
      (s : Pool) (ls : List ℕ)
      → 0 < concurrent
      → s.lines ≡ ls
      → at_end ls s ≡ false
      → Steady concurrent outcome s
      → (t : Pool) × Step concurrent outcome s t
  unfolding main_at process wait_and_check start_next
  progress s [] room e more (inl (c, b, u)) = absurd (ground (arith, u))
  progress s [] room e more (inr (c, u, b, g)) =
      let lt : ltb s.downs s.ups ≡ true = ground arith in
      take_or_send s [] (λ t. t) s.channel s.running e refl refl room (ground (arith, u))
        (λ x xs t f. rw lt f)
  progress s (d ∷ ds) room e more (inl (c, b, u)) = step_in_turn s.channel refl
    where
      step_in_turn :
          (cs : List Pass2Result) → s.channel ≡ cs → (t : Pool) × Step concurrent outcome s t
      step_in_turn [] h =
          let s' : Pool = record s { lines = ds } in
          let lt : ltb (length s.channel) concurrent ≡ true = ground (arith, ap length h) in
          let taken = ap (λ l. wait_and_check (l ++ outcome d ∷ []) s') h in
          (
            _,
            Step-at s (check (outcome d) (record s' { channel = []; downs = suc s.downs })) (d ∷ ds)
                e (rw (c, lt) taken),
          )
      step_in_turn (x ∷ xs) h = absurd (omega (arith, b, ap length h))
  progress s (d ∷ ds) room e more (inr (c, u, b, g)) = elim (Bool-cases (ltb 0 s.workers_left)) [
    | inl lt ↦ (
      _,
      Step-at s (record (start_job d ds s) { workers_left = s.workers_left - 1 }) (d ∷ ds) e
          (rw (c, lt) refl),
    )
    | inr ge ↦
        let full : s.workers_left + busy s ≡ concurrent = elim g [
          | inl z ↦ absurd (omega (arith, z, ap length e))
          | inr x ↦ x
        ] in
        take_or_send s (d ∷ ds) (start_job d ds) s.channel s.running e refl refl room
          (ground (arith, full)) (λ x xs t f. rw (c, ge, f) refl)
  ]

  nothing_left :
      (s : Pool) (ls : List ℕ)
      → s.lines ≡ ls
      → at_end ls s ≡ true
      → Steady concurrent outcome s
      → (busy s ≡ 0) × (length s.lines ≡ 0)
  nothing_left s [] e end (inl (c, b, u)) = (b, ap length e)
  nothing_left s [] e end (inr (c, u, b, g)) = (ground (arith, u), ap length e)
  nothing_left s (d ∷ ds) e end h = cc

  counted_all :
      (s : Pool) (r : Pass2Result) (js ls : List ℕ) (cs : List Pass2Result)
      → s.running ≡ js
      → s.lines ≡ ls
      → s.channel ≡ cs
      → length js + length cs ≡ 0
      → length ls ≡ 0
      → total concurrent outcome r s ≡ counted r s
  counted_all s r [] [] [] e f g z w = omega (
    arith,
    ap (λ l. tally r (map outcome l)) e,
    ap (λ l. tally r (map outcome l)) f,
    ap (tally r) g,
  )
  counted_all s r (j ∷ js) ls cs e f g z w = absurd (omega arith)
  counted_all s r [] (d ∷ ds) cs e f g z w = absurd (omega arith)
  counted_all s r [] [] (c ∷ cs) e f g z w = absurd (omega arith)

  at_most : (s : Pool) → Steady concurrent outcome s → length s.running ≤ concurrent
  at_most s (inl (c, b, u)) = omega (arith, b)
  at_most s (inr (c, u, b, g)) = omega (arith, b)

  -- With a concurrency of at least 1, however the steps of the function and of its jobs are interleaved:
  -- a run has at most three steps for each line, and never more jobs at a time than the concurrency;
  -- unless the function is at its end, there is a next step, so it is never blocked; and at its end
  -- each of the three counters is the number of lines whose job has this result.
  pub apply_concurrent-finished :
      (lines : List ℕ) (s : Pool) (n : ℕ)
      → 0 < concurrent
      → Run concurrent outcome (new_pool concurrent lines) s n
      → (n ≤ 3 * length lines)
        × (length s.running ≤ concurrent)
        × (finished s ≡ false → (t : Pool) × Step concurrent outcome s t)
        × (finished s ≡ true → (r : Pass2Result) → counted r s ≡ tally r (map outcome lines))
  apply_concurrent-finished lines s n room run =
      let (h, kept, le) = Run-keeps run (new_pool-Steady lines) in
      (
        omega (arith, le, new_pool-work lines),
        at_most s h,
        λ more. progress s s.lines room refl more h,
        λ end r.
            let (b, l) = nothing_left s s.lines refl end h in
            sym (counted_all s r s.running s.lines s.channel refl refl refl b l)
            ∙ kept r
            ∙ new_pool-total lines r,
      )

no_job : (before : List ℕ) (d : ℕ) (behind : List ℕ) → [] ≡ before ++ d ∷ behind → ⊥
no_job [] d behind e = cc
no_job (b ∷ before) d behind e = cc

blocked :
    (outcome : ℕ → Pass2Result) (d : ℕ) (ds : List ℕ)
    → main_step 0 outcome (new_pool 0 (d ∷ ds)) ≡ none
unfolding main_step main_at process new_pool
blocked outcome d ds = refl

no-Step :
    (outcome : ℕ → Pass2Result) (s t : Pool)
    → main_step 0 outcome s ≡ none
    → s.running ≡ []
    → Step 0 outcome s t
    → ⊥
no-Step outcome _ _ b e (main s t f) = let g = sym b ∙ f in cc
no-Step outcome _ _ b e (job s before d behind f lt) = no_job before d behind (sym e ∙ f)

-- With a concurrency of 0 and a line to process the function is not at its end, and there is no step:
-- the channel has no room for the result that only the sender itself would take.
pub apply_concurrent-blocked :
    (outcome : ℕ → Pass2Result) (d : ℕ) (ds : List ℕ)
    → (finished (new_pool 0 (d ∷ ds)) ≡ false)
      × ((t : Pool) → Step 0 outcome (new_pool 0 (d ∷ ds)) t → ⊥)
unfolding new_pool
apply_concurrent-blocked outcome d ds =
    (refl, λ t step. no-Step outcome (new_pool 0 (d ∷ ds)) t (blocked outcome d ds) refl step)
