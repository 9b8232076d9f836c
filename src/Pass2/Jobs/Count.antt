-- ===== src/Pass2/Jobs/Count.antt =====
-- What a step of the pool does to its counters.
use mathlib.Core.Option.{some-injective}
use netspoc.Prelude.{
  ℕ, suc, ◌+◌, ◌-◌, ◌*◌, ◌<◌, ◌≤◌, ◌≡◌, ◌⊎◌, inl, inr, refl, sym, ap, ◌∙◌, subst, true, false,
  Option, none, some, List, [], ◌∷◌, ◌++◌, map, ltb, leb, arith, Bool-cases, length, length-append,
}
use netspoc.Pass2.Jobs.{
  Pass2Result, fail, ok, reuse, Pool, check, wait_and_check, start_job, start_next, process,
  main_at, main_step, Step, main, job,
}

-- How often a result is in a list.
abbrev once : Pass2Result → Pass2Result → ℕ
once fail fail = 1
once ok ok = 1
once reuse reuse = 1
once _ _ = 0

abbrev pub tally : Pass2Result → List Pass2Result → ℕ
tally r [] = 0
tally r (x ∷ xs) = once r x + tally r xs

abbrev pub counted : Pass2Result → Pool → ℕ
counted fail s = s.errors
counted ok s = s.generated
counted reuse s = s.reused

tally-append :
    (r : Pass2Result) (xs ys : List Pass2Result) → tally r (xs ++ ys) ≡ tally r xs + tally r ys
tally-append r [] ys = omega arith
tally-append r (x ∷ xs) ys = rw (tally-append r xs ys) (omega arith)

map-append : {A B : Type 0} (f : A → B) (xs ys : List A) → map f (xs ++ ys) ≡ map f xs ++ map f ys
map-append f [] ys = refl
map-append f (x ∷ xs) ys = ap (λ l. f x ∷ l) (map-append f xs ys)

check-counted : (r x : Pass2Result) (s : Pool) → counted r (check x s) ≡ once r x + counted r s
unfolding check
check-counted fail fail s = omega arith
check-counted fail ok s = omega arith
check-counted fail reuse s = omega arith
check-counted ok fail s = omega arith
check-counted ok ok s = omega arith
check-counted ok reuse s = omega arith
check-counted reuse fail s = omega arith
check-counted reuse ok s = omega arith
check-counted reuse reuse s = omega arith

-- A field that is not a counter of results.
check-field :
    {A : Type 0} (field : Pool → A)
    → ((s : Pool) (n : ℕ)
        → (field (record s { generated = n }) ≡ field s)
          × (field (record s { reused = n }) ≡ field s)
          × (field (record s { errors = n }) ≡ field s))
    → (x : Pass2Result) (s : Pool) → field (check x s) ≡ field s
unfolding check
check-field field kept fail s = (kept s (suc s.errors)).2
check-field field kept ok s = (kept s (suc s.generated)).0
check-field field kept reuse s = (kept s (suc s.reused)).1

-- A result is taken from these.
record Waited (rs : List Pass2Result) (s t : Pool) : Type 0 where
  counts : (r : Pass2Result) → counted r t + tally r t.channel ≡ counted r s + tally r rs
  size : suc (length t.channel) ≡ length rs
  lines : t.lines ≡ s.lines
  running : t.running ≡ s.running
  workers : t.workers_left ≡ s.workers_left
  ups : t.ups ≡ s.ups
  downs : t.downs ≡ suc s.downs

same_counted :
    (r : Pass2Result) (s : Pool) (rs : List Pass2Result) (n : ℕ)
    → counted r (record s { channel = rs; downs = n }) ≡ counted r s
same_counted fail s rs n = refl
same_counted ok s rs n = refl
same_counted reuse s rs n = refl

wait-Waited : (rs : List Pass2Result) (s t : Pool) → wait_and_check rs s ≡ some t → Waited rs s t
unfolding wait_and_check
wait-Waited [] s t e = cc
wait-Waited (x ∷ rs) s t e =
    let s' : Pool = record s { channel = rs; downs = suc s.downs } in
    subst (Waited (x ∷ rs) s) (some-injective (check x s') t e) (record {
      counts = λ r.
          rw
            (
              check-counted r x s',
              same_counted r s rs (suc s.downs),
              check-field (λ p. p.channel) (λ s n. (refl, refl, refl)) x s',
            )
            (omega arith);
      size =
          ap (λ l. suc (length l)) (check-field (λ p. p.channel) (λ s n. (refl, refl, refl)) x s');
      lines = check-field (λ p. p.lines) (λ s n. (refl, refl, refl)) x s';
      running = check-field (λ p. p.running) (λ s n. (refl, refl, refl)) x s';
      workers = check-field (λ p. p.workers_left) (λ s n. (refl, refl, refl)) x s';
      ups = check-field (λ p. p.ups) (λ s n. (refl, refl, refl)) x s';
      downs = check-field (λ p. p.downs) (λ s n. (refl, refl, refl)) x s';
    })

-- Jobs that run, and results that wait.
abbrev pub busy : Pool → ℕ
busy s = length s.running + length s.channel

-- The work that is left.
abbrev pub work : Pool → ℕ
work s = 3 * length s.lines + 2 * length s.running + length s.channel

module _ (concurrent : ℕ) (outcome : ℕ → Pass2Result) where
  -- A result stands in a counter, in the channel, or belongs to a job or a line.
  abbrev pub total : Pass2Result → Pool → ℕ
  total r s =
      counted r s
      + tally r s.channel
      + tally r (map outcome s.running)
      + tally r (map outcome s.lines)

  -- One job at a time, or as many as workers: all are in use while lines are left.
  abbrev pub Steady : Pool → Type 0
  Steady s =
      ((leb concurrent 1 ≡ true) × (busy s ≡ 0) × (s.ups ≡ 0))
      ⊎ ((leb concurrent 1 ≡ false)
          × (s.ups ≡ s.downs + busy s)
          × (s.workers_left + busy s ≤ concurrent)
          × ((length s.lines ≡ 0) ⊎ (s.workers_left + busy s ≡ concurrent)))

  pub record Moved (s t : Pool) : Type 0 where
    pub counts : (r : Pass2Result) → total r t ≡ total r s
    pub less : work t < work s
    pub steady : Steady s → Steady t

  drain :
      (s t : Pool)
      → s.lines ≡ []
      → s.downs < s.ups
      → wait_and_check s.channel s ≡ some t
      → Moved s t
  drain s t e lt f =
      let w = wait-Waited s.channel s t f in
      let no_line : length s.lines ≡ 0 = ap length e in
      let lines = ap length w.lines in
      let running = ap length w.running in
      record {
        counts = λ r. omega (
          arith,
          w.counts r,
          ap (λ l. tally r (map outcome l)) w.lines,
          ap (λ l. tally r (map outcome l)) w.running,
        );
        less = omega (arith, w.size);
        steady = λ h. elim h [
          | inl (c, b, u) ↦ absurd (omega (arith, b, w.size))
          | inr (c, u, b, g) ↦ inr (
            c,
            omega (arith, w.size, w.ups, w.downs),
            omega (arith, w.size, w.workers),
            inl (omega arith),
          )
        ];
      }

  taken_off :
      (r : Pass2Result) (s : Pool) (d : ℕ) (ds : List ℕ)
      → s.lines ≡ d ∷ ds
      → tally r (map outcome s.lines) ≡ once r (outcome d) + tally r (map outcome ds)
  taken_off r s d ds e = ap (λ l. tally r (map outcome l)) e

  in_turn :
      (s t : Pool) (d : ℕ) (ds : List ℕ)
      → s.lines ≡ d ∷ ds
      → leb concurrent 1 ≡ true
      → wait_and_check (s.channel ++ outcome d ∷ []) (record s { lines = ds }) ≡ some t
      → Moved s t
  in_turn s t d ds e one f =
      let s' : Pool = record s { lines = ds } in
      let w = wait-Waited (s.channel ++ outcome d ∷ []) s' t f in
      let lines = ap length w.lines in
      let running = ap length w.running in
      let size = length-append s.channel (outcome d ∷ []) in
      let fewer = ap length e in
      record {
        counts = λ r. omega (
          arith,
          w.counts r,
          same_lines r s ds,
          tally-append r s.channel (outcome d ∷ []),
          taken_off r s d ds e,
          ap (λ l. tally r (map outcome l)) w.lines,
          ap (λ l. tally r (map outcome l)) w.running,
        );
        less = omega (arith, w.size);
        steady = λ h. elim h [
          | inl (c, b, u) ↦ inl (c, omega (arith, w.size), w.ups ∙ u)
          | inr (c, u, b, g) ↦ let clash = sym one ∙ c in cc
        ];
      }
    where
      same_lines :
          (r : Pass2Result) (s : Pool) (ds : List ℕ)
          → counted r (record s { lines = ds }) ≡ counted r s
      same_lines fail s ds = refl
      same_lines ok s ds = refl
      same_lines reuse s ds = refl

  started_counted :
      (r : Pass2Result) (d : ℕ) (ds : List ℕ) (s : Pool)
      → counted r (start_job d ds s) ≡ counted r s
  unfolding start_job
  started_counted fail d ds s = refl
  started_counted ok d ds s = refl
  started_counted reuse d ds s = refl

  worker_counted :
      (r : Pass2Result) (n : ℕ) (s : Pool) → counted r (record s { workers_left = n }) ≡ counted r s
  worker_counted fail n s = refl
  worker_counted ok n s = refl
  worker_counted reuse n s = refl

  start_first :
      (s : Pool) (d : ℕ) (ds : List ℕ)
      → s.lines ≡ d ∷ ds
      → leb concurrent 1 ≡ false
      → 0 < s.workers_left
      → Moved s (record (start_job d ds s) { workers_left = s.workers_left - 1 })
  unfolding start_job
  start_first s d ds e many lt =
      let fewer = ap length e in
      record {
        counts = λ r. omega (
          arith,
          worker_counted r (s.workers_left - 1) (start_job d ds s),
          started_counted r d ds s,
          taken_off r s d ds e,
        );
        less = omega (arith);
        steady = λ h. elim h [
          | inl (c, b, u) ↦ let clash = sym many ∙ c in cc
          | inr (c, u, b, g) ↦
              let full : s.workers_left + busy s ≡ concurrent = elim g [
                | inl z ↦ absurd (omega (arith, z, fewer))
                | inr x ↦ x
              ] in
              inr (c, omega (arith, u), omega (arith, b), inr (omega (arith, full)))
        ];
      }

  start_after :
      (s t : Pool) (d : ℕ) (ds : List ℕ)
      → s.lines ≡ d ∷ ds
      → leb concurrent 1 ≡ false
      → wait_and_check s.channel s ≡ some t
      → Moved s (start_job d ds t)
  unfolding start_job
  start_after s t d ds e many f =
      let w = wait-Waited s.channel s t f in
      let fewer = ap length e in
      let running = ap length w.running in
      record {
        counts = λ r. omega (
          arith,
          w.counts r,
          started_counted r d ds t,
          taken_off r s d ds e,
          ap (λ l. tally r (map outcome l)) w.running,
        );
        less = omega (arith, w.size);
        steady = λ h. elim h [
          | inl (c, b, u) ↦ let clash = sym many ∙ c in cc
          | inr (c, u, b, g) ↦
              let full : s.workers_left + busy s ≡ concurrent = elim g [
                | inl z ↦ absurd (omega (arith, z, fewer))
                | inr x ↦ x
              ] in
              inr (
                c,
                omega (arith, u, w.size, w.ups, w.downs),
                omega (arith, b, w.size, w.workers),
                inr (omega (arith, full, w.size, w.workers)),
              )
        ];
      }

  sent :
      (s : Pool) (before : List ℕ) (d : ℕ) (behind : List ℕ)
      → s.running ≡ before ++ d ∷ behind
      → Moved s (record s { running = before ++ behind; channel = s.channel ++ outcome d ∷ [] })
  sent s before d behind e =
      let size = length-append s.channel (outcome d ∷ []) in
      let jobs = ap length e ∙ length-append before (d ∷ behind) in
      let jobs' = length-append before behind in
      record {
        counts = λ r.
            omega (arith, tally-append r s.channel (outcome d ∷ []), mapped r, mapped' r, same r);
        less = omega (arith, size, jobs, jobs');
        steady = λ h. elim h [
          | inl (c, b, u) ↦ absurd (omega (arith, b, jobs))
          | inr (c, u, b, g) ↦ inr (
            c,
            omega (arith, u, size, jobs, jobs'),
            omega (arith, b, size, jobs, jobs'),
            elim g [ inl z ↦ inl z | inr x ↦ inr (omega (arith, x, size, jobs, jobs')) ],
          )
        ];
      }
    where
      mapped :
          (r : Pass2Result)
          → tally r (map outcome s.running)
            ≡ tally r (map outcome before) + (once r (outcome d) + tally r (map outcome behind))
      mapped r =
          ap (λ l. tally r (map outcome l)) e
          ∙ ap (tally r) (map-append outcome before (d ∷ behind))
          ∙ tally-append r (map outcome before) (map outcome (d ∷ behind))

      mapped' :
          (r : Pass2Result)
          → tally r (map outcome (before ++ behind))
            ≡ tally r (map outcome before) + tally r (map outcome behind)
      mapped' r =
          ap (tally r) (map-append outcome before behind)
          ∙ tally-append r (map outcome before) (map outcome behind)

      same :
          (r : Pass2Result)
          → counted r
              (record s { running = before ++ behind; channel = s.channel ++ outcome d ∷ [] })
            ≡ counted r s
      same fail = refl
      same ok = refl
      same reuse = refl

  start_next-Moved :
      (s t : Pool) (d : ℕ) (ds : List ℕ) (o : Option Pool)
      → s.lines ≡ d ∷ ds
      → leb concurrent 1 ≡ false
      → wait_and_check s.channel s ≡ o
      → start_next d ds o ≡ some t
      → Moved s t
  unfolding start_next
  start_next-Moved s t d ds none e many f g = cc
  start_next-Moved s t d ds (some u) e many f g =
      subst (Moved s) (some-injective (start_job d ds u) t g) (start_after s u d ds e many f)

  main_at-Moved :
      (ls : List ℕ) (s t : Pool)
      → s.lines ≡ ls
      → main_at concurrent outcome ls s ≡ some t
      → Moved s t
  unfolding main_at process
  main_at-Moved [] s t e f = elim (Bool-cases (ltb s.downs s.ups)) [
    | inl lt ↦ drain s t e (ground arith) (sym (rw lt refl) ∙ f)
    | inr ge ↦ let g : none ≡ some t = sym (rw ge refl) ∙ f in cc
  ]
  main_at-Moved (d ∷ ds) s t e f = elim (Bool-cases (leb concurrent 1)) [
    | inl one ↦ elim (Bool-cases (ltb (length s.channel) concurrent)) [
      | inl lt ↦ in_turn s t d ds e one (sym (rw (one, lt) refl) ∙ f)
      | inr ge ↦ let g : none ≡ some t = sym (rw (one, ge) refl) ∙ f in cc
    ]
    | inr many ↦ elim (Bool-cases (ltb 0 s.workers_left)) [
      | inl lt ↦
          subst (Moved s)
            (some-injective (record (start_job d ds s) { workers_left = s.workers_left - 1 }) t
              (sym (rw (many, lt) refl) ∙ f))
            (start_first s d ds e many (ground arith))
      | inr ge ↦
          start_next-Moved s t d ds (wait_and_check s.channel s) e many refl
            (sym (rw (many, ge) refl) ∙ f)
    ]
  ]

  pub Step-Moved : {s t : Pool} → Step concurrent outcome s t → Moved s t
  unfolding main_step
  Step-Moved (main s t e) = main_at-Moved s.lines s t refl e
  Step-Moved (job s before d behind e lt) = sent s before d behind e
