-- ===== src/Runner/Gates.antt =====
-- What must hold before `run_reproduction` of runner.py touches the machine, and what it leaves.
use stepstitch.Prelude.{
  ◌+◌, if◌then◌else◌, ℕ, zero, suc, ◌≤◌, ◌≡◌, refl, Bool, true, false, List, [], ◌∷◌, ◌++◌, arith,
  any, count_if, is_empty, ok,
}
use stepstitch.Prelude.Int.{clamp-le}
use stepstitch.Envelope.{check_envelope}
use stepstitch.Runner.Run.{
  Machine, Request, Effect, probe_browser, spawn, remove_scratch, max_runs, blockers,
  check_address_allowed, run_loop, run_count, run_timeout, envelope_of, full_readiness,
  execute_runs, is_other_script, allowed, run_reproduction,
}

abbrev pub is_spawn : Effect → Bool
is_spawn (spawn _ _) = true
is_spawn _ = false

-- Any effect but the probe, which only asks.
abbrev pub touches : Effect → Bool
touches (probe_browser _) = false
touches _ = true

abbrev pub last_is_removal : List Effect → Bool
last_is_removal [] = false
last_is_removal (remove_scratch ∷ []) = true
last_is_removal (_ ∷ []) = false
last_is_removal (_ ∷ e ∷ es) = last_is_removal (e ∷ es)

module _ (m : Machine) where
  spawns-run_loop : (t n i : ℕ) → count_if is_spawn (run_loop m t n i).1 ≤ n
  unfolding run_loop
  spawns-run_loop t zero i = omega arith
  spawns-run_loop t (suc n) i = ground (arith, spawns-run_loop t n (suc i))

  -- The machine is touched only where the script is the frozen one, the envelope is accepted, no
  -- unready item blocks and the address is allowed.
  pub run_reproduction_gates :
      (q : Request)
      → any touches (run_reproduction m q).1 ≡ true
      → (is_other_script m q.expected_sha256 (m.script_digest q.script) ≡ false)
        × (check_envelope m.digest q.expected_envelope_sha256
              (envelope_of m q)
              q.expected_envelope_record
            ≡ ok tt)
        × (is_empty (blockers (full_readiness m q)) ≡ true)
        × (check_address_allowed m q.base_url (allowed m q) ≡ ok tt)
  unfolding run_reproduction
  run_reproduction_gates q h = ground arith

  spawns_bounded :
      (q : Request)
      → count_if is_spawn (run_reproduction m q).1 ≤ count_if is_spawn (execute_runs m q).1
  unfolding run_reproduction
  spawns_bounded q = ground arith

  count_spawn-append :
      (xs ys : List Effect)
      → count_if is_spawn (xs ++ ys) ≡ count_if is_spawn xs + count_if is_spawn ys
  count_spawn-append [] ys = omega arith
  count_spawn-append (x ∷ xs) ys = ground (arith, count_spawn-append xs ys)

  spawns-execute_runs : (q : Request) → count_if is_spawn (execute_runs m q).1 ≤ run_count m q
  unfolding execute_runs
  spawns-execute_runs q =
      let spawned = (run_loop m (run_timeout m q) (run_count m q) 0).1 in
      let tail : List Effect = if q.screenshots then [] else remove_scratch ∷ [] in
      ground (
        arith,
        spawns-run_loop (run_timeout m q) (run_count m q) 0,
        count_spawn-append spawned tail,
      )

  run_count-le : (q : Request) → run_count m q ≤ max_runs
  run_count-le q = clamp-le 1 max_runs q.runs (omega arith)

  -- However many runs are asked for, at most ten child processes are started.
  pub run_reproduction_spawns :
      (q : Request) → count_if is_spawn (run_reproduction m q).1 ≤ max_runs
  run_reproduction_spawns q = omega (arith, spawns_bounded q, spawns-execute_runs q, run_count-le q)

  last_is_removal-append : (xs : List Effect) → last_is_removal (xs ++ remove_scratch ∷ []) ≡ true
  last_is_removal-append [] = refl
  last_is_removal-append (x ∷ []) = refl
  last_is_removal-append (x ∷ y ∷ xs) = last_is_removal-append (y ∷ xs)

  -- Where no screenshots are kept, a scratch directory that was made is removed last, also when the
  -- launch of a child process failed.
  pub run_reproduction_cleans :
      (q : Request)
      → q.screenshots ≡ false
      → any touches (run_reproduction m q).1 ≡ true
      → last_is_removal (run_reproduction m q).1 ≡ true
  unfolding run_reproduction execute_runs
  run_reproduction_cleans q h t =
      ground (arith, last_is_removal-append (run_loop m (run_timeout m q) (run_count m q) 0).1)
