-- ===== src/Utils/Daemon/Stopped.antt =====
-- How long a stop waits, and when it kills.
use mojave.Base.{
  ℕ, zero, suc, ◌+◌, ◌*◌, ◌≤◌, ◌<◌, ◌≡◌, ◌⊎◌, refl, String, true, false, Bool-cases, inl, inr, ok,
  ltb, arith,
}
use mojave.Base.Programs.{and_then, ◌>>=◌}
use mojave.Utils.Daemon.{
  Host, resolve_path, read_pid_from_file, await_end, kill_if_running, stop_daemonized,
}

module _ (host : Host) where
  open host use {F, World, is_running, kill, interrupt, remove_file, sleep_millis, elapsed}

  -- the world after so many sleeps of 100 ms
  unfoldable pub slept : ℕ → World → World
  slept zero w = w
  slept (suc n) w = slept n (sleep_millis 100 w)

  -- After this many sleeps the process still runs and its time is not out, in every round before.
  abbrev pub WaitsFor : ℕ → ℕ → World → Type 0
  WaitsFor pid n w =
      (m : ℕ) → m < n → (is_running pid (slept m w) ≡ true) × (elapsed (slept m w) < 5)

  -- A wait ends in the first round in which the process has ended or its five seconds are out.
  abbrev pub EndsAt : ℕ → ℕ → World → Type 0
  EndsAt pid n w =
      WaitsFor pid n w × ((is_running pid (slept n w) ≡ false) ⊎ (5 ≤ elapsed (slept n w)))

  -- A process that has ended by then is not killed; one that still runs is killed just once.
  abbrev pub Killed : ℕ → World → World → Type 0
  Killed pid w w' =
      ((is_running pid w ≡ false) × (w' ≡ w)) ⊎ ((is_running pid w ≡ true) × (w' ≡ (kill pid w).1))

  kill_if_running-Killed : (pid : ℕ) (w : World) → Killed pid w (kill_if_running host pid w)
  unfolding kill_if_running
  kill_if_running-Killed pid w = ground arith

  later-WaitsFor :
      (pid n : ℕ) (w : World)
      → is_running pid w ≡ true
      → elapsed w < 5
      → WaitsFor pid n (sleep_millis 100 w)
      → WaitsFor pid (suc n) w
  unfolding slept
  later-WaitsFor pid n w runs early h zero lt = (runs, early)
  later-WaitsFor pid n w runs early h (suc m) lt = h m (omega arith)

  EndsBy : ℕ → ℕ → ℕ → World → Type 0
  EndsBy fuel last pid w =
      (n : ℕ) × (n ≤ last) × EndsAt pid n w × (await_end host fuel pid w ≡ slept n w)

  none-WaitsFor : (pid : ℕ) (w : World) → WaitsFor pid 0 w
  none-WaitsFor pid w m lt = absurd (omega arith)

  -- Some round within the fuel has the time out.
  await_end-EndsBy :
      (fuel last pid : ℕ) (w : World)
      → last < fuel
      → 5 ≤ elapsed (slept last w)
      → EndsBy fuel last pid w
  unfolding EndsBy await_end slept
  await_end-EndsBy zero last pid w h out = absurd (omega arith)
  await_end-EndsBy (suc fuel) zero pid w h out =
      (0, omega arith, (none-WaitsFor pid w, inr out), ground arith)
  await_end-EndsBy (suc fuel) (suc last) pid w h out = elim (Bool-cases (ltb (elapsed w) 5)) [
    | inr late ↦ (0, omega arith, (none-WaitsFor pid w, inr (ground arith)), rw late refl)
    | inl early ↦ elim (Bool-cases (is_running pid w)) [
      | inr ended ↦ (0, omega arith, (none-WaitsFor pid w, inl ended), rw (early, ended) refl)
      | inl runs ↦
          let (n, le, (waits, ends), e) =
            await_end-EndsBy fuel last pid (sleep_millis 100 w) (omega arith) out in
          (
            suc n,
            omega arith,
            (later-WaitsFor pid n w runs (ground arith) waits, ends),
            rw (early, runs) e,
          )
    ]
  ]

  -- A sleep of 100 ms takes that long at least: ten of them are a second.
  abbrev pub Ticks : Type 0
  Ticks = (n pid : ℕ) (w : World) → n < 10 * elapsed (slept n (interrupt pid w)) + 10

  -- Where sleeping takes the time asked for: once the pid file names a running process, the process
  -- is signalled and waited for until it has ended or its five seconds are out, in at most 50 rounds.
  -- A process that has ended by then is not killed, one that still runs is killed, whether killing it
  -- works or not, and then the pid file is removed.
  pub stop_daemonized-stops :
      Ticks
      → (fuel pid : ℕ) (pid_file path : String) (w w1 w2 : World) → 50 < fuel
      → resolve_path host pid_file w ≡ (ok path, w1)
      → read_pid_from_file host path w1 ≡ (ok pid, w2)
      → is_running pid w2 ≡ true
      → (n : ℕ) × (n ≤ 50)
        × EndsAt pid n (interrupt pid w2)
        × ((w' : World) × Killed pid (slept n (interrupt pid w2)) w'
            × (stop_daemonized host fuel pid_file w ≡ (ok tt, remove_file path w')))
  unfolding stop_daemonized ◌>>=◌ and_then EndsBy
  stop_daemonized-stops ticks fuel pid pid_file path w w1 w2 h e k runs =
      let t = ticks 50 pid w2 in
      let (n, le, ends, waited) = await_end-EndsBy fuel 50 pid (interrupt pid w2) h (omega arith) in
      (
        n,
        le,
        ends,
        (
          kill_if_running host pid (slept n (interrupt pid w2)),
          kill_if_running-Killed pid (slept n (interrupt pid w2)),
          rw (e, k, runs, waited) refl,
        ),
      )
