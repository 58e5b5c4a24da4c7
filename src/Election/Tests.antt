-- ===== src/Election/Tests.antt =====
-- A pod that gains the lease, loses it, gains it again and is shut down, where tasks also end by
-- themselves.
use mojave.Base.{
  ℕ, suc, ◌+◌, ◌-◌, ◌≡◌, refl, Bool, true, false, List, [], ◌∷◌, none, Result, ok, err, eqb,
  if◌then◌else◌, Bool-cases, inl, inr, ◌⊎◌, ◌≢◌, arith,
}
use mojave.Election.{shutdown_signal, tick, Pod, run_with_k8s_coordination}
use mojave.Election.Leader.{Crew}
use mojave.Election.Leader.Alive.{Signals}
use mojave.Election.Tasks.{Lives, IsSingle, run_with_k8s_coordination-IsSingle}

-- The world is the coming answers of the lease, the number of tasks started, and the live ones.
abbrev Cluster : Type 0
Cluster = List Bool × (ℕ × List ℕ)

abbrev without : ℕ → List ℕ → List ℕ
without n [] = []
without n (m ∷ ms) = let rest = without n ms in if eqb m n then rest else m ∷ rest

-- Without the lease, every task ends by itself.
abbrev answer : Cluster → Result ℕ Bool × Cluster
answer ([], w) = (err 0, ([], w))
answer (true ∷ bs, w) = (ok true, (bs, w))
answer (false ∷ bs, w) = (ok false, (bs, (w.0, [])))

abbrev toy : Pod
toy = record {
  F = ℕ;
  World = Cluster;
  LeaderEpoch = ℕ;
  try_acquire_or_renew = answer;
  spawn_leader_task = λ w. (w.1.0, (w.0, (suc w.1.0, w.1.0 ∷ w.1.1)));
  cancel_and_wait = λ e w. (w.0, (w.1.0, without e w.1.1));
  step_down = λ w. w;
}

abbrev In : ℕ → List ℕ → Type 0
In n [] = ⊥
In n (m ∷ ms) = (n ≡ m) ⊎ In n ms

without-In : (n m : ℕ) (ms : List ℕ) → In n (without m ms) → In n ms × (n ≢ m)
without-In n m [] h = absurd h
without-In n m (k ∷ ms) h = elim (Bool-cases (eqb k m)) [
  | inl same ↦ let (there, other) = without-In n m ms (rw same at h) in (inr there, other)
  | inr differ ↦ elim (rw differ at h) [
    | inl e ↦ (inl e, λ s. ground (arith, e, s, differ))
    | inr later ↦ let (there, other) = without-In n m ms later in (inr there, other)
  ]
]

answer-In : (n : ℕ) (w : Cluster) → In n (answer w).1.1.1 → In n w.1.1
answer-In n ([], w) h = h
answer-In n (true ∷ bs, w) h = h
answer-In n (false ∷ bs, w) h = absurd h

abbrev living : Lives toy
living = record {
  alive = λ e w. In e w.1.1;
  spawns = λ e w h. h;
  waits = λ e f w. without-In e f w.1.1;
  leaves = λ e w h. h;
  tries = answer-In;
}

run_with_k8s_coordination-IsSingle_example : IsSingle toy living (
    run_with_k8s_coordination toy
      (tick ∷ tick ∷ tick ∷ shutdown_signal ∷ [])
      (true ∷ false ∷ true ∷ true ∷ [], (0, [])))
run_with_k8s_coordination-IsSingle_example =
    run_with_k8s_coordination-IsSingle toy living (tick ∷ tick ∷ tick ∷ shutdown_signal ∷ [])
      (true ∷ false ∷ true ∷ true ∷ [], (0, [])) (λ e h. h)

-- The world is the number of tasks that were not told to stop; the block producer cannot be shut down.
abbrev crew : Crew
crew = record {
  F = ℕ;
  World = ℕ;
  Batch = ℕ;
  Block = ℕ;
  Coordinator = ℕ;
  Proof = ℕ;
  Addr = ℕ;
  Health = ℕ;
  get_batch_number = λ w. (ok none, w);
  new_coordinator = ok 0;
  spawn_batch = λ n k w. (0, w + 1);
  spawn_block = λ n k w. (0, w + 1);
  spawn_proof = λ c w. (0, w + 1);
  get_http_socket_addr = λ addr port w. (ok 0, w);
  spawn_health_probe = λ addr w. (ok 0, w);
  shutdown_batch = λ b w. (ok tt, w - 1);
  shutdown_block = λ b w. (err 7, w - 1);
  shutdown_proof = λ p w. (ok tt, w - 1);
  await_health = λ h w. (ok tt, w);
  drop_batch = λ b w. w - 1;
  drop_block = λ b w. w - 1;
  drop_proof = λ p w. w - 1;
  cancelled = λ w. w;
  store_node_config = λ w. w;
}

abbrev signals : Signals crew
signals = record {
  alive = λ w. w;
  spawns_batch = λ n k w. refl;
  spawns_block = λ n k w. refl;
  spawns_proof = λ c w. refl;
  stops_batch = λ b w. refl;
  stops_block = λ b w. refl;
  stops_proof = λ p w. refl;
  drops_batch = λ b w. refl;
  drops_block = λ b w. refl;
  drops_proof = λ p w. refl;
  reads_number = λ w. refl;
  resolves = λ addr port w. refl;
  probes = λ addr w. refl;
  awaits = λ health w. refl;
  waits = λ w. refl;
}
