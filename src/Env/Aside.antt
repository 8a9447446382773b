-- ===== src/Env/Aside.antt =====
-- What the requests to the workers and the trace leave alone: all of an environment but its workers and
-- its trace.
pub mod Traced
use agent_sim.Base.{
  ℕ, ◌≡◌, refl, ap, inl, inr, none, List, [], ◌∷◌, Option-cases, length, replicate, and_then-keeps,
  guarded-keeps, Text,
}
use agent_sim.Sim.Time.{TimeEngine}
use agent_sim.Env.World.{World, WorkerRequest, read_signals}
use agent_sim.Env.State.{EnvState, EnvTraceState, EnvError}
use agent_sim.Env.Workers.{
  with_workers, begin_one, await_one, begin_all, await_acks, ask_all, read_group, read_groups,
  read_values, ids_of, ack_of, values_of, validate_worker_signal_values, place_values,
  group_by_instance, all_values,
}
use agent_sim.Env.Tracing.{
  sample_env_trace_after_tick, start_env_trace, stop_env_trace, clear_env_trace, with_trace,
}

module _ {W : World} where
  pub Aside : EnvState W → EnvState W → Type 0
  Aside s t =
      (workers : W.Workers) × (trace : EnvTraceState) × (t
        ≡ (record s { instance_workers = workers; trace = trace }))

  pub Aside-refl : (s : EnvState W) → Aside s s
  unfolding Aside
  Aside-refl s = (s.instance_workers, s.trace, refl)

  pub Aside-trace :
      (s t : EnvState W) (trace : EnvTraceState) → Aside s t → Aside s (with_trace trace t)
  unfolding Aside
  Aside-trace s t trace (workers, old, e) = (workers, trace, ap (with_trace trace) e)

  Aside-workers :
      (s t : EnvState W) (workers : W.Workers) → Aside s t → Aside s (with_workers workers t)
  unfolding Aside
  Aside-workers s t workers (old, trace, e) = (workers, trace, ap (with_workers workers) e)

  pub Aside-buses : (s t : EnvState W) → Aside s t → t.can_buses ≡ s.can_buses
  unfolding Aside
  Aside-buses s t (workers, trace, e) = ap (λ (x : EnvState W). x.can_buses) e

  pub Aside-time :
      (s t : EnvState W)
      → Aside s t
      → (t.time ≡ s.time)
        × (t.shutdown ≡ s.shutdown)
        × (t.realtime_tick_backlog ≡ s.realtime_tick_backlog)
  unfolding Aside
  Aside-time s t (workers, trace, e) = (
    ap (λ (x : EnvState W). x.time) e,
    ap (λ (x : EnvState W). x.shutdown) e,
    ap (λ (x : EnvState W). x.realtime_tick_backlog) e,
  )

  module _ (s : EnvState W) where
    begin_one-Aside :
        (request : WorkerRequest) (i : Text) (t : EnvState W)
        → Aside s t
        → Aside s (begin_one request i t).1
    unfolding begin_one
    begin_one-Aside request i t h =
        elim (Option-cases (W.begin_request i request t.instance_workers)) [
          | inl missing ↦ rw (missing, begin_one) h
          | inr (workers, went) ↦ rw (went, begin_one) (Aside-workers s t workers h)
        ]

    await_one-Aside : (i : Text) (t : EnvState W) → Aside s t → Aside s (await_one i t).1
    unfolding await_one
    await_one-Aside i t h = Aside-workers s t (W.await_reply i t.instance_workers).1 h

    begin_all-Aside :
        (request : WorkerRequest) (is : List Text) (t : EnvState W)
        → Aside s t
        → Aside s (begin_all request is t).1
    unfolding begin_all
    begin_all-Aside request [] t h = h
    begin_all-Aside request (i ∷ is) t h =
        and_then-keeps (Aside s) (begin_one request i t) _ (begin_one-Aside request i t h)
          (λ _ u k. begin_all-Aside request is u k)

    await_acks-Aside : (is : List Text) (t : EnvState W) → Aside s t → Aside s (await_acks is t).1
    unfolding await_acks
    await_acks-Aside [] t h = h
    await_acks-Aside (i ∷ is) t h =
        let k = await_one-Aside i t h in
        guarded-keeps (Aside s) (ack_of i (await_one i t).0) (await_one i t).1 _ k
          (λ _ _. await_acks-Aside is (await_one i t).1 k)

    pub ask_all-Aside :
        (request : WorkerRequest) (t : EnvState W) → Aside s t → Aside s (ask_all request t).1
    unfolding ask_all
    ask_all-Aside request t h =
        and_then-keeps (Aside s) (begin_all request t.instances t) _
          (begin_all-Aside request t.instances t h) (λ _ u k. await_acks-Aside t.instances u k)

    read_group-Aside :
        (i : Text) (items : List (ℕ × ℕ)) (out : _) (t : EnvState W)
        → Aside s t
        → Aside s (read_group i items out t).1
    read_group-Aside i items out t h =
        and_then-keeps (Aside s) (begin_one (read_signals (ids_of items)) i t) _
          (begin_one-Aside (read_signals (ids_of items)) i t h)
          (λ _ u k.
            let n = await_one-Aside i u k in
            guarded-keeps (Aside s) (values_of i (await_one i u).0) (await_one i u).1 _ n (λ vs _.
              guarded-keeps (Aside s) (validate_worker_signal_values i (ids_of items) vs)
                (await_one i u).1 _ n (λ _ _. n)))

    read_groups-Aside :
        (groups : List (Text × List (ℕ × ℕ))) (out : _) (t : EnvState W)
        → Aside s t
        → Aside s (read_groups groups out t).1
    unfolding read_groups
    read_groups-Aside [] out t h = h
    read_groups-Aside ((i, items) ∷ groups) out t h =
        and_then-keeps (Aside s) (read_group i items out t) _ (read_group-Aside i items out t h)
          (λ filled u k. read_groups-Aside groups filled u k)

    pub read_values-Aside :
        (signals : List (Text × ℕ)) (t : EnvState W) → Aside s t → Aside s (read_values signals t).1
    unfolding read_values
    read_values-Aside signals t h =
        and_then-keeps (Aside s)
          (read_groups (group_by_instance 0 signals []) (replicate (length signals) none) t) _
          (read_groups-Aside _ _ t h) (λ _ u k. k)
