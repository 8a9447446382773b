-- ===== src/Env/Invariant/Ticks.antt =====
-- The loops over the buses keep the invariant, and with them a tick.
use agent_sim.Base.{
  ℕ, zero, suc, ◌≡◌, refl, sym, subst, ◌∙◌, inl, inr, Bool, Option, none, some, List, [], ◌∷◌,
  arith, Bool-cases, Option-cases, All, and_then-keeps, Text,
}
use agent_sim.Base.Map.{text_order, contains_key}
use agent_sim.Can.{SimCanFrame}
use agent_sim.Env.World.{World, step_instance}
use agent_sim.Env.Schedule.{CanScheduleJob, Sent, send_due, is_due, postpone, reset_schedule}
use agent_sim.Env.Bus.{
  EnvCanBusState, values, with_values, map_values, record_env_frame, record_all, observe_bus,
  tick_bus, reset_bus, each_bus, received, sent_on_bus,
}
use agent_sim.Env.State.{EnvState, observe_env_bus_frames, reset_env_can_state}
use agent_sim.Env.Workers.{ask_all}
use agent_sim.Env.Tracing.{sample_env_trace_after_tick}
use agent_sim.Env.Tick.{current_tick, send_due_frames, advance_single_tick, advance_due_ticks}
use agent_sim.Sim.Time.{saturating_add}
use agent_sim.Env.Aside.{Aside, Aside-refl, Aside-buses, ask_all-Aside}
use agent_sim.Env.Aside.Traced.{sample_env_trace_after_tick-Aside}
use agent_sim.Env.Invariant.{
  IsJob, IsEnv, Keeps, Keeps-refl, Keeps-trans, IsEnv-KeepsAll, KeepsAll-map_values,
  KeepsAll-each_bus, map_values-IsSorted, each_bus-IsSorted,
}

-- Jobs with the parts that the invariant speaks of.
abbrev pub Same : CanScheduleJob → CanScheduleJob → Type 0
Same a b = (b.job_id ≡ a.job_id) × (b.frame ≡ a.frame) × (b.every_ticks ≡ a.every_ticks)

abbrev SameAll : List CanScheduleJob → List CanScheduleJob → Type 0
SameAll [] [] = Unit
SameAll (a ∷ olds) (b ∷ bs) = Same a b × SameAll olds bs
SameAll _ _ = ⊥

SameAll-refl : (jobs : List CanScheduleJob) → SameAll jobs jobs
SameAll-refl [] = tt
SameAll-refl (j ∷ js) = ((refl, refl, refl), SameAll-refl js)

send_due-SameAll :
    {S : Type 0} (send : S → SimCanFrame → Option S) (tick : ℕ) (socket : S)
    (jobs : List CanScheduleJob)
    → SameAll jobs (send_due send tick socket jobs).jobs
unfolding send_due postpone
send_due-SameAll send tick socket [] = tt
send_due-SameAll send tick socket (job ∷ jobs) = elim (Bool-cases (is_due tick job)) [
  | inr early ↦ rw (early, send_due) ((refl, refl, refl), send_due-SameAll send tick socket jobs)
  | inl due ↦ elim (Option-cases (send socket job.frame)) [
    | inl full ↦ rw (due, send_due, full) ((refl, refl, refl), SameAll-refl jobs)
    | inr (next, went) ↦
        rw (due, send_due, went) ((refl, refl, refl), send_due-SameAll send tick next jobs)
  ]
]

contains_key-with_values :
    (id : Text) (m : List (Text × CanScheduleJob)) (jobs : List CanScheduleJob)
    → contains_key id (with_values m jobs) ≡ contains_key id m
contains_key-with_values id [] jobs = refl
contains_key-with_values id ((k, j) ∷ m) [] = refl
contains_key-with_values id ((k, j) ∷ m) (b ∷ bs) = ground (arith, contains_key-with_values id m bs)

contains_key-map_values :
    (id : Text) (f : CanScheduleJob → CanScheduleJob) (m : List (Text × CanScheduleJob))
    → contains_key id (map_values f m) ≡ contains_key id m
contains_key-map_values id f [] = refl
contains_key-map_values id f ((k, j) ∷ m) = ground (arith, contains_key-map_values id f m)

pub IsJob-Same :
    (name : Text) (fd : Bool) (k : Text) (a b : CanScheduleJob)
    → Same a b
    → IsJob name fd (k, a)
    → IsJob name fd (k, b)
IsJob-Same name fd k a b s h = (s.0 ∙ h.0, rw s.1 h.1, omega (arith, s.2, h.2))

IsJob-with_values :
    (name : Text) (fd : Bool) (m : List (Text × CanScheduleJob)) (jobs : List CanScheduleJob)
    → SameAll (values m) jobs
    → All (IsJob name fd) m
    → All (IsJob name fd) (with_values m jobs)
IsJob-with_values name fd [] jobs s h = tt
IsJob-with_values name fd ((k, j) ∷ m) [] s h = h
IsJob-with_values name fd ((k, j) ∷ m) (b ∷ bs) s h =
    (IsJob-Same name fd k j b s.0 h.0, IsJob-with_values name fd m bs s.1 h.1)

IsJob-map_values :
    (name : Text) (fd : Bool) (f : CanScheduleJob → CanScheduleJob)
    → ((j : CanScheduleJob) → Same j (f j))
    → (m : List (Text × CanScheduleJob)) → All (IsJob name fd) m
    → All (IsJob name fd) (map_values f m)
IsJob-map_values name fd f s [] h = tt
IsJob-map_values name fd f s ((k, j) ∷ m) h =
    (IsJob-Same name fd k j (f j) (s j) h.0, IsJob-map_values name fd f s m h.1)

module _ {W : World} where
  record_env_frame-Keeps :
      (f : SimCanFrame) (bus : EnvCanBusState W) → Keeps bus (record_env_frame f bus)
  unfolding record_env_frame
  record_env_frame-Keeps f bus = record { ids = λ _ h. h; jobs = λ h. h }

  record_all-Keeps :
      (fs : List SimCanFrame) (bus : EnvCanBusState W) → Keeps bus (record_all fs bus)
  record_all-Keeps [] bus = Keeps-refl bus
  record_all-Keeps (f ∷ fs) bus =
      Keeps-trans bus (record_env_frame f bus) (record_all fs (record_env_frame f bus))
        (record_env_frame-Keeps f bus) (record_all-Keeps fs (record_env_frame f bus))

  with_socket-Keeps :
      (bus : EnvCanBusState W) (socket : W.Socket) → Keeps bus (record bus { socket = socket })
  with_socket-Keeps bus socket = record { ids = λ _ h. h; jobs = λ h. h }

  observe_bus-Keeps : (bus : EnvCanBusState W) → Keeps bus (observe_bus bus).1
  unfolding observe_bus
  observe_bus-Keeps bus = received_Keeps (W.recv_all bus.socket)
    where
      received_Keeps : (r : Option (List SimCanFrame) × W.Socket) → Keeps bus (received bus r).1
      received_Keeps (none, socket) = with_socket-Keeps bus socket
      received_Keeps (some frames, socket) =
          Keeps-trans bus (record bus { socket = socket }) _ (with_socket-Keeps bus socket)
            (record_all-Keeps frames (record bus { socket = socket }))

  sent_on_bus-Keeps :
      (bus : EnvCanBusState W) (s : Sent W.Socket)
      → SameAll (values bus.schedules) s.jobs
      → Keeps bus (sent_on_bus bus s)
  sent_on_bus-Keeps bus s same = record {
    ids = λ id h. sym (contains_key-with_values id bus.schedules s.jobs) ∙ h;
    jobs = λ h. IsJob-with_values bus.bus_name bus.fd_capable bus.schedules s.jobs same h;
  }

  tick_bus-Keeps : (tick : ℕ) (bus : EnvCanBusState W) → Keeps bus (tick_bus tick bus).1
  unfolding tick_bus
  tick_bus-Keeps tick bus =
      let s = send_due W.send tick bus.socket (values bus.schedules) in
      let k =
        sent_on_bus-Keeps bus s (send_due-SameAll W.send tick bus.socket (values bus.schedules)) in
      elim (Bool-cases s.finished) [
        | inl all ↦ rw all (
            Keeps-trans bus (sent_on_bus bus s) (record_all s.emitted (sent_on_bus bus s)) k
              (record_all-Keeps s.emitted (sent_on_bus bus s)))
        | inr broken ↦ rw broken k
      ]

  reset_bus-Keeps : (bus : EnvCanBusState W) → Keeps bus (reset_bus bus)
  unfolding reset_bus reset_schedule
  reset_bus-Keeps bus = record {
    ids = λ id h. sym (contains_key-map_values id reset_schedule bus.schedules) ∙ h;
    jobs = λ h.
        IsJob-map_values bus.bus_name bus.fd_capable reset_schedule (λ j. (refl, refl, refl))
          bus.schedules h;
  }

  -- The invariant of the state.
  abbrev pub Holds : EnvState W → Type 0
  Holds state = IsEnv state.can_buses

  observe_env_bus_frames-Holds :
      (state : EnvState W) → Holds state → Holds (observe_env_bus_frames state).1
  unfolding observe_env_bus_frames
  observe_env_bus_frames-Holds state h =
      IsEnv-KeepsAll state.can_buses (each_bus observe_bus state.can_buses).1
        (KeepsAll-each_bus observe_bus observe_bus-Keeps state.can_buses)
        (each_bus-IsSorted observe_bus state.can_buses) h

  send_due_frames-Holds :
      (tick : ℕ) (state : EnvState W) → Holds state → Holds (send_due_frames tick state).1
  send_due_frames-Holds tick state h =
      IsEnv-KeepsAll state.can_buses (each_bus (tick_bus tick) state.can_buses).1
        (KeepsAll-each_bus (tick_bus tick) (tick_bus-Keeps tick) state.can_buses)
        (each_bus-IsSorted (tick_bus tick) state.can_buses) h

  pub reset_env_can_state-Holds :
      (state : EnvState W) → Holds state → Holds (reset_env_can_state state)
  unfolding reset_env_can_state
  reset_env_can_state-Holds state h =
      IsEnv-KeepsAll state.can_buses (map_values reset_bus state.can_buses)
        (KeepsAll-map_values reset_bus reset_bus-Keeps state.can_buses)
        (map_values-IsSorted reset_bus state.can_buses) h

  pub Holds-Aside : (s t : EnvState W) → Aside s t → Holds s → Holds t
  Holds-Aside s t a h = subst IsEnv (sym (Aside-buses s t a)) h

  advance_single_tick-Holds :
      (state : EnvState W) → Holds state → Holds (advance_single_tick state).1
  unfolding advance_single_tick
  advance_single_tick-Holds state h =
      let now = current_tick state in
      and_then-keeps Holds (observe_env_bus_frames state) _ (observe_env_bus_frames-Holds state h)
        (λ _ observed h1.
          and_then-keeps Holds (send_due_frames now observed) _
            (send_due_frames-Holds now observed h1)
            (λ _ emitted h2.
              and_then-keeps Holds (ask_all step_instance emitted) _
                (Holds-Aside emitted _
                  (ask_all-Aside emitted step_instance emitted (Aside-refl emitted)) h2)
                (λ _ stepped h3.
                  and_then-keeps Holds (observe_env_bus_frames stepped) _
                    (observe_env_bus_frames-Holds stepped h3)
                    (λ _ settled h4.
                      and_then-keeps Holds
                        (sample_env_trace_after_tick (saturating_add now 1) settled) _
                        (Holds-Aside settled _
                          (sample_env_trace_after_tick-Aside settled (saturating_add now 1) settled
                            (Aside-refl settled))
                          h4)
                        (λ _ sampled h5. h5)))))

  pub advance_due_ticks-Holds :
      (n : ℕ) (state : EnvState W) → Holds state → Holds (advance_due_ticks n state).1
  unfolding advance_due_ticks
  advance_due_ticks-Holds zero state h = h
  advance_due_ticks-Holds (suc n) state h = elim (Bool-cases state.shutdown) [
    | inl down ↦ rw (down, advance_due_ticks) h
    | inr up ↦
        rw (up, advance_due_ticks)
          (and_then-keeps Holds (advance_single_tick state) _ (advance_single_tick-Holds state h)
            (λ _ next k. advance_due_ticks-Holds n next k))
  ]
