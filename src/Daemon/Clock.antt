-- ===== src/Daemon/Clock.antt =====
-- The clock of an instance counts the ticks that its project has done, also when a tick fails.
use agent_sim.Base.{
  ℕ, zero, suc, ◌+◌, ◌^◌, ◌≤◌, ◌<◌, ◌≡◌, refl, ap, subst, ◌∙◌, inl, inr, Option, none, some, List,
  [], ◌∷◌, arith, ltb, if◌then◌else◌, Bool-cases, Result, ok, err, map_err, and_then,
  and_then-keeps, guarded-keeps, Text,
}
use agent_sim.Can.{SimCanFrame}
use agent_sim.Sim.Types.{SimSharedSlot}
use agent_sim.Sim.Time.{TimeEngine, advance_ticks, saturating_add, saturating_mul}
use agent_sim.Trace.{write_row}
use agent_sim.Daemon.Device.{Device, IsTickCount}
use agent_sim.Daemon.State.{
  AttachedCanBus, AttachedSharedChannel, DaemonState, DaemonError, ActiveDaemonTrace,
  ReceivedCanFrames, rx_failed, tick_failed, snapshot_failed, values_failed, trace_failed,
}
use agent_sim.Daemon.Buses.{
  recv_can_frames, deliver_updates, with_project, deliver_can_frames, process_can_rx, send_frames,
  Transmitted, transmit_bus, transmit, process_can_tx,
}
use agent_sim.Daemon.Channels.{
  read_slots, read_channel, read_channels, process_shared_rx, write_out, write_channel,
  after_channel, write_channels, process_shared_tx,
}
use agent_sim.Daemon.Tick.{
  TickStepError, pre_tick, post_tick, with_error, now, sample_trace,
  sample_instance_trace_after_tick, tick_project, advance_single_project_tick, count_tick,
  behind_tick, advance_project_ticks,
}

module _ (V : Device) (count : V.Project → ℕ) (c : IsTickCount V count) where
  deliver_updates-count :
      (us : List ReceivedCanFrames) (p q : V.Project)
      → count q ≡ count p
      → count (deliver_updates V us q).1 ≡ count p
  unfolding deliver_updates
  deliver_updates-count [] p q h = h
  deliver_updates-count (u ∷ us) p q h =
      let k = c.rx u.bus_id u.frames q ∙ h in
      guarded-keeps (λ x. count x ≡ count p)
        (map_err (rx_failed u.bus_name) (V.can_rx u.bus_id u.frames q).0) _ _ k
        (λ _ _. deliver_updates-count us p _ k)

  transmit_bus-count :
      (name : Text) (a : AttachedCanBus V) (others : List (Text × AttachedCanBus V))
      (rest : V.Project → Result (Unit {0}) DaemonError × Transmitted V) (p : V.Project)
      (out : Result (List SimCanFrame) Text × V.Project)
      → count out.1 ≡ count p
      → ((q : V.Project) → count (rest q).1.device ≡ count q)
      → count (transmit_bus V name a others rest out).1.device ≡ count p
  transmit_bus-count name a others rest p (err e, q) h k = h
  transmit_bus-count name a others rest p (ok frames, q) h k =
      guarded-keeps (λ (t : Transmitted V). count t.device ≡ count p)
        (send_frames V name a.meta frames a.socket).0 _ _ h (λ _ _. k q ∙ h)

  transmit-count :
      (buses : List (Text × AttachedCanBus V)) (p : V.Project)
      → count (transmit V buses p).1.device ≡ count p
  unfolding transmit
  transmit-count [] p = refl
  transmit-count ((name, a) ∷ others) p =
      transmit_bus-count name a others (transmit V others) p (V.can_tx a.meta.bus_id p)
        (c.tx a.meta.bus_id p) (λ q. transmit-count others q)

  read_slots-count :
      (name : Text) (id : ℕ) (slots : List SimSharedSlot) (p : V.Project)
      → count (read_slots V name id slots p).1 ≡ count p
  read_slots-count name id [] p = refl
  read_slots-count name id (s ∷ ss) p = c.read id (s ∷ ss) p

  read_channel-count :
      (name : Text) (a : AttachedSharedChannel V) (p : V.Project)
      → count (read_channel V name a p).1 ≡ count p
  read_channel-count name a p = elim (Bool-cases a.writer) [
    | inl own ↦ simp own refl
    | inr other ↦ simp other (
        guarded-keeps (λ x. count x ≡ count p)
          (map_err (snapshot_failed name) (V.read_snapshot a.region)) p _ refl
          (λ slots _. read_slots-count name a.meta.channel_id slots p))
  ]

  read_channels-count :
      (channels : List (Text × AttachedSharedChannel V)) (p q : V.Project)
      → count q ≡ count p
      → count (read_channels V channels q).1 ≡ count p
  unfolding read_channels
  read_channels-count [] p q h = h
  read_channels-count ((name, a) ∷ others) p q h =
      and_then-keeps (λ x. count x ≡ count p) (read_channel V name a q) _
        (read_channel-count name a q ∙ h) (λ _ r k. read_channels-count others p r k)

  write_out-count :
      (name : Text) (a : AttachedSharedChannel V)
      (out : Result (List SimSharedSlot) Text × V.Project)
      → count (write_out V name a out).1.1 ≡ count out.1
  write_out-count name a (err e, p) = refl
  write_out-count name a (ok slots, p) = refl

  write_channel-count :
      (name : Text) (a : AttachedSharedChannel V) (p : V.Project)
      → count (write_channel V name a p).1.1 ≡ count p
  write_channel-count name a p = elim (Bool-cases a.writer) [
    | inl own ↦
        simp own (
          write_out-count name a (V.shared_write a.meta.channel_id p) ∙ c.write a.meta.channel_id p)
    | inr other ↦ simp other refl
  ]

  after_channel-count :
      (name : Text) (others : List (Text × AttachedSharedChannel V))
      (rest : V.Project
        → Result (Unit {0}) DaemonError × (List (Text × AttachedSharedChannel V) × V.Project))
      (p : V.Project) (out : Result (Unit {0}) DaemonError × (AttachedSharedChannel V × V.Project))
      → count out.1.1 ≡ count p
      → ((q : V.Project) → count (rest q).1.1 ≡ count q)
      → count (after_channel V name others rest out).1.1 ≡ count p
  after_channel-count name others rest p (err e, (a, q)) h k = h
  after_channel-count name others rest p (ok _, (a, q)) h k = k q ∙ h

  write_channels-count :
      (channels : List (Text × AttachedSharedChannel V)) (p : V.Project)
      → count (write_channels V channels p).1.1 ≡ count p
  unfolding write_channels
  write_channels-count [] p = refl
  write_channels-count ((name, a) ∷ others) p =
      after_channel-count name others (write_channels V others) p (write_channel V name a p)
        (write_channel-count name a p) (λ q. write_channels-count others q)

  -- `n` ticks of the project between two states of the same clock.
  record Ticked (n : ℕ) (s t : DaemonState V) : Type 0 where
    same_time : t.time ≡ s.time
    ticks : count t.project ≡ count s.project + n

  process_can_rx-Ticked :
      (n : ℕ) (s t : DaemonState V) → Ticked n s t → Ticked n s (process_can_rx V t).1
  unfolding process_can_rx deliver_can_frames
  process_can_rx-Ticked n s t h =
      let same : DaemonState V = record t { can_attached = (recv_can_frames V t.can_attached).1 } in
      let k : Ticked n s same = record { same_time = h.same_time; ticks = h.ticks } in
      guarded-keeps (Ticked n s) (recv_can_frames V t.can_attached).0 same _ k (λ us _.
        let d = deliver_updates-count us t.project t.project refl in
        guarded-keeps (Ticked n s) (deliver_updates V us t.project).0 _ _
          (record { same_time = h.same_time; ticks = d ∙ h.ticks })
          (λ _ _. record { same_time = h.same_time; ticks = d ∙ h.ticks }))

  process_can_tx-Ticked :
      (n : ℕ) (s t : DaemonState V) → Ticked n s t → Ticked n s (process_can_tx V t).1
  unfolding process_can_tx
  process_can_tx-Ticked n s t h =
      let d = transmit-count t.can_attached t.project in
      guarded-keeps (Ticked n s) (transmit V t.can_attached t.project).0 _ _
        (record { same_time = h.same_time; ticks = d ∙ h.ticks })
        (λ _ _. record { same_time = h.same_time; ticks = d ∙ h.ticks })

  process_shared_rx-Ticked :
      (n : ℕ) (s t : DaemonState V) → Ticked n s t → Ticked n s (process_shared_rx V t).1
  unfolding process_shared_rx
  process_shared_rx-Ticked n s t h = record {
    same_time = h.same_time;
    ticks = read_channels-count t.shared_attached t.project t.project refl ∙ h.ticks;
  }

  process_shared_tx-Ticked :
      (n : ℕ) (s t : DaemonState V) → Ticked n s t → Ticked n s (process_shared_tx V t).1
  unfolding process_shared_tx
  process_shared_tx-Ticked n s t h = record {
    same_time = h.same_time;
    ticks = write_channels-count t.shared_attached t.project ∙ h.ticks;
  }

  sample_trace-Ticked :
      (n tick : ℕ) (active : Option ActiveDaemonTrace) (s t : DaemonState V)
      → Ticked n s t
      → Ticked n s (sample_trace tick active t).1
  sample_trace-Ticked n tick none s t h = h
  sample_trace-Ticked n tick (some a) s t h = elim (Bool-cases (ltb tick a.next_due_tick)) [
    | inl early ↦ simp early h
    | inr due ↦
        let k : Ticked n s (with_project V t (V.read_many a.signal_ids t.project).1) = record {
          same_time = h.same_time;
          ticks = c.reads a.signal_ids t.project ∙ h.ticks;
        } in
        simp due (
          guarded-keeps (Ticked n s) (map_err values_failed (V.read_many a.signal_ids t.project).0)
            _ _ k
            (λ vs _.
              guarded-keeps (Ticked n s)
                (map_err trace_failed (
                  write_row V.writes V.print_float tick (saturating_mul tick V.tick_duration_us) vs
                    a.writer))
                _ _ k (λ writer _. record { same_time = k.same_time; ticks = k.ticks })))
  ]

  -- What a tick leaves: the error says whether the project has done its tick.
  abbrev StepLaw : DaemonState V → Result (Unit {0}) TickStepError × DaemonState V → Type 0
  StepLaw s (ok _, t) = Ticked 1 s t
  StepLaw s (err e, t) = Ticked (if e.advance_tick then 1 else 0) s t

  before_project :
      (s : DaemonState V) (first : Result (Unit {0}) DaemonError × DaemonState V)
      (next : Unit {0} → DaemonState V → Result (Unit {0}) TickStepError × DaemonState V)
      → Ticked 0 s first.1
      → ((a : Unit {0}) (t : DaemonState V) → Ticked 0 s t → StepLaw s (next a t))
      → StepLaw s (and_then (with_error pre_tick first) next)
  before_project s (err e, t) next h k = h
  before_project s (ok a, t) next h k = k a t h

  behind_project :
      (s : DaemonState V) (first : Result (Unit {0}) DaemonError × DaemonState V)
      (next : Unit {0} → DaemonState V → Result (Unit {0}) TickStepError × DaemonState V)
      → Ticked 1 s first.1
      → ((a : Unit {0}) (t : DaemonState V) → Ticked 1 s t → StepLaw s (next a t))
      → StepLaw s (and_then (with_error post_tick first) next)
  behind_project s (err e, t) next h k = h
  behind_project s (ok a, t) next h k = k a t h

  at_end :
      (s : DaemonState V) (last : Result (Unit {0}) DaemonError × DaemonState V)
      → Ticked 1 s last.1
      → StepLaw s (with_error post_tick last)
  at_end s (err e, t) h = h
  at_end s (ok a, t) h = h

  -- The call of the project itself.
  in_project :
      (s t : DaemonState V) (out : Result (Unit {0}) Text × V.Project)
      (next : Unit {0} → DaemonState V → Result (Unit {0}) TickStepError × DaemonState V)
      → V.tick t.project ≡ out
      → Ticked 0 s t
      → ((a : Unit {0}) (u : DaemonState V) → Ticked 1 s u → StepLaw s (next a u))
      → StepLaw s
          (and_then (with_error pre_tick (map_err tick_failed out.0, with_project V t out.1)) next)
  in_project s t (err e, q) next eq h k = record {
    same_time = h.same_time;
    ticks = c.tick_err t.project q e eq ∙ h.ticks;
  }
  in_project s t (ok a, q) next eq h k =
      k a (with_project V t q) (record {
        same_time = h.same_time;
        ticks = omega (arith, c.tick_ok t.project q eq, h.ticks);
      })

  advance_single_project_tick-StepLaw :
      (s : DaemonState V) → StepLaw s (advance_single_project_tick s)
  unfolding advance_single_project_tick tick_project sample_instance_trace_after_tick
  advance_single_project_tick-StepLaw s =
      before_project s (process_can_rx V s) _
        (process_can_rx-Ticked 0 s s (record { same_time = refl; ticks = omega arith }))
        (λ _ received h1.
          before_project s (process_shared_rx V received) _
            (process_shared_rx-Ticked 0 s received h1)
            (λ _ ready h2. in_project s ready (V.tick ready.project) _ refl h2 (λ _ ticked h3.
              behind_project s
                (sample_trace (saturating_add (now ticked) 1) ticked.trace.active ticked) _
                (sample_trace-Ticked 1 (saturating_add (now ticked) 1) ticked.trace.active s ticked
                  h3)
                (λ _ sampled h4.
                  behind_project s (process_can_tx V sampled) _
                    (process_can_tx-Ticked 1 s sampled h4)
                    (λ _ sent h5.
                      at_end s (process_shared_tx V sent)
                        (process_shared_tx-Ticked 1 s sent h5))))))

  count_tick-elapsed :
      (s t : DaemonState V)
      → Ticked 1 s t
      → s.time.elapsed_ticks + 1 < 2 ^ 64
      → (count_tick t).time.elapsed_ticks ≡ s.time.elapsed_ticks + 1
  unfolding advance_ticks
  count_tick-elapsed s t h small =
      let e : t.time.elapsed_ticks ≡ s.time.elapsed_ticks =
        ap (λ (x : TimeEngine V.D). x.elapsed_ticks) h.same_time in
      omega arith

  -- The clock went on by `n`, or by no more when there was an error, as the project did.
  abbrev pub Counted : ℕ → DaemonState V → Result (Unit {0}) DaemonError × DaemonState V → Type 0
  Counted n s (ok _, t) =
      (t.time.elapsed_ticks ≡ s.time.elapsed_ticks + n) × (count t.project ≡ count s.project + n)
  Counted n s (err e, t) =
      (done : ℕ) × (done ≤ n)
      × (t.time.elapsed_ticks ≡ s.time.elapsed_ticks + done)
      × (count t.project ≡ count s.project + done)

  Counted-later :
      (n : ℕ) (s t : DaemonState V) (out : Result (Unit {0}) DaemonError × DaemonState V)
      → t.time.elapsed_ticks ≡ s.time.elapsed_ticks + 1
      → count t.project ≡ count s.project + 1
      → Counted n t out
      → Counted (suc n) s out
  Counted-later n s t (ok _, u) a b h = (omega (arith, h.0), omega (arith, h.1))
  Counted-later n s t (err e, u) a b (done, few, x, y) =
      (suc done, omega arith, omega arith, omega arith)

  behind_tick-Counted :
      (n : ℕ) (s : DaemonState V)
      (rest : DaemonState V → Result (Unit {0}) DaemonError × DaemonState V)
      (out : Result (Unit {0}) TickStepError × DaemonState V)
      → s.time.elapsed_ticks + 1 < 2 ^ 64
      → StepLaw s out
      → ((t : DaemonState V)
          → t.time.elapsed_ticks ≡ s.time.elapsed_ticks + 1
          → Counted n t (rest t))
      → Counted (suc n) s (behind_tick rest out)
  behind_tick-Counted n s rest (ok _, t) small h k =
      let e = count_tick-elapsed s t h small in
      Counted-later n s (count_tick t) (rest (count_tick t)) e h.ticks (k (count_tick t) e)
  behind_tick-Counted n s rest (err e, t) small h k = elim (Bool-cases e.advance_tick) [
    | inl after ↦
        let l : Ticked 1 s t = subst (λ b. Ticked (if b then 1 else 0) s t) after h in
        simp after (1, omega arith, count_tick-elapsed s t l small, l.ticks)
    | inr before ↦
        let l : Ticked 0 s t = subst (λ b. Ticked (if b then 1 else 0) s t) before h in
        let same : t.time.elapsed_ticks ≡ s.time.elapsed_ticks =
          ap (λ (x : TimeEngine V.D). x.elapsed_ticks) l.same_time in
        simp before (0, omega arith, omega arith, l.ticks)
  ]

  -- When an instance is to do `n` ticks and they stay within 64 bits, then its clock goes on by as many ticks
  -- as its project does: by `n` without an error, and by no more than `n` with one, wherever in a tick the
  -- error comes up.
  pub advance_project_ticks-Counted :
      (n : ℕ) (s : DaemonState V)
      → s.time.elapsed_ticks + n < 2 ^ 64
      → Counted n s (advance_project_ticks n s)
  unfolding advance_project_ticks
  advance_project_ticks-Counted zero s small = (omega arith, omega arith)
  advance_project_ticks-Counted (suc n) s small =
      behind_tick-Counted n s (advance_project_ticks n) (advance_single_project_tick s)
        (omega arith) (advance_single_project_tick-StepLaw s)
        (λ t e. advance_project_ticks-Counted n t (omega arith))
