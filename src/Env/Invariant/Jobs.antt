-- ===== src/Env/Invariant/Jobs.antt =====
-- The changes of the buses and their jobs that requests make, under the invariant.
use agent_sim.Base.{
  ℕ, ◌≡◌, refl, sym, ap, subst, ◌∙◌, ◌⊎◌, inl, inr, Bool, true, false, Option, none, some, List, [],
  ◌∷◌, arith, Option-cases, All, Result, ok, err, ok_or, map_err, >>=-eq-ok, ok_injective, Text,
}
use agent_sim.Base.Map.{
  text_order, get, insert, remove, contains_key, get-insert, get-cons, get-Above, Above, IsSorted,
  insert-IsSorted,
}
use agent_sim.Can.{SimCanFrame, validate_frame, parse_data_hex}
use agent_sim.Env.World.{World}
use agent_sim.Env.Schedule.{CanScheduleJob}
use agent_sim.Env.Bus.{EnvCanBusState, record_env_frame, after_send, send_on_bus}
use agent_sim.Env.State.{
  EnvState, Located, bus_not_found, socket_failed, schedule_not_found, bad_frame,
  validate_env_frame, frame_of, parse_env_frame, send_env_frame, located, find_schedule,
  locate_schedule, any_schedule, with_bus,
}
use agent_sim.Env.Dispatch.{put_job, with_schedules}
use agent_sim.Env.Invariant.{IsJob, IsBus, Has, Keeps, IsEnv-KeepsAll, KeepsAll-insert}
use agent_sim.Env.Invariant.Ticks.{Holds}

-- Jobs under changes of a map.
IsJob-insert :
    (name : Text) (fd : Bool) (k : Text) (j : CanScheduleJob) (m : List (Text × CanScheduleJob))
    → IsJob name fd (k, j)
    → All (IsJob name fd) m
    → All (IsJob name fd) (insert k j m)
IsJob-insert name fd k j [] p h = (p, tt)
IsJob-insert name fd k j ((i, a) ∷ m) p h = ground (arith, IsJob-insert name fd k j m p h.1)

IsJob-remove :
    (name : Text) (fd : Bool) (k : Text) (m : List (Text × CanScheduleJob))
    → All (IsJob name fd) m
    → All (IsJob name fd) (remove k m)
IsJob-remove name fd k [] h = tt
IsJob-remove name fd k ((i, a) ∷ m) h = ground (arith, IsJob-remove name fd k m h.1)

IsJob-get :
    (name : Text) (fd : Bool) (k : Text) (j : CanScheduleJob) (m : List (Text × CanScheduleJob))
    → All (IsJob name fd) m
    → get k m ≡ some j
    → IsJob name fd (k, j)
IsJob-get name fd k j [] h at = absurd (cc)
IsJob-get name fd k j ((i, a) ∷ m) h at =
    ground (arith, IsJob-get name fd k j m h.1, text_order.cmp_eq k i)

contains_key-remove :
    (id k : Text) (m : List (Text × CanScheduleJob))
    → contains_key id (remove k m) ≡ true
    → contains_key id m ≡ true
contains_key-remove id k [] h = h
contains_key-remove id k ((i, a) ∷ m) h = ground (arith, contains_key-remove id k m)

-- A key behind an insertion is the new one, or was there.
contains_key-insert :
    (id k : Text) (j : CanScheduleJob) (m : List (Text × CanScheduleJob))
    → contains_key id (insert k j m) ≡ true
    → (k ≡ id) ⊎ (contains_key id m ≡ true)
contains_key-insert id k j m h = elim (Option-cases (get id (insert k j m))) [
  | inl missing ↦ absurd (ground arith)
  | inr (v, found) ↦ elim (get-insert k id j m v found) [
    | inl (same, _) ↦ inl same
    | inr old ↦ inr (ground arith)
  ]
]

pub ok_or-eq_ok {ℓ κ} :
    {A : Type ℓ} {E : Type κ} (o : Option A) (e : E) {a : A} → ok_or o e ≡ ok a → o ≡ some a
ok_or-eq_ok none e h = absurd (cc)
ok_or-eq_ok (some b) e h = ap some (ok_injective h)

pub map_err-eq_ok {ℓ κ μ} :
    {A : Type ℓ} {E : Type κ} {F : Type μ} (f : E → F) (r : Result A E) {a : A}
    → map_err f r ≡ ok a
    → r ≡ ok a
map_err-eq_ok f (ok b) h = ap ok (ok_injective h)
map_err-eq_ok f (err e) h = absurd (cc)

module _ {W : World} where
  -- A change of one bus.
  pub with_bus-Holds :
      (state : EnvState W) (name : Text) (before after : EnvCanBusState W)
      → get name state.can_buses ≡ some before
      → Keeps before after
      → Holds state
      → Holds (with_bus name after state)
  with_bus-Holds state name before after at k h =
      IsEnv-KeepsAll state.can_buses (insert name after state.can_buses)
        (KeepsAll-insert state.can_buses name before after at k)
        (insert-IsSorted name after state.can_buses) h

  after_send-Keeps :
      (frame : SimCanFrame) (bus after : EnvCanBusState W) (r : Option W.Socket)
      → after_send frame bus r ≡ some after
      → Keeps bus after
  unfolding record_env_frame
  after_send-Keeps frame bus after none h = absurd (cc)
  after_send-Keeps frame bus after (some socket) h =
      let e : record_env_frame frame (record bus { socket = socket }) ≡ after = cc in
      subst (λ x. Keeps bus x) e (record { ids = λ _ p. p; jobs = λ p. p })

  pub send_env_frame-Holds :
      (state : EnvState W) (bus_name : Text) (frame : SimCanFrame) (next : EnvState W)
      → send_env_frame state bus_name frame ≡ ok next
      → Holds state
      → Holds next
  unfolding send_env_frame send_on_bus
  send_env_frame-Holds state bus_name frame next e h =
      let (bus, found, e1) =
        >>=-eq-ok (ok_or (get bus_name state.can_buses) (bus_not_found bus_name)) _ e in
      let (after, went, last) = >>=-eq-ok (ok_or (send_on_bus frame bus) socket_failed) _ e1 in
      let at = ok_or-eq_ok (get bus_name state.can_buses) (bus_not_found bus_name) found in
      let k =
        after_send-Keeps frame bus after _
          (ok_or-eq_ok (send_on_bus frame bus) socket_failed went) in
      rw⁻¹ (ok_injective last) (with_bus-Holds state bus_name bus after at k h)

  -- Where a job that is found stands.
  pub record Found (job_id : Text) (buses : List (Text × EnvCanBusState W)) (l : Located W)
      : Type 0 where
    pub on_bus : get l.place buses ≡ some l.bus
    pub in_jobs : get job_id l.bus.schedules ≡ some l.job

  Found-later :
      (job_id name : Text) (bus : EnvCanBusState W) (buses : List (Text × EnvCanBusState W))
      (l : Located W)
      → Above name buses
      → Found job_id buses l
      → Found job_id ((name, bus) ∷ buses) l
  Found-later job_id name bus buses l a f = elim (get-cons {V = EnvCanBusState W} l.place name) [
    | inr later ↦ record { on_bus = later bus buses ∙ f.on_bus; in_jobs = f.in_jobs }
    | inl first ↦ record {
      on_bus = ground (arith, get-Above name buses a, text_order.cmp_eq l.place name, f.on_bus);
      in_jobs = f.in_jobs;
    }
  ]

  located-Found :
      (job_id name : Text) (bus : EnvCanBusState W) (buses : List (Text × EnvCanBusState W))
      (l : Located W) (found : Option CanScheduleJob)
      → Above name buses
      → get job_id bus.schedules ≡ found
      → (find_schedule job_id buses ≡ some l → Found job_id buses l)
      → located name bus found (find_schedule job_id buses) ≡ some l
      → Found job_id ((name, bus) ∷ buses) l
  located-Found job_id name bus buses l none a g rest e =
      Found-later job_id name bus buses l a (rest e)
  located-Found job_id name bus buses l (some job) a g rest e =
      let first : Found job_id ((name, bus) ∷ buses)
          (record { place = name; bus = bus; job = job }) =
        record { on_bus = ground (arith, text_order.cmp_refl name); in_jobs = g } in
      subst (λ x. Found job_id ((name, bus) ∷ buses) x) (let k = e in cc) first

  pub find_schedule-Found :
      (job_id : Text) (buses : List (Text × EnvCanBusState W)) (l : Located W)
      → IsSorted buses
      → find_schedule job_id buses ≡ some l
      → Found job_id buses l
  unfolding find_schedule
  find_schedule-Found job_id [] l s h = absurd (cc)
  find_schedule-Found job_id ((name, bus) ∷ buses) l s h =
      located-Found job_id name bus buses l (get job_id bus.schedules) s.0 refl
        (find_schedule-Found job_id buses l s.1) h

  -- A job of the found name that can be sent there.
  pub put_job-Holds :
      (state : EnvState W) (job_id : Text) (l : Located W) (job : CanScheduleJob)
      → locate_schedule state job_id ≡ ok l
      → (IsJob l.bus.bus_name l.bus.fd_capable (job_id, l.job)
          → IsJob l.bus.bus_name l.bus.fd_capable (job_id, job))
      → Holds state
      → Holds (put_job state job_id l.place l.bus job)
  put_job-Holds state job_id l job e k h =
      let f =
        find_schedule-Found job_id state.can_buses l h.sorted
          (ok_or-eq_ok (find_schedule job_id state.can_buses) (schedule_not_found job_id) e) in
      with_bus-Holds state l.place l.bus (with_schedules l.bus (insert job_id job l.bus.schedules))
        f.on_bus
        (record {
          ids = λ id has. elim (contains_key-insert id job_id job l.bus.schedules has) [
            | inr old ↦ old
            | inl same ↦ subst (λ i. Has i l.bus) same (let g = f.in_jobs in ground arith)
          ];
          jobs = λ old.
              IsJob-insert l.bus.bus_name l.bus.fd_capable job_id job l.bus.schedules
                (k (
                  IsJob-get l.bus.bus_name l.bus.fd_capable job_id l.job l.bus.schedules old
                    f.in_jobs))
                old;
        })
        h

  pub remove-Holds :
      (state : EnvState W) (job_id : Text) (l : Located W)
      → locate_schedule state job_id ≡ ok l
      → Holds state
      → Holds (with_bus l.place (with_schedules l.bus (remove job_id l.bus.schedules)) state)
  remove-Holds state job_id l e h =
      let f =
        find_schedule-Found job_id state.can_buses l h.sorted
          (ok_or-eq_ok (find_schedule job_id state.can_buses) (schedule_not_found job_id) e) in
      with_bus-Holds state l.place l.bus (with_schedules l.bus (remove job_id l.bus.schedules))
        f.on_bus
        (record {
          ids = λ id has. contains_key-remove id job_id l.bus.schedules has;
          jobs = IsJob-remove l.bus.bus_name l.bus.fd_capable job_id l.bus.schedules;
        })
        h

  -- A frame that was parsed can be sent on the bus of that name.
  pub parse_env_frame-valid :
      (state : EnvState W) (bus_name : Text) (arb_id : ℕ) (data_hex : Text) (flags : ℕ)
      (frame : SimCanFrame) (bus : EnvCanBusState W)
      → parse_env_frame state bus_name arb_id data_hex flags ≡ ok frame
      → get bus_name state.can_buses ≡ some bus
      → validate_frame bus.bus_name bus.fd_capable frame ≡ ok tt
  unfolding parse_env_frame validate_env_frame
  parse_env_frame-valid state bus_name arb_id data_hex flags frame bus e at =
      let (payload, _, e1) = >>=-eq-ok (map_err bad_frame (parse_data_hex data_hex)) _ e in
      let made = frame_of arb_id flags payload in
      let (_, valid, last) = >>=-eq-ok (validate_env_frame state bus_name made) _ e1 in
      let (b, found, v) =
        >>=-eq-ok (ok_or (get bus_name state.can_buses) (bus_not_found bus_name)) _ valid in
      let at_b = ok_or-eq_ok (get bus_name state.can_buses) (bus_not_found bus_name) found in
      let same : b ≡ bus = (let k = sym at_b ∙ at in cc) in
      subst (λ f. validate_frame bus.bus_name bus.fd_capable f ≡ ok tt) (ok_injective last)
        (subst (λ (x : EnvCanBusState W). validate_frame x.bus_name x.fd_capable made ≡ ok tt) same
          (map_err-eq_ok bad_frame (validate_frame b.bus_name b.fd_capable made) v))

  -- No bus has a job of a name that is new.
  pub any_schedule-none :
      (job_id name : Text) (bus : EnvCanBusState W) (buses : List (Text × EnvCanBusState W))
      → any_schedule job_id buses ≡ false
      → get name buses ≡ some bus
      → contains_key job_id bus.schedules ≡ false
  any_schedule-none job_id name bus [] h at = absurd (cc)
  any_schedule-none job_id name bus ((n, b) ∷ buses) h at =
      elim (get-cons {V = EnvCanBusState W} name n) [
        | inl first ↦
            let same : b ≡ bus = (let k = sym (first b buses) ∙ at in cc) in
            subst (λ (x : EnvCanBusState W). contains_key job_id x.schedules ≡ false) same
              (ground arith)
        | inr later ↦
            any_schedule-none job_id name bus buses (ground arith) (sym (later b buses) ∙ at)
      ]

  module _ (state : EnvState W) (id name : Text) (bus : EnvCanBusState W) (job : CanScheduleJob)
      (at : get name state.can_buses ≡ some bus) (new : any_schedule id state.can_buses ≡ false)
      (fits : IsJob bus.bus_name bus.fd_capable (id, job)) (h : Holds state) where
    abbrev pub after : EnvCanBusState W
    after = with_schedules bus (insert id job bus.schedules)

    old_name :
        (m : Text) (b : EnvCanBusState W) (job_id : Text)
        → get m state.can_buses ≡ some b
        → Has job_id after
        → Has job_id b
        → name ≡ m
    old_name m b job_id at_m has_new has_b =
        elim (contains_key-insert job_id id job bus.schedules has_new) [
          | inr has_bus ↦ h.once name m bus b job_id at at_m has_bus has_b
          | inl same ↦ absurd (
              let k = any_schedule-none id m b state.can_buses new at_m in
              let l : Has id b = rw same has_b in cc)
        ]

    pub add-Holds : Holds (with_bus name after state)
    add-Holds = record {
      sorted = insert-IsSorted name after state.can_buses h.sorted;
      jobs = λ n b found. elim (get-insert name n after state.can_buses b found) [
        | inr old ↦ h.jobs n b old
        | inl (_, e) ↦
            subst (λ x. IsBus x) e
              (IsJob-insert bus.bus_name bus.fd_capable id job bus.schedules fits
                (h.jobs name bus at))
      ];
      once = λ n m a b job_id at_n at_m has_a has_b.
          elim (get-insert name n after state.can_buses a at_n) [
            | inr old_n ↦ elim (get-insert name m after state.can_buses b at_m) [
              | inr old_m ↦ h.once n m a b job_id old_n old_m has_a has_b
              | inl (same, e) ↦
                  sym (old_name n a job_id old_n (subst (λ x. Has job_id x) (sym e) has_b) has_a)
                  ∙ same
            ]
            | inl (same_n, e_n) ↦ elim (get-insert name m after state.can_buses b at_m) [
              | inl (same_m, _) ↦ sym same_n ∙ same_m
              | inr old_m ↦
                  sym same_n
                  ∙ old_name m b job_id old_m (subst (λ x. Has job_id x) (sym e_n) has_a) has_b
            ]
          ];
    }
