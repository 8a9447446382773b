-- ===== src/Env/Invariant.antt =====
-- The invariant of the buses of an environment: the jobs can be sent on the bus they stand on, and no two
-- buses have jobs of one name.
pub mod Ticks
pub mod Jobs
pub mod Requests
use agent_sim.Base.{
  ◌<◌, ◌≡◌, refl, sym, subst, ◌∙◌, inl, inr, Bool, true, false, none, some, List, [], ◌∷◌,
  Bool-cases, All, ok, ◌>>=◌, ◌>>◌, Text,
}
use agent_sim.Base.Map.{
  text_order, get, insert, remove, contains_key, get-insert, get-cons, Above, IsSorted,
}
use agent_sim.Can.{SimCanFrame, validate_frame}
use agent_sim.Env.World.{World}
use agent_sim.Env.Schedule.{CanScheduleJob}
use agent_sim.Env.Bus.{EnvCanBusState, values, with_values, map_values, each_bus}
use agent_sim.Env.State.{EnvState}

-- A job stands under its own name, its frame can be sent on the bus, and it has a period.
abbrev pub IsJob : Text → Bool → Text × CanScheduleJob → Type 0
IsJob bus_name fd_capable e =
    (e.1.job_id ≡ e.0)
    × (validate_frame bus_name fd_capable e.1.frame ≡ ok tt)
    × (0 < e.1.every_ticks)

module _ {W : World} where
  abbrev pub IsBus : EnvCanBusState W → Type 0
  IsBus bus = All (IsJob bus.bus_name bus.fd_capable) bus.schedules

  abbrev pub Has : Text → EnvCanBusState W → Type 0
  Has job_id bus = contains_key job_id bus.schedules ≡ true

  pub record IsEnv (buses : List (Text × EnvCanBusState W)) : Type 0 where
    pub sorted : IsSorted buses
    pub jobs : (name : Text) (bus : EnvCanBusState W) → get name buses ≡ some bus → IsBus bus
    pub once :
        (n m : Text) (a b : EnvCanBusState W) (job_id : Text)
        → get n buses ≡ some a
        → get m buses ≡ some b
        → Has job_id a
        → Has job_id b
        → n ≡ m

  -- What a change of a bus may do: it adds no job and spoils none.
  pub record Keeps (before after : EnvCanBusState W) : Type 0 where
    pub ids : (job_id : Text) → Has job_id after → Has job_id before
    pub jobs : IsBus before → IsBus after

  pub Keeps-refl : (bus : EnvCanBusState W) → Keeps bus bus
  Keeps-refl bus = record { ids = λ _ h. h; jobs = λ h. h }

  pub Keeps-trans : (a b c : EnvCanBusState W) → Keeps a b → Keeps b c → Keeps a c
  Keeps-trans a b c h k = record { ids = λ i p. h.ids i (k.ids i p); jobs = λ p. k.jobs (h.jobs p) }

  -- Every bus of a list comes from one of another that it keeps.
  pub KeepsAll : List (Text × EnvCanBusState W) → List (Text × EnvCanBusState W) → Type 0
  KeepsAll before after =
      (name : Text) (b : EnvCanBusState W)
      → get name after ≡ some b
      → (a : EnvCanBusState W) × (get name before ≡ some a) × Keeps a b

  pub IsEnv-KeepsAll :
      (before after : List (Text × EnvCanBusState W))
      → KeepsAll before after
      → (IsSorted before → IsSorted after)
      → IsEnv before
      → IsEnv after
  unfolding KeepsAll
  IsEnv-KeepsAll before after k order h = record {
    sorted = order h.sorted;
    jobs = λ name b at. let (a, old, keeps) = k name b at in keeps.jobs (h.jobs name a old);
    once = λ n m a b job_id at_n at_m has_a has_b.
        let (x, old_n, keeps_x) = k n a at_n in
        let (y, old_m, keeps_y) = k m b at_m in
        h.once n m x y job_id old_n old_m (keeps_x.ids job_id has_a) (keeps_y.ids job_id has_b);
  }

  KeepsAll-refl : (buses : List (Text × EnvCanBusState W)) → KeepsAll buses buses
  unfolding KeepsAll
  KeepsAll-refl buses name b at = (b, at, Keeps-refl b)

  pub KeepsAll-insert :
      (buses : List (Text × EnvCanBusState W)) (name : Text) (before after : EnvCanBusState W)
      → get name buses ≡ some before
      → Keeps before after
      → KeepsAll buses (insert name after buses)
  unfolding KeepsAll
  KeepsAll-insert buses name before after at k n b found =
      elim (get-insert name n after buses b found) [
        | inl (same, e) ↦ (before, rw⁻¹ same at, subst (λ x. Keeps before x) e k)
        | inr old ↦ (b, old, Keeps-refl b)
      ]

  KeepsAll-cons :
      (name : Text) (a b : EnvCanBusState W) (before after : List (Text × EnvCanBusState W))
      → Keeps a b
      → KeepsAll before after
      → KeepsAll ((name, a) ∷ before) ((name, b) ∷ after)
  unfolding KeepsAll
  KeepsAll-cons name a b before after k rest n x at =
      elim (get-cons {V = EnvCanBusState W} n name) [
        | inl first ↦
            let same : b ≡ x = (let e = sym (first b after) ∙ at in cc) in
            (a, first a before, subst (λ y. Keeps a y) same k)
        | inr later ↦
            let (y, found, keeps) = rest n x (sym (later b after) ∙ at) in
            (y, later a before ∙ found, keeps)
      ]

  pub KeepsAll-map_values :
      (f : EnvCanBusState W → EnvCanBusState W)
      → ((bus : EnvCanBusState W) → Keeps bus (f bus))
      → (buses : List (Text × EnvCanBusState W)) → KeepsAll buses (map_values f buses)
  KeepsAll-map_values f k [] = KeepsAll-refl []
  KeepsAll-map_values f k ((name, bus) ∷ buses) =
      KeepsAll-cons name bus (f bus) buses (map_values f buses) (k bus)
        (KeepsAll-map_values f k buses)

  pub KeepsAll-each_bus :
      (body : EnvCanBusState W → Bool × EnvCanBusState W)
      → ((bus : EnvCanBusState W) → Keeps bus (body bus).1)
      → (buses : List (Text × EnvCanBusState W)) → KeepsAll buses (each_bus body buses).1
  KeepsAll-each_bus body k [] = KeepsAll-refl []
  KeepsAll-each_bus body k ((name, bus) ∷ buses) = elim (Bool-cases (body bus).0) [
    | inl went ↦ rw went (
        KeepsAll-cons name bus (body bus).1 buses (each_bus body buses).1 (k bus)
          (KeepsAll-each_bus body k buses))
    | inr left ↦
        rw left (KeepsAll-cons name bus (body bus).1 buses buses (k bus) (KeepsAll-refl buses))
  ]

  Above-map_values :
      (f : EnvCanBusState W → EnvCanBusState W) (k : Text) (buses : List (Text × EnvCanBusState W))
      → Above k buses
      → Above k (map_values f buses)
  Above-map_values f k [] a = tt
  Above-map_values f k ((name, bus) ∷ buses) a = (a.0, Above-map_values f k buses a.1)

  pub map_values-IsSorted :
      (f : EnvCanBusState W → EnvCanBusState W) (buses : List (Text × EnvCanBusState W))
      → IsSorted buses
      → IsSorted (map_values f buses)
  map_values-IsSorted f [] s = tt
  map_values-IsSorted f ((name, bus) ∷ buses) s =
      (Above-map_values f name buses s.0, map_values-IsSorted f buses s.1)

  Above-each_bus :
      (body : EnvCanBusState W → Bool × EnvCanBusState W) (k : Text)
      (buses : List (Text × EnvCanBusState W))
      → Above k buses
      → Above k (each_bus body buses).1
  Above-each_bus body k [] a = tt
  Above-each_bus body k ((name, bus) ∷ buses) a = elim (Bool-cases (body bus).0) [
    | inl went ↦ rw went (a.0, Above-each_bus body k buses a.1)
    | inr left ↦ rw left a
  ]

  pub each_bus-IsSorted :
      (body : EnvCanBusState W → Bool × EnvCanBusState W) (buses : List (Text × EnvCanBusState W))
      → IsSorted buses
      → IsSorted (each_bus body buses).1
  each_bus-IsSorted body [] s = tt
  each_bus-IsSorted body ((name, bus) ∷ buses) s = elim (Bool-cases (body bus).0) [
    | inl went ↦ rw went (Above-each_bus body name buses s.0, each_bus-IsSorted body buses s.1)
    | inr left ↦ rw left s
  ]

  -- Buses without jobs, as an environment starts with.
  abbrev pub Idle : List (Text × EnvCanBusState W) → Type 0
  Idle [] = Unit
  Idle ((name, bus) ∷ buses) = (bus.schedules ≡ []) × Idle buses

  Idle-get :
      (name : Text) (bus : EnvCanBusState W) (buses : List (Text × EnvCanBusState W))
      → Idle buses
      → get name buses ≡ some bus
      → bus.schedules ≡ []
  Idle-get name bus [] idle at = absurd (cc)
  Idle-get name bus ((n, b) ∷ buses) idle at = elim (get-cons {V = EnvCanBusState W} name n) [
    | inl first ↦
        let same : b ≡ bus = (let k = sym (first b buses) ∙ at in cc) in
        subst (λ (x : EnvCanBusState W). x.schedules ≡ []) same idle.0
    | inr later ↦ Idle-get name bus buses idle.1 (sym (later b buses) ∙ at)
  ]

  pub Idle-IsEnv :
      (buses : List (Text × EnvCanBusState W)) → IsSorted buses → Idle buses → IsEnv buses
  Idle-IsEnv buses sorted idle = record {
    sorted = sorted;
    jobs = λ name bus at.
        let e = Idle-get name bus buses idle at in
        subst (λ m. All (IsJob bus.bus_name bus.fd_capable) m) (sym e) tt;
    once = λ n m a b job_id at_n at_m has_a has_b. absurd (
        let e = Idle-get n a buses idle at_n in
        let k : contains_key job_id a.schedules ≡ false = rw e refl in cc);
  }
