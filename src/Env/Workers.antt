-- ===== src/Env/Workers.antt =====
-- runtime/src/envd/server/dispatch.rs and runtime/src/envd/server/tick.rs: requests to the workers of all
-- instances, and the reading of signals through them.
use agent_sim.Base.{
  ℕ, suc, not, Option, none, some, List, [], ◌∷◌, ◌++◌, ◌==◌, length, set, replicate, Result, ok,
  err, ◌>>=◌, ◌>>◌, reject, and_then, guarded, Text,
}
use agent_sim.Base.Map.{text_order, get, insert}
use agent_sim.Sim.Types.{SignalValue}
use agent_sim.Env.World.{
  World, WorkerRequest, read_signals, WorkerSignalValueData, WorkerReply, ack, worker_signal_values,
}
use agent_sim.Env.State.{
  EnvState, EnvError, worker_missing, reply_missing, unexpected_payload, missing_value, value_count,
  value_id,
}

-- `validate_worker_signal_values`, the loop over the pairs.
abbrev check_ids : Text → ℕ → List ℕ → List WorkerSignalValueData → Result (Unit {0}) EnvError
check_ids instance_name idx [] values = ok tt
check_ids instance_name idx (id ∷ ids) [] = ok tt
check_ids instance_name idx (id ∷ ids) (v ∷ vs) = do
  reject (not (id == v.signal_id)) (value_id instance_name idx id v.signal_id)
  check_ids instance_name (suc idx) ids vs

unfoldable pub validate_worker_signal_values :
    Text → List ℕ → List WorkerSignalValueData → Result (Unit {0}) EnvError
validate_worker_signal_values instance_name requested_ids values = do
  reject (not (length values == length requested_ids))
      (value_count instance_name (length values) (length requested_ids))
  check_ids instance_name 0 requested_ids values

-- The places and the local ids of the signals of each instance.
abbrev pub old_items : Option (List (ℕ × ℕ)) → List (ℕ × ℕ)
old_items none = []
old_items (some items) = items

unfoldable pub group_by_instance :
    ℕ → List (Text × ℕ) → List (Text × List (ℕ × ℕ)) → List (Text × List (ℕ × ℕ))
group_by_instance index [] grouped = grouped
group_by_instance index ((instance_name, local_id) ∷ signals) grouped =
    group_by_instance (suc index) signals (
      insert instance_name (old_items (get instance_name grouped) ++ (index, local_id) ∷ [])
        grouped)

abbrev pub ids_of : List (ℕ × ℕ) → List ℕ
ids_of [] = []
ids_of ((index, id) ∷ items) = id ∷ ids_of items

unfoldable pub place_values :
    List (ℕ × ℕ)
    → List WorkerSignalValueData
    → List (Option SignalValue)
    → List (Option SignalValue)
place_values [] vs out = out
place_values (item ∷ items) [] out = out
place_values ((index, id) ∷ items) (v ∷ vs) out =
    place_values items vs (set out index (some v.signal_value))

unfoldable pub all_values : List (Option SignalValue) → Result (List SignalValue) EnvError
all_values [] = ok []
all_values (none ∷ vs) = err missing_value
all_values (some v ∷ vs) = all_values vs >>= λ rest. ok (v ∷ rest)

-- The payload of a reply.
abbrev pub values_of : Text → Option WorkerReply → Result (List WorkerSignalValueData) EnvError
values_of instance_name none = err (reply_missing instance_name)
values_of instance_name (some (worker_signal_values vs)) = ok vs
values_of instance_name (some _) = err (unexpected_payload instance_name)

abbrev pub ack_of : Text → Option WorkerReply → Result (Unit {0}) EnvError
ack_of instance_name none = err (reply_missing instance_name)
ack_of instance_name (some ack) = ok tt
ack_of instance_name (some _) = err (unexpected_payload instance_name)

module _ {W : World} where
  abbrev pub with_workers : W.Workers → EnvState W → EnvState W
  with_workers workers state = record state { instance_workers = workers }

  unfoldable pub begin_one :
      WorkerRequest → Text → EnvState W → Result (Unit {0}) EnvError × EnvState W
  begin_one request instance_name state =
      elim (W.begin_request instance_name request state.instance_workers) [
        | none ↦ (err (worker_missing instance_name), state)
        | some workers ↦ (ok tt, with_workers workers state)
      ]

  unfoldable pub await_one : Text → EnvState W → Option WorkerReply × EnvState W
  await_one instance_name state =
      let (reply, workers) = W.await_reply instance_name state.instance_workers in
      (reply, with_workers workers state)

  -- Every worker has its request before the first reply is awaited.
  unfoldable pub begin_all :
      WorkerRequest → List Text → EnvState W → Result (Unit {0}) EnvError × EnvState W
  begin_all request [] state = (ok tt, state)
  begin_all request (i ∷ is) state =
      and_then (begin_one request i state) (λ _ next. begin_all request is next)

  unfoldable pub await_acks : List Text → EnvState W → Result (Unit {0}) EnvError × EnvState W
  await_acks [] state = (ok tt, state)
  await_acks (i ∷ is) state =
      let (reply, next) = await_one i state in
      guarded (ack_of i reply) next (λ _. await_acks is next)

  unfoldable pub ask_all : WorkerRequest → EnvState W → Result (Unit {0}) EnvError × EnvState W
  ask_all request state =
      and_then (begin_all request state.instances state) (λ _ next. await_acks state.instances next)

  -- The request for one instance, and its values at their places.
  abbrev pub read_group :
      Text
      → List (ℕ × ℕ)
      → List (Option SignalValue)
      → EnvState W
      → Result (List (Option SignalValue)) EnvError × EnvState W
  read_group instance_name items out state =
      and_then (begin_one (read_signals (ids_of items)) instance_name state) (λ _ sent.
        let (reply, next) = await_one instance_name sent in
        guarded (values_of instance_name reply) next (λ vs.
          guarded (validate_worker_signal_values instance_name (ids_of items) vs) next
            (λ _. (ok (place_values items vs out), next))))

  unfoldable pub read_groups :
      List (Text × List (ℕ × ℕ))
      → List (Option SignalValue)
      → EnvState W
      → Result (List (Option SignalValue)) EnvError × EnvState W
  read_groups [] out state = (ok out, state)
  read_groups ((instance_name, items) ∷ groups) out state =
      and_then (read_group instance_name items out state)
        (λ filled next. read_groups groups filled next)

  -- `read_env_trace_values`, and the part of `read_env_signal_values` behind the selectors.
  unfoldable pub read_values :
      List (Text × ℕ) → EnvState W → Result (List SignalValue) EnvError × EnvState W
  read_values signals state =
      and_then
        (read_groups (group_by_instance 0 signals []) (replicate (length signals) none) state)
        (λ filled next. (all_values filled, next))
