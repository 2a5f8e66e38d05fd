-- ===== src/Pod/Store.antt =====
-- `PodStore`: looking pods up, creating them, and the changes to one pod. The index lock makes
-- each one step; the clock and the hex digits of `rand_id` are arguments.
use kc_docker.Shared.{
  ℕ, Bool, ◌||◌, Option, none, some, List, [], ◌∷◌, ◌++◌, take, if◌then◌else◌, Text, codes, text_eq,
  starts_with, trim, is_empty,
}
use kc_docker.Shared.Maps.{contains}
use kc_docker.Shared.Records.{find_first, any, update_first}
use kc_docker.Shared.Result.{Result, ok, err, ◌>>=◌, ok_or}
use kc_docker.Network.Ports.{PortMapping}
use kc_docker.Pod.{
  PodConfig, PodRecord, PodStoreData, PodError, name_exists, not_found, default_config,
}

-- `p.id == q || p.id.starts_with(q) || p.name == q`.
abbrev pub matches_query : Text → PodRecord → Bool
matches_query q p = text_eq p.id q || (starts_with p.id q || text_eq p.name q)

-- `p.id.starts_with(q) || p.name == q`.
abbrev pub begins_or_named : Text → PodRecord → Bool
begins_or_named q p = starts_with p.id q || text_eq p.name q

unfoldable pub find : PodStoreData → Text → Option PodRecord
find pods query =
    if is_empty (trim query) then none else find_first (matches_query (trim query)) pods

abbrev pub infra_name : PodRecord → Text
infra_name p = p.name ++ codes "-infra"

abbrev pub generated : Text → Text
generated random = codes "pod-" ++ take 6 random

-- The trimmed name, or a generated one where that is empty or missing.
abbrev pub pod_name : Option Text → Text → Text
pod_name none random = generated random
pod_name (some n) random = if is_empty (trim n) then generated random else trim n

unfoldable pub create_with_config :
    ℕ → Text → PodConfig → PodStoreData → Result PodError (PodRecord × PodStoreData)
create_with_config now random config pods =
    let new_name = pod_name config.name random in
    let pod : PodRecord = record {
      id = take 12 random;
      name = new_name;
      created_at = now;
      status = codes "Created";
      infra_container_id = new_name ++ codes "-infra";
      containers = [];
      ports = config.ports;
      hostname = config.hostname;
      labels = config.labels;
      dns = config.dns;
      memory = config.memory;
      cpus = config.cpus;
      share_ipc = config.share_ipc;
      share_net = config.share_net;
      share_uts = config.share_uts;
      share_pid = config.share_pid;
      network = config.network;
    } in
    if any (λ p. text_eq p.name new_name) pods then err name_exists else ok (pod, pods ++ pod ∷ [])

unfoldable pub create :
    ℕ
    → Text
    → Option Text
    → List PortMapping
    → PodStoreData
    → Result PodError (PodRecord × PodStoreData)
unfolding create_with_config
create now random name ports pods =
    create_with_config now random (record default_config { name = name; ports = ports }) pods

abbrev pub set_infra : Text → PodRecord → PodRecord
set_infra infra_id p = record p { infra_container_id = infra_id }

abbrev pub set_status : Text → PodRecord → PodRecord
set_status status p = record p { status = status }

-- What `add_container_to_pod` does to the pod it finds.
abbrev pub add_member : Text → PodRecord → PodRecord
add_member container_id p =
    if contains p.containers container_id
    then p
    else record p { containers = p.containers ++ container_id ∷ []; status = codes "Running" }

abbrev pub change : (PodRecord → PodRecord) → Text → PodStoreData → Result PodError PodStoreData
change f query pods = do
  _ ← ok_or (find_first (begins_or_named query) pods) not_found
  ok (update_first (begins_or_named query) f pods)

unfoldable pub set_infra_container_id : Text → Text → PodStoreData → Result PodError PodStoreData
set_infra_container_id query infra_id = change (set_infra infra_id) query

unfoldable pub update_status : Text → Text → PodStoreData → Result PodError PodStoreData
update_status query status = change (set_status status) query

unfoldable pub add_container_to_pod : Text → Text → PodStoreData → Result PodError PodStoreData
add_container_to_pod query container_id = change (add_member container_id) query

unfoldable pub member_container_ids : PodRecord → List Text
member_container_ids p =
    if contains p.containers (infra_name p) then p.containers else infra_name p ∷ p.containers
