-- ===== src/Network/Reach.antt =====
-- The invariant under each operation of `NetworkStore`.
use kc_docker.Shared.{
  ℕ, Bool, ◌||◌, ◌&&◌, not, some, List, [], ◌∷◌, ◌++◌, length, Text, codes, text_eq, ◌≡◌, refl,
  arith, Bool-cases, inl, inr, Option-cases, subst, trim, is_empty,
}
use kc_docker.Shared.Maps.{get}
use kc_docker.Shared.Records.{find_first, any, remove_first, update_first, All-remove_first}
use kc_docker.Shared.Result.{ok, Result-cases}
use kc_docker.Network.Ipam.{NetworkEndpoint, allocate_ip_in_subnet}
use kc_docker.Network.Ipam.Laws.{allocate_ip_in_subnet-IsAllocated}
use kc_docker.Network.Store.{
  NetworkRecord, NetworkStoreData, CreateOptions, has_name, default_record, default_network_name,
  new_record, updated, ensure_default_network, create_with_options, update, remove_with_force,
  matches_query, matches_name, all_name_chars,
}
use kc_docker.Network.Endpoints.{
  endpoint_of, attach, detach, key_to_remove, connect_to, connect_container, disconnect_container,
}
use kc_docker.Network.Members.{AreMembers-nil, AreMembers-insert, AreMembers-remove}
use kc_docker.Network.Invariant.{
  Step, ensured, created, changed, removed, connected, disconnected, Reach, start, after, IsSound,
  IsValid, IsValid-snoc, IsValid-update_first, UniqueNames-remove_first,
}

ensure_default_network-IsValid :
    (s : NetworkStoreData) (now : ℕ) → IsValid s → IsValid (ensure_default_network now s)
unfolding ensure_default_network
ensure_default_network-IsValid s now v = elim (Bool-cases (any (has_name default_network_name) s)) [
  | inl there ↦ rw there v
  | inr absent ↦ rw absent (
      IsValid-snoc s (default_record now) absent
        (AreMembers-nil (codes "172.28.0.0/16") (codes "172.28.0.1")) v)
]

create_with_options-IsValid :
    (s t : NetworkStoreData) (options : CreateOptions) (id : Text) (now : ℕ) (net : NetworkRecord)
    → create_with_options options id now s ≡ ok (net, t)
    → IsValid s
    → IsValid t
unfolding create_with_options
create_with_options-IsValid s t options id now net e v =
    elim (Bool-cases (is_empty (trim options.name) || not (all_name_chars (trim options.name)))) [
      | inl bad ↦ absurd (ground arith)
      | inr good ↦ elim (Bool-cases (any (has_name (trim options.name)) s)) [
        | inl there ↦ absurd (ground arith)
        | inr absent ↦
            let added = new_record options id now (length s) in
            let same : s ++ added ∷ [] ≡ t = ground arith in
            subst IsValid same
              (IsValid-snoc s added absent (AreMembers-nil added.subnet added.gateway) v)
      ]
    ]

update-IsValid :
    (s t : NetworkStoreData) (query : Text) (dns_add dns_drop label_add label_drop : List Text)
    (net : NetworkRecord)
    → update query dns_add dns_drop label_add label_drop s ≡ ok (net, t)
    → IsValid s
    → IsValid t
unfolding update
update-IsValid s t query dns_add dns_drop label_add label_drop net e v =
    elim (Bool-cases (is_empty (trim query))) [
      | inl bad ↦ absurd (ground arith)
      | inr good ↦ elim (Option-cases (find_first (matches_query (trim query)) s)) [
        | inl missing ↦ absurd (ground arith)
        | inr (found, there) ↦
            let f = updated dns_add dns_drop label_add label_drop in
            let same : update_first (matches_query (trim query)) f s ≡ t = ground arith in
            subst IsValid same (
              IsValid-update_first (matches_query (trim query)) f s found (λ n. refl) there
                (λ sound. sound) v)
      ]
    ]

-- A removal is of the first match, which has no endpoint unless it is forced.
remove_with_force-removes :
    (s t : NetworkStoreData) (query : Text) (force : Bool) (net : NetworkRecord)
    → remove_with_force query force s ≡ ok (net, t)
    → t ≡ remove_first (matches_query (trim query)) s
unfolding remove_with_force
remove_with_force-removes s t query force net e = elim (Bool-cases (is_empty (trim query))) [
  | inl bad ↦ absurd (ground arith)
  | inr good ↦ elim (Bool-cases (text_eq (trim query) default_network_name)) [
    | inl guarded ↦ absurd (ground arith)
    | inr other ↦ elim (Option-cases (find_first (matches_query (trim query)) s)) [
      | inl missing ↦ absurd (ground arith)
      | inr (found, there) ↦ elim (Bool-cases (not force && not (is_empty found.containers))) [
        | inl active ↦ absurd (ground arith)
        | inr free ↦ ground arith
      ]
    ]
  ]
]

remove_with_force-IsValid :
    (s t : NetworkStoreData) (query : Text) (force : Bool) (net : NetworkRecord)
    → remove_with_force query force s ≡ ok (net, t)
    → IsValid s
    → IsValid t
remove_with_force-IsValid s t query force net e v =
    let test = matches_query (trim query) in
    rw (remove_with_force-removes s t query force net e) (record {
      names = UniqueNames-remove_first test s v.names;
      sound = All-remove_first test IsSound s v.sound;
    })

connect_to-IsValid :
    (s t : NetworkStoreData) (network_name id name : Text) (found : NetworkRecord)
    (endpoint : NetworkEndpoint)
    → find_first (matches_name network_name) s ≡ some found
    → connect_to network_name id name s found ≡ ok (endpoint, t)
    → IsValid s
    → IsValid t
unfolding connect_to
connect_to-IsValid s t network_name id name found endpoint there e v =
    elim (Option-cases (get found.containers id)) [
      | inr (old, here) ↦ let same : s ≡ t = ground arith in subst IsValid same v
      | inl absent ↦
          elim (Result-cases (allocate_ip_in_subnet found.subnet found.gateway found.containers)) [
            | inr (problem, failed) ↦ absurd (ground arith)
            | inl (ip, allocated) ↦
                let f = attach id (endpoint_of id name ip) in
                let same : update_first (matches_name network_name) f s ≡ t = ground arith in
                let a =
                  allocate_ip_in_subnet-IsAllocated found.subnet found.gateway found.containers ip
                    allocated in
                subst IsValid same (
                  IsValid-update_first (matches_name network_name) f s found (λ n. refl) there
                    (AreMembers-insert found.subnet found.gateway id name found.containers ip absent
                      a)
                    v)
          ]
    ]

connect_container-IsValid :
    (s t : NetworkStoreData) (network_name id name : Text) (endpoint : NetworkEndpoint)
    → connect_container network_name id name s ≡ ok (endpoint, t)
    → IsValid s
    → IsValid t
unfolding connect_container
connect_container-IsValid s t network_name id name endpoint e v =
    elim (Option-cases (find_first (matches_name network_name) s)) [
      | inl missing ↦ absurd (ground arith)
      | inr (found, there) ↦
          connect_to-IsValid s t network_name id name found endpoint there (ground arith) v
    ]

disconnect_container-IsValid :
    (s t : NetworkStoreData) (network_name id : Text)
    → disconnect_container network_name id s ≡ ok t
    → IsValid s
    → IsValid t
unfolding disconnect_container
disconnect_container-IsValid s t network_name id e v =
    elim (Option-cases (find_first (matches_name network_name) s)) [
      | inl missing ↦ absurd (ground arith)
      | inr (found, there) ↦ elim (Option-cases (key_to_remove id found)) [
        | inl unknown ↦ absurd (ground arith)
        | inr (key, known) ↦
            let same : update_first (matches_name network_name) (detach key) s ≡ t = ground arith in
            subst IsValid same (
              IsValid-update_first (matches_name network_name) (detach key) s found (λ n. refl)
                there (AreMembers-remove found.subnet found.gateway key found.containers) v)
      ]
    ]

pub Step-IsValid : (s t : NetworkStoreData) → Step s t → IsValid s → IsValid t
Step-IsValid _ _ (ensured s now) v = ensure_default_network-IsValid s now v
Step-IsValid _ _ (created s t options id now net e) v =
    create_with_options-IsValid s t options id now net e v
Step-IsValid _ _ (changed s t query a b c d net e) v = update-IsValid s t query a b c d net e v
Step-IsValid _ _ (removed s t query force net e) v =
    remove_with_force-IsValid s t query force net e v
Step-IsValid _ _ (connected s t network_name id name endpoint e) v =
    connect_container-IsValid s t network_name id name endpoint e v
Step-IsValid _ _ (disconnected s t network_name id e) v =
    disconnect_container-IsValid s t network_name id e v

-- In every store that the operations reach, no two networks share a name, and in each network
-- every endpoint has a host address of the subnet, other than the gateway's and other than that
-- of every other endpoint.
pub Reach-IsValid : (s : NetworkStoreData) → Reach s → IsValid s
Reach-IsValid _ start = record { names = tt; sound = tt }
Reach-IsValid _ (after {s} {t} reached step) = Step-IsValid s t step (Reach-IsValid s reached)
