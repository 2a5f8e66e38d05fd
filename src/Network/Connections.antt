-- ===== src/Network/Connections.antt =====
-- `connect_container` and `disconnect_container` one after the other.
use kc_docker.Shared.{
  Bool, true, none, some, [], ◌∷◌, Text, ◌≡◌, refl, arith, Bool-cases, inl, inr, ◌⊎◌, Option-cases,
  ap, text_eq_refl,
}
use kc_docker.Shared.Maps.{get, get-insert}
use kc_docker.Shared.Records.{find_first, update_first, find_first-update_first, test_of_found}
use kc_docker.Shared.Result.{ok, ok_or, Result-cases}
use kc_docker.Network.Ipam.{NetworkEndpoint, allocate_ip_in_subnet}
use kc_docker.Network.Store.{NetworkRecord, NetworkStoreData, matches_name}
use kc_docker.Network.Endpoints.{
  endpoint_of, attach, detach, connect_to, connect_container, disconnect_container,
}
use kc_docker.Network.Members.{insert_absent, remove_last}

get-attach :
    (id : Text) (endpoint : NetworkEndpoint) (net : NetworkRecord)
    → get (attach id endpoint net).containers id ≡ some endpoint
get-attach id endpoint net =
    rw (get-insert id id endpoint net.containers) (rw (text_eq_refl id) refl)

update_first_twice :
    (test : NetworkRecord → Bool) (f g : NetworkRecord → NetworkRecord) (s : NetworkStoreData)
    (found : NetworkRecord)
    → find_first test s ≡ some found
    → test (f found) ≡ true
    → g (f found) ≡ found
    → update_first test g (update_first test f s) ≡ s
update_first_twice test f g [] found e h back = refl
update_first_twice test f g (x ∷ s) found e h back = elim (Bool-cases (test x)) [
  | inl hit ↦ let same : x ≡ found = ground arith in rw hit (rw same (rw h (rw back refl)))
  | inr miss ↦
      rw miss (rw miss (ap (◌∷◌ x) (update_first_twice test f g s found (ground arith) h back)))
]

-- What a successful connection did.
pub record Connected (network_name id name : Text) (s t : NetworkStoreData)
    (endpoint : NetworkEndpoint) : Type 0 where
  pub net : NetworkRecord
  pub found : find_first (matches_name network_name) s ≡ some net
  pub change :
      ((get net.containers id ≡ some endpoint) × (t ≡ s))
      ⊎ ((get net.containers id ≡ none)
          × (t ≡ update_first (matches_name network_name) (attach id endpoint) s))

connect_to-change :
    (network_name id name : Text) (s t : NetworkStoreData) (endpoint : NetworkEndpoint)
    (net : NetworkRecord)
    → connect_to network_name id name s net ≡ ok (endpoint, t)
    → ((get net.containers id ≡ some endpoint) × (t ≡ s))
      ⊎ ((get net.containers id ≡ none)
          × (t ≡ update_first (matches_name network_name) (attach id endpoint) s))
unfolding connect_to
connect_to-change network_name id name s t endpoint net e =
    elim (Option-cases (get net.containers id)) [
      | inr (old, here) ↦ inl (ground arith, ground arith)
      | inl absent ↦
          elim (Result-cases (allocate_ip_in_subnet net.subnet net.gateway net.containers)) [
            | inr (problem, failed) ↦ absurd (ground arith)
            | inl (ip, allocated) ↦
                let new : endpoint_of id name ip ≡ endpoint = ground arith in
                inr (absent, rw (← new) (ground arith))
          ]
    ]

connect_container-Connected :
    (network_name id name : Text) (s t : NetworkStoreData) (endpoint : NetworkEndpoint)
    → connect_container network_name id name s ≡ ok (endpoint, t)
    → Connected network_name id name s t endpoint
unfolding connect_container
connect_container-Connected network_name id name s t endpoint e =
    elim (Option-cases (find_first (matches_name network_name) s)) [
      | inl missing ↦ absurd (ground arith)
      | inr (net, there) ↦ record {
        net = net;
        found = there;
        change = connect_to-change network_name id name s t endpoint net (ground arith);
      }
    ]

-- A network that has the container hands out the endpoint it has and changes nothing.
connect_container_there :
    (network_name id name : Text) (s : NetworkStoreData) (endpoint : NetworkEndpoint)
    (net : NetworkRecord)
    → find_first (matches_name network_name) s ≡ some net
    → get net.containers id ≡ some endpoint
    → connect_container network_name id name s ≡ ok (endpoint, s)
unfolding connect_container connect_to
connect_container_there network_name id name s endpoint net found there =
    rw (found, ok_or) (rw (there, connect_to) refl)

found_after :
    (network_name id : Text) (s : NetworkStoreData) (endpoint : NetworkEndpoint)
    (net : NetworkRecord)
    → find_first (matches_name network_name) s ≡ some net
    → find_first
        (matches_name network_name)
        (update_first (matches_name network_name) (attach id endpoint) s)
      ≡ some (attach id endpoint net)
found_after network_name id s endpoint net found =
    find_first-update_first (matches_name network_name) (attach id endpoint) s net found
      (test_of_found (matches_name network_name) s net found)

-- Connecting once more gives the same endpoint and leaves the store as it is.
pub connect_container_idem :
    (network_name id name again : Text) (s t : NetworkStoreData) (endpoint : NetworkEndpoint)
    → connect_container network_name id name s ≡ ok (endpoint, t)
    → connect_container network_name id again t ≡ ok (endpoint, t)
connect_container_idem network_name id name again s t endpoint e =
    let c = connect_container-Connected network_name id name s t endpoint e in
    elim c.change [
      | inl (there, same) ↦
          rw same (connect_container_there network_name id again s endpoint c.net c.found there)
      | inr (absent, new) ↦ rw new (
          connect_container_there network_name id again
            (update_first (matches_name network_name) (attach id endpoint) s) endpoint
            (attach id endpoint c.net) (found_after network_name id s endpoint c.net c.found)
            (get-attach id endpoint c.net))
    ]

disconnect_container_there :
    (network_name id : Text) (s : NetworkStoreData) (endpoint : NetworkEndpoint)
    (net : NetworkRecord)
    → find_first (matches_name network_name) s ≡ some net
    → get net.containers id ≡ some endpoint
    → disconnect_container network_name id s
      ≡ ok (update_first (matches_name network_name) (detach id) s)
unfolding disconnect_container
disconnect_container_there network_name id s endpoint net found there =
    rw (found, ok_or) (rw (there, ok_or) refl)

detach-attach :
    (id : Text) (endpoint : NetworkEndpoint) (net : NetworkRecord)
    → get net.containers id ≡ none
    → detach id (attach id endpoint net) ≡ net
detach-attach id endpoint net absent =
    rw (insert_absent id endpoint net.containers absent)
      (rw (remove_last id endpoint net.containers absent) refl)

-- Disconnecting a container that was newly connected gives the store from before, so its address
-- is free again.
pub disconnect-connect_container :
    (network_name id name : Text) (s t : NetworkStoreData) (endpoint : NetworkEndpoint)
    (net : NetworkRecord)
    → find_first (matches_name network_name) s ≡ some net
    → get net.containers id ≡ none
    → connect_container network_name id name s ≡ ok (endpoint, t)
    → disconnect_container network_name id t ≡ ok s
disconnect-connect_container network_name id name s t endpoint net found absent e =
    let c = connect_container-Connected network_name id name s t endpoint e in
    let same : c.net ≡ net = ground (arith, c.found) in
    let test = matches_name network_name in
    elim c.change [
      | inl (there, unchanged) ↦ absurd (ground arith)
      | inr (free, new) ↦ rw new (
          rw
            (disconnect_container_there network_name id (update_first test (attach id endpoint) s)
              endpoint (attach id endpoint c.net)
              (found_after network_name id s endpoint c.net c.found) (get-attach id endpoint c.net))
            (ap ok (
              update_first_twice test (attach id endpoint) (detach id) s c.net c.found
                (test_of_found test s c.net c.found) (detach-attach id endpoint c.net free))))
    ]
