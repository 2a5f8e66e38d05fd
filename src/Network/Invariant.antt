-- ===== src/Network/Invariant.antt =====
-- The stores that the network operations reach from the empty one, and the invariant on them.
use kc_docker.Shared.{
  ℕ, Bool, false, ◌||◌, some, List, [], ◌∷◌, ◌++◌, Text, ◌≡◌, refl, arith, Bool-cases, inl, inr,
  All, All-append, text_eq_iff,
}
use kc_docker.Shared.Records.{find_first, any, remove_first, update_first, All-update_first}
use kc_docker.Shared.Result.{ok}
use kc_docker.Network.Ipam.{NetworkEndpoint}
use kc_docker.Network.Store.{
  NetworkRecord, NetworkStoreData, CreateOptions, has_name, ensure_default_network,
  create_with_options, update, remove_with_force,
}
use kc_docker.Network.Endpoints.{connect_container, disconnect_container}
use kc_docker.Network.Members.{AreMembers}

-- One operation of `NetworkStore` that succeeds, from stored data to stored data.
pub data Step : NetworkStoreData → NetworkStoreData → Type 0 where
  ensured : (s : NetworkStoreData) (now : ℕ) → Step s (ensure_default_network now s)
  created :
      (s t : NetworkStoreData) (options : CreateOptions) (id : Text) (now : ℕ) (net : NetworkRecord)
      → create_with_options options id now s ≡ ok (net, t)
      → Step s t
  changed :
      (s t : NetworkStoreData) (query : Text) (dns_add dns_drop label_add label_drop : List Text)
      (net : NetworkRecord)
      → update query dns_add dns_drop label_add label_drop s ≡ ok (net, t)
      → Step s t
  removed :
      (s t : NetworkStoreData) (query : Text) (force : Bool) (net : NetworkRecord)
      → remove_with_force query force s ≡ ok (net, t)
      → Step s t
  connected :
      (s t : NetworkStoreData) (network_name id name : Text) (endpoint : NetworkEndpoint)
      → connect_container network_name id name s ≡ ok (endpoint, t)
      → Step s t
  disconnected :
      (s t : NetworkStoreData) (network_name id : Text)
      → disconnect_container network_name id s ≡ ok t
      → Step s t

pub data Reach : NetworkStoreData → Type 0 where
  start : Reach []
  after : {s t : NetworkStoreData} → Reach s → Step s t → Reach t

-- No two networks have one name.
abbrev pub UniqueNames : NetworkStoreData → Type 0
UniqueNames [] = Unit
UniqueNames (net ∷ nets) = (any (has_name net.name) nets ≡ false) × UniqueNames nets

abbrev pub IsSound : NetworkRecord → Type 0
IsSound net = AreMembers net.subnet net.gateway net.containers

pub record IsValid (s : NetworkStoreData) : Type 0 where
  pub names : UniqueNames s
  pub sound : All IsSound s

has_name_comm : (a b : NetworkRecord) → has_name a.name b ≡ has_name b.name a
has_name_comm a b = ground (arith, text_eq_iff a.name b.name, text_eq_iff b.name a.name)

any_snoc :
    (x : NetworkRecord) (s : NetworkStoreData) (net : NetworkRecord)
    → any (has_name x.name) (s ++ net ∷ []) ≡ (any (has_name x.name) s || has_name x.name net)
any_snoc x [] net = ground arith
any_snoc x (y ∷ s) net = ground (arith, any_snoc x s net)

UniqueNames-snoc :
    (s : NetworkStoreData) (net : NetworkRecord)
    → any (has_name net.name) s ≡ false
    → UniqueNames s
    → UniqueNames (s ++ net ∷ [])
UniqueNames-snoc [] net h u = (refl, tt)
UniqueNames-snoc (x ∷ s) net h u = (
  rw (any_snoc x s net) (rw (u.0, has_name_comm x net) (ground arith)),
  UniqueNames-snoc s net (ground arith) u.1,
)

module _ (test : NetworkRecord → Bool) where
  any-remove_first :
      (name : Text) (s : NetworkStoreData)
      → any (has_name name) s ≡ false
      → any (has_name name) (remove_first test s) ≡ false
  any-remove_first name [] h = h
  any-remove_first name (x ∷ s) h = elim (Bool-cases (test x)) [
    | inl hit ↦ rw hit (ground arith)
    | inr miss ↦ rw miss (ground (arith, any-remove_first name s))
  ]

  pub UniqueNames-remove_first :
      (s : NetworkStoreData) → UniqueNames s → UniqueNames (remove_first test s)
  UniqueNames-remove_first [] u = tt
  UniqueNames-remove_first (x ∷ s) u = elim (Bool-cases (test x)) [
    | inl hit ↦ rw hit u.1
    | inr miss ↦ rw miss (any-remove_first x.name s u.0, UniqueNames-remove_first s u.1)
  ]

  module _ (f : NetworkRecord → NetworkRecord)
      (same : (net : NetworkRecord) → (f net).name ≡ net.name) where
    any-update_first :
        (name : Text) (s : NetworkStoreData)
        → any (has_name name) (update_first test f s) ≡ any (has_name name) s
    any-update_first name [] = refl
    any-update_first name (x ∷ s) = elim (Bool-cases (test x)) [
      | inl hit ↦ rw hit (rw (same x) refl)
      | inr miss ↦ rw miss (rw (any-update_first name s) refl)
    ]

    UniqueNames-update_first :
        (s : NetworkStoreData) → UniqueNames s → UniqueNames (update_first test f s)
    UniqueNames-update_first [] u = tt
    UniqueNames-update_first (x ∷ s) u = elim (Bool-cases (test x)) [
      | inl hit ↦ rw hit (rw (same x) u)
      | inr miss ↦ rw miss (rw (any-update_first x.name s) u.0, UniqueNames-update_first s u.1)
    ]

pub IsValid-snoc :
    (s : NetworkStoreData) (net : NetworkRecord)
    → any (has_name net.name) s ≡ false
    → IsSound net
    → IsValid s
    → IsValid (s ++ net ∷ [])
IsValid-snoc s net h sound v = record {
  names = UniqueNames-snoc s net h v.names;
  sound = All-append IsSound s (net ∷ []) v.sound (sound, tt);
}

pub IsValid-update_first :
    (test : NetworkRecord → Bool) (f : NetworkRecord → NetworkRecord) (s : NetworkStoreData)
    (found : NetworkRecord)
    → ((net : NetworkRecord) → (f net).name ≡ net.name)
    → find_first test s ≡ some found
    → (IsSound found → IsSound (f found))
    → IsValid s
    → IsValid (update_first test f s)
IsValid-update_first test f s found same e keep v = record {
  names = UniqueNames-update_first test f same s v.names;
  sound = All-update_first test IsSound f s found e keep v.sound;
}
