-- ===== src/Compose/Remaining.antt =====
-- The names that a visit of a service can still add, and the three collections of names.
use kc_docker.Shared.{
  ℕ, ◌+◌, ◌≤◌, ◌<◌, true, false, List, [], ◌∷◌, if◌then◌else◌, length, Text, text_eq, text_eq_sound,
  text_eq_refl, text_eq_iff, ◌≡◌, refl, arith, subst, sym, Bool-cases, inl, inr,
}
use kc_docker.Shared.Maps.{contains, discard, discard_absent, keys, get}
use kc_docker.Compose.{Services, is_defined}
use kc_docker.Compose.Graph.{contains-cons}

-- How many of the names are not being visited: what the recursion can still add.
abbrev pub remaining : List Text → List Text → ℕ
remaining [] visiting = 0
remaining (k ∷ ks) visiting = (if contains visiting k then 0 else 1) + remaining ks visiting

pub remaining-nil : (ks : List Text) → remaining ks [] ≡ length ks
remaining-nil [] = refl
remaining-nil (k ∷ ks) = omega (arith, remaining-nil ks)

pub remaining-le :
    (ks visiting : List Text) (s : Text) → remaining ks (s ∷ visiting) ≤ remaining ks visiting
remaining-le [] visiting s = omega arith
remaining-le (k ∷ ks) visiting s = ground (arith, remaining-le ks visiting s)

pub remaining-lt :
    (ks visiting : List Text) (s : Text)
    → contains ks s ≡ true
    → contains visiting s ≡ false
    → remaining ks (s ∷ visiting) < remaining ks visiting
remaining-lt [] visiting s h n = absurd (ground arith)
remaining-lt (k ∷ ks) visiting s h n = elim (contains-cons k s ks h) [
  | inl here ↦ ground (arith, remaining-le ks visiting s, text_eq_iff s k)
  | inr later ↦ ground (arith, remaining-lt ks visiting s later n)
]

pub keys_of_get :
    (services : Services) (service : Text)
    → is_defined (get services service) ≡ true
    → contains (keys services) service ≡ true
unfolding get
keys_of_get [] service h = absurd (ground arith)
keys_of_get ((k, cfg) ∷ services) service h = ground (arith, keys_of_get services service)

pub discard_head :
    (s : Text) (visiting : List Text)
    → contains visiting s ≡ false
    → discard s (s ∷ visiting) ≡ visiting
discard_head s visiting h = rw (text_eq_refl s) (discard_absent s visiting h)

pub not_same :
    (s x : Text) (visiting : List Text)
    → contains visiting s ≡ false
    → contains visiting x ≡ true
    → text_eq s x ≡ false
not_same s x visiting absent present = elim (Bool-cases (text_eq s x)) [
  | inr other ↦ other
  | inl same ↦
      let e : s ≡ x = text_eq_sound s x same in
      let here : contains visiting s ≡ true =
        subst (λ y. contains visiting y ≡ true) (sym e) present in
      absurd (ground arith)
]

pub fresh_of_disjoint :
    (s x : Text) (visited : List Text)
    → text_eq s x ≡ false
    → contains visited x ≡ false
    → contains (s ∷ visited) x ≡ false
fresh_of_disjoint s x visited ne absent = rw ne absent
