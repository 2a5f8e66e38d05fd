-- ===== src/Compose/Services/Overrides.antt =====
-- Entries of a key after inline entries have overridden those of the files.
use kc_docker.Shared.{
  true, false, Option, List, [], ◌∷◌, ◌++◌, ◌≡◌, refl, subst, ap, ◌∙◌, arith, if◌then◌else◌, Text,
  text_eq, text_eq_iff, text_eq_sound, split_once, Bool-cases, Option-cases, inl, inr, append-nil,
}
use kc_docker.Compose.{ServiceConfig}
use kc_docker.Compose.Services.{
  has_key, without_key, without_key_of, override, file_env, inline_env, service_env,
}

-- The entries of a key, in order.
abbrev pub entries_of : Text → List Text → List Text
entries_of key [] = []
entries_of key (entry ∷ env) =
    let rest = entries_of key env in if has_key key entry then entry ∷ rest else rest

-- The last entry of a key among `env`, or else those given.
abbrev pub last_or : Text → List Text → List Text → List Text
last_or key given [] = given
last_or key given (entry ∷ env) = last_or key (if has_key key entry then entry ∷ [] else given) env

entries_of-append :
    (key : Text) (xs ys : List Text)
    → entries_of key (xs ++ ys) ≡ entries_of key xs ++ entries_of key ys
entries_of-append key [] ys = refl
entries_of-append key (x ∷ xs) ys = elim (Bool-cases (has_key key x)) [
  | inl hit ↦ rw hit (ap (◌∷◌ x) (entries_of-append key xs ys))
  | inr miss ↦ rw miss (entries_of-append key xs ys)
]

-- An entry has one key only.
one_key :
    (j k entry : Text) → has_key j entry ≡ true → text_eq j k ≡ false → has_key k entry ≡ false
one_key j k entry h other = elim (Option-cases (split_once entry b'=')) [
  | inl missing ↦ rw missing refl
  | inr ((key, value), found) ↦
      let same : text_eq key j ≡ true = ground arith in
      rw found (ground (arith, text_eq_iff key j, text_eq_iff key k, text_eq_iff j k))
]

entries_of-without_key :
    (j k : Text) (env : List Text)
    → entries_of k (without_key j env) ≡ (if text_eq j k then [] else entries_of k env)
entries_of-without_key j k [] = ground arith
entries_of-without_key j k (entry ∷ env) = elim (Bool-cases (text_eq j k)) [
  | inl same ↦
      let e : j ≡ k = text_eq_sound j k same in
      let ih : entries_of k (without_key j env) ≡ [] =
        entries_of-without_key j k env ∙ rw same refl in
      rw same (elim (Bool-cases (has_key j entry)) [
        | inl hit ↦ rw hit ih
        | inr miss ↦
            let unmet : has_key k entry ≡ false = subst (λ x. has_key x entry ≡ false) e miss in
            rw miss (rw unmet ih)
      ])
  | inr other ↦
      let ih : entries_of k (without_key j env) ≡ entries_of k env =
        entries_of-without_key j k env ∙ rw other refl in
      rw other (elim (Bool-cases (has_key j entry)) [
        | inl hit ↦ rw hit (rw (one_key j k entry hit other) ih)
        | inr miss ↦ rw miss (rw ih refl)
      ])
]

entries_of_step :
    (key entry : Text) (env : List Text)
    → entries_of key (without_key_of (split_once entry b'=') env ++ entry ∷ [])
      ≡ (if has_key key entry then entry ∷ [] else entries_of key env)
entries_of_step key entry env =
    entries_of-append key (without_key_of (split_once entry b'=') env) (entry ∷ [])
    ∙ elim (Option-cases (split_once entry b'=')) [
      | inl missing ↦ rw missing (append-nil (entries_of key env))
      | inr ((k, v), found) ↦ rw found (
          rw (entries_of-without_key k key env) (elim (Bool-cases (text_eq k key)) [
            | inl same ↦ rw same refl
            | inr other ↦ rw other (append-nil (entries_of key env))
          ]))
    ]

override-last_or :
    (key : Text) (env entries : List Text)
    → entries_of key (override env entries) ≡ last_or key (entries_of key env) entries
unfolding override
override-last_or key env [] = refl
override-last_or key env (entry ∷ entries) =
    override-last_or key (without_key_of (split_once entry b'=') env ++ entry ∷ []) entries
    ∙ ap (λ given. last_or key given entries) (entries_of_step key entry env)

-- For every key, the environment that `up` passes on has the last inline entry of the key and no
-- other entry of it; where there is no inline entry, it has those of the environment files.
pub service_env-last_or :
    (read : Text → Option Text) (svc : ServiceConfig) (key : Text)
    → entries_of key (service_env read svc)
      ≡ last_or key (entries_of key (file_env read svc.env_file)) (inline_env svc.environment)
unfolding service_env
service_env-last_or read svc key =
    override-last_or key (file_env read svc.env_file) (inline_env svc.environment)
