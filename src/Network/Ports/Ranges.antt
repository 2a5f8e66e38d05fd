-- ===== src/Network/Ports/Ranges.antt =====
-- `PortMapping::parse_port_or_range` and what a port specification publishes.
use kc_docker.Shared.{
  ℕ, zero, suc, ◌+◌, ◌-◌, ◌≤◌, Option, none, some, List, [], ◌∷◌, ltb, if◌then◌else◌, length, Text,
  codes, split_once, split, to_lowercase, parse_uint, ◌≡◌, false, sym, refl, arith, Bool-cases, inl,
  inr, Option-cases, ap, ap₂, ltb→le, ◌∙◌,
}
use kc_docker.Shared.Result.{Result, ok, err}
use kc_docker.Network.Ports.{PortMapping, PortError, parse_port_or_range, range_from, zip_ports}

-- `n + 1` mappings: host ports and container ports both count up, from `host` and `container`.
abbrev pub expansion : Option Text → Text → ℕ → ℕ → ℕ → List PortMapping
expansion ip proto host container zero =
    record { host_ip = ip; host_port = host; container_port = container; protocol = proto } ∷ []
expansion ip proto host container (suc n) =
    record { host_ip = ip; host_port = host; container_port = container; protocol = proto }
    ∷ expansion ip proto (host + 1) (container + 1) n

-- The text of a port, or of a range of `count + 1` ports with both ends written out.
pub data IsPortText (s : Text) (start count : ℕ) : Type 0 where
  port :
      split_once s b'-' ≡ none
      → parse_uint 65535 s ≡ some start
      → count ≡ 0
      → IsPortText s start count
  range :
      (first last : Text)
      → split_once s b'-' ≡ some (first, last)
      → parse_uint 65535 first ≡ some start
      → parse_uint 65535 last ≡ some (start + count)
      → IsPortText s start count

-- Host and container ports are written as ranges of one length, and are paired in order.
pub record IsPaired (ip : Option Text) (proto host container : Text) (ms : List PortMapping)
    : Type 0 where
  pub host_start : ℕ
  pub container_start : ℕ
  pub count : ℕ
  pub host_text : IsPortText host host_start count
  pub container_text : IsPortText container container_start count
  pub expands : ms ≡ expansion ip proto host_start container_start count

-- The parts between the colons: a port for both sides, two ports, or a host address before them.
pub data IsParts (proto : Text) (ms : List PortMapping) : List Text → Type 0 where
  one_port :
      {s : Text} (start count : ℕ)
      → IsPortText s start count
      → ms ≡ expansion none proto start start count
      → IsParts proto ms (s ∷ [])
  two_ports :
      {host container : Text}
      → IsPaired none proto host container ms
      → IsParts proto ms (host ∷ container ∷ [])
  with_ip :
      {ip host container : Text}
      → IsPaired (some ip) proto host container ms
      → IsParts proto ms (ip ∷ host ∷ container ∷ [])

-- What a specification publishes: the protocol behind the slash, in lower case, is TCP if none is
-- written.
pub data IsPublished (spec : Text) (ms : List PortMapping) : Type 0 where
  plain :
      split_once spec b'/' ≡ none → IsParts (codes "tcp") ms (split spec b':') → IsPublished spec ms
  with_protocol :
      (ports proto : Text)
      → split_once spec b'/' ≡ some (ports, proto)
      → IsParts (to_lowercase proto) ms (split ports b':')
      → IsPublished spec ms

pub record IsRange (s : Text) (ports : List ℕ) : Type 0 where
  pub start : ℕ
  pub count : ℕ
  pub text : IsPortText s start count
  pub ranges : ports ≡ range_from start (suc count)

abbrev pub OnOk {ℓ κ} : {E : Type 0} {A : Type ℓ} → (A → Type κ) → Result E A → Type κ
OnOk P (ok a) = P a
OnOk P (err e) = Unit

pub IsRange-in_order :
    (s first last : Text) (start end : ℕ)
    → split_once s b'-' ≡ some (first, last)
    → parse_uint 65535 first ≡ some start
    → parse_uint 65535 last ≡ some end
    → OnOk (IsRange s) (
        if ltb end start
        then err PortError.invalid_range
        else ok (range_from start (end + 1 - start)))
IsRange-in_order s first last start end two p q = elim (Bool-cases (ltb end start)) [
  | inl bad ↦ rw bad tt
  | inr good ↦
      let le : start ≤ end = ltb→le end start good in
      rw good (record {
        start = start;
        count = end - start;
        text = range first last two p (q ∙ ap some (omega arith));
        ranges = ap (range_from start) {y = suc (end - start)} (omega arith);
      })
]

pub parse_port_or_range-IsRange : (s : Text) → OnOk (IsRange s) (parse_port_or_range s)
unfolding parse_port_or_range
parse_port_or_range-IsRange s = elim (Option-cases (split_once s b'-')) [
  | inl single ↦
      rw (single, parse_port_or_range)
        (elim (Option-cases (parse_uint 65535 s)) [
          | inl bad ↦ rw bad tt
          | inr (start, good) ↦
              rw good
                (record { start = start; count = 0; text = port single good refl; ranges = refl })
        ])
  | inr ((first, last), two) ↦
      rw (two, parse_port_or_range)
        (elim (Option-cases (parse_uint 65535 first)) [
          | inl bad ↦ rw bad tt
          | inr (start, good) ↦ rw good (elim (Option-cases (parse_uint 65535 last)) [
            | inl bad ↦ rw bad tt
            | inr (end, fine) ↦ rw fine (IsRange-in_order s first last start end two good fine)
          ])
        ])
]

pub parse_port_or_range-ok :
    (s : Text) (start count : ℕ)
    → IsPortText s start count
    → parse_port_or_range s ≡ ok (range_from start (suc count))
unfolding parse_port_or_range
parse_port_or_range-ok s start count (port single p e) =
    rw (single, parse_port_or_range) (rw p (rw e refl))
parse_port_or_range-ok s start count (range first last two p q) =
    let in_order : ltb (start + count) start ≡ false = ground arith in
    rw (two, parse_port_or_range)
      (rw p (
        rw q (
          rw in_order (
            ap (λ n. ok (range_from start n)) {x = start + count + 1 - start} {y = suc count}
              (omega arith)))))

pub zip_ranges :
    (ip : Option Text) (proto : Text) (host container n : ℕ)
    → zip_ports ip proto (range_from host (suc n)) (range_from container (suc n))
      ≡ expansion ip proto host container n
unfolding zip_ports
zip_ranges ip proto host container zero = refl
zip_ranges ip proto host container (suc n) =
    ap
      (◌∷◌
        (record { host_ip = ip; host_port = host; container_port = container; protocol = proto }))
      (zip_ranges ip proto (host + 1) (container + 1) n)

pub length-range_from : (start n : ℕ) → length (range_from start n) ≡ n
length-range_from start zero = refl
length-range_from start (suc n) = ap suc (length-range_from (start + 1) n)

pub zip_ports-expansion :
    (ip : Option Text) (proto s t : Text) (hs cs : List ℕ) (h : IsRange s hs) (c : IsRange t cs)
    → h.count ≡ c.count
    → zip_ports ip proto hs cs ≡ expansion ip proto h.start c.start h.count
zip_ports-expansion ip proto s t hs cs h c same =
    ap₂ (zip_ports ip proto) h.ranges (c.ranges ∙ ap (λ k. range_from c.start (suc k)) (sym same))
    ∙ zip_ranges ip proto h.start c.start h.count
