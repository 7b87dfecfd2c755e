-- ===== src/Release/Artifact/Contents.antt =====
-- The contents that apps/mobile/scripts/verify-release-artifact.mjs accepts: its lists of messages, and
-- the manifests and archives for which they are empty.
use you_tube_gradian_devin.Common.{
  Text, text, starts_with, drop, length, Bool, Bool-cases, true, false, ◌&&◌, not, List, [], ◌∷◌,
  ◌++◌, map, any, All, In, ◌≡◌, ◌↔◌, inl, inr, refl, sym, ap, subst, arith,
}
use you_tube_gradian_devin.Common.Prefixes.{starts_with-append, starts_with-drop}
use you_tube_gradian_devin.Policy.Domain.{includes}
use you_tube_gradian_devin.Release.Patterns.{lowered}
use you_tube_gradian_devin.Release.Artifact.Scans.{reports, is_fixture}
use you_tube_gradian_devin.Release.Artifact.Manifest.{
  prohibited_permissions, required_services, permission, check_service, check_permission,
  common_checks,
}

-- The part stands somewhere in the text.
pub record Contains (part whole : Text) : Type 0 where
  pub before : Text
  pub after : Text
  pub parts : whole ≡ before ++ (part ++ after)

includes_sound : (part whole : Text) → includes part whole ≡ true → Contains part whole
unfolding includes
includes_sound part [] h = record {
  before = [];
  after = drop (length part) [];
  parts = starts_with-drop part [] h;
}
includes_sound part (c ∷ rest) h = elim (Bool-cases (starts_with part (c ∷ rest))) [
  | inl here ↦ record {
    before = [];
    after = drop (length part) (c ∷ rest);
    parts = starts_with-drop part (c ∷ rest) here;
  }
  | inr other ↦
      let later : Contains part rest = includes_sound part rest (ground arith) in
      record { before = c ∷ later.before; after = later.after; parts = ap (λ t. c ∷ t) later.parts }
]

includes_here : (part whole : Text) → starts_with part whole ≡ true → includes part whole ≡ true
unfolding includes
includes_here part [] h = h
includes_here part (c ∷ rest) h = rw h refl

includes_complete : (part before after : Text) → includes part (before ++ (part ++ after)) ≡ true
unfolding includes
includes_complete part [] after = includes_here part (part ++ after) (starts_with-append part after)
includes_complete part (c ∷ before) after = ground (arith, includes_complete part before after)

pub includes_iff : (part whole : Text) → (includes part whole ≡ true) ↔ Contains part whole
includes_iff part whole = (
  includes_sound part whole,
  λ c. subst (λ t. includes part t ≡ true) (sym c.parts) (includes_complete part c.before c.after),
)

pub not_iff : {P : Type 0} (b : Bool) → (b ≡ true) ↔ P → (not b ≡ true) ↔ (P → ⊥)
not_iff true k = (λ h. cc, λ no. absurd (no (k.0 refl)))
not_iff false k = (λ h p. let e : false ≡ true = k.1 p in cc, λ no. refl)

pub and_iff :
    {P Q : Type 0} (a b : Bool) → (a ≡ true) ↔ P → (b ≡ true) ↔ Q → ((a && b) ≡ true) ↔ (P × Q)
and_iff true b k l = (λ h. (k.0 refl, l.0 h), λ pq. l.1 pq.1)
and_iff false b k l = (λ h. cc, λ pq. k.1 pq.0)

pub any_iff :
    {A : Type 0} (p : A → Bool) (Q : A → Type 0) (xs : List A)
    → ((x : A) → (p x ≡ true) ↔ Q x)
    → (any p xs ≡ true) ↔ ((x : A) × In x xs × Q x)
unfolding any
any_iff p Q [] k = (λ h. cc, λ (x, m, q). elim m [ ])
any_iff p Q (y ∷ xs) k = elim (Bool-cases (p y)) [
  | inl here ↦ rw here (λ h. (y, inl refl, (k y).0 here), λ found. refl)
  | inr other ↦ rw other (
    λ h. let (x, m, q) = (any_iff p Q xs k).0 h in (x, inr m, q),
    λ (x, m, q). elim m [
      | inl e ↦ let same : p y ≡ true = (k y).1 (subst Q e q) in cc
      | inr n ↦ (any_iff p Q xs k).1 (x, n, q)
    ],
  )
]

pub reports_nil : reports [] ≡ []
unfolding reports
reports_nil = refl

pub report_iff :
    {P : Type 0} (b : Bool) (said : Text) (checks : List (Bool × Text))
    → (b ≡ true) ↔ P
    → (reports ((b, said) ∷ checks) ≡ []) ↔ (P × (reports checks ≡ []))
unfolding reports
report_iff true said checks k = (λ h. (k.0 refl, h), λ pq. pq.1)
report_iff false said checks k = (λ h. cc, λ pq. let e : false ≡ true = k.1 pq.0 in cc)

-- One test for each element of a list, before other tests.
pub reports-map_iff :
    {A : Type 0} (f : A → Bool × Text) (Q : A → Type 0) (xs : List A) (checks : List (Bool × Text))
    → ((x : A) → ((f x).0 ≡ true) ↔ Q x)
    → (reports (map f xs ++ checks) ≡ []) ↔ (All Q xs × (reports checks ≡ []))
reports-map_iff f Q [] checks k = (λ h. (tt, h), λ pq. pq.1)
reports-map_iff f Q (x ∷ xs) checks k =
    let first = report_iff (f x).0 (f x).1 (map f xs ++ checks) (k x) in
    let others = reports-map_iff f Q xs checks k in
    (
      λ h. let (q, rest) = first.0 h in let (qs, passed) = others.0 rest in ((q, qs), passed),
      λ ((q, qs), passed). first.1 (q, others.1 (qs, passed)),
    )

pub reports-only_map_iff :
    {A : Type 0} (f : A → Bool × Text) (Q : A → Type 0) (xs : List A)
    → ((x : A) → ((f x).0 ≡ true) ↔ Q x)
    → (reports (map f xs) ≡ []) ↔ All Q xs
reports-only_map_iff f Q [] k = (λ h. tt, λ qs. reports_nil)
reports-only_map_iff f Q (x ∷ xs) k =
    let first = report_iff (f x).0 (f x).1 (map f xs) (k x) in
    let others = reports-only_map_iff f Q xs k in
    (λ h. let (q, rest) = first.0 h in (q, others.0 rest), λ (q, qs). first.1 (q, others.1 qs))

-- No `fixture` stands in the text, in letters of either case.
abbrev pub IsFixtureFree : Text → Type 0
IsFixtureFree t = Contains (text "fixture") (lowered t) → ⊥

pub is_fixture-not_iff : (t : Text) → (not (is_fixture t) ≡ true) ↔ IsFixtureFree t
is_fixture-not_iff t = not_iff (is_fixture t) (includes_iff (text "fixture") (lowered t))

-- What both manifests must and must not hold.
pub record IsGuarded (contents : Text) : Type 0 where
  pub services : All (λ service. Contains service contents) required_services
  pub permissions : All (λ name. Contains (permission name) contents → ⊥) prohibited_permissions
  pub fixtures : IsFixtureFree contents

pub common_checks_iff :
    (subject fixtures contents : Text)
    → (reports (common_checks subject fixtures contents) ≡ []) ↔ IsGuarded contents
common_checks_iff subject fixtures contents =
    let third =
      report_iff (not (is_fixture contents)) (subject ++ fixtures) []
        (is_fixture-not_iff contents) in
    let second =
      reports-map_iff (check_permission subject contents)
        (λ name. Contains (permission name) contents → ⊥) prohibited_permissions _
        (λ name. not_iff _ (includes_iff (permission name) contents)) in
    let first =
      reports-map_iff (check_service subject contents) (λ service. Contains service contents)
        required_services _ (λ service. includes_iff service contents) in
    (
      λ h.
          let (services, rest) = first.0 h in
          let (permissions, last) = second.0 rest in
          record { services = services; permissions = permissions; fixtures = (third.0 last).0 },
      λ g. first.1 (g.services, second.1 (g.permissions, third.1 (g.fixtures, reports_nil))),
    )
