-- ===== src/Engine/Dedupe/Identity.antt =====
-- engine/dedupe.py: what makes an alert a repeat of another.
use vh26_pixel_perfect.Prelude.{
  true, false, ◌≡◌, refl, sym, ◌∙◌, ap, Option, none, [], ◌∷◌, ◌==◌, if◌then◌else◌, ◌↔◌, arith,
  Bool-cases, inl, inr,
}
use vh26_pixel_perfect.Prelude.Dict.{Dict, get}
use vh26_pixel_perfect.Prelude.Codes.{Codes, is_blank, same_text}
use vh26_pixel_perfect.Prelude.Codes.Laws.{text_eq, same_text_iff}
use vh26_pixel_perfect.Engine.Dedupe.{
  Alert, Material, is_volatile_key, stable_labels, or_default, fingerprint_material, event_scope,
  generate_fingerprint, is_exact_duplicate,
}

-- Python's equality of the material, whose labels are a dict.
abbrev pub SameMaterial : Material → Material → Type 0
SameMaterial m n =
    (m.service ≡ n.service)
    × (m.alertname ≡ n.alertname)
    × (m.severity ≡ n.severity)
    × ((key : Codes) → get key m.labels ≡ get key n.labels)

abbrev labels_of : Alert → Dict Codes Codes
labels_of a = or_default a.labels []

-- The same name of the service, of the alert and of the severity, and the same value of every label
-- that is not volatile.
abbrev pub SameIdentity : Alert → Alert → Type 0
SameIdentity a b =
    (or_default a.service [] ≡ or_default b.service [])
    × (or_default a.alertname [] ≡ or_default b.alertname [])
    × (or_default a.severity (or_default a.severity_raw [])
        ≡ or_default b.severity (or_default b.severity_raw []))
    × ((key : Codes) → is_volatile_key key ≡ false → get key (labels_of a) ≡ get key (labels_of b))

get-stable_labels :
    (key : Codes) (labels : Dict Codes Codes)
    → get key (stable_labels labels) ≡ (if is_volatile_key key then none else get key labels)
unfolding get stable_labels
get-stable_labels key [] = ground arith
get-stable_labels key ((j, value) ∷ labels) =
    let rest = get-stable_labels key labels in
    elim (Bool-cases (j == key)) [
      | inl same ↦
          let e : is_volatile_key j ≡ is_volatile_key key =
            ap is_volatile_key ((same_text_iff j key).0 same) in
          elim (Bool-cases (is_volatile_key key)) [
            | inl v ↦ rw (e, v) (rest ∙ ap (λ b. if b then none else get key labels) v)
            | inr v ↦ rw (e, v, same) refl
          ]
      | inr other ↦ elim (Bool-cases (is_volatile_key j)) [
        | inl v ↦ rw (v, other) rest
        | inr v ↦ rw (v, other) rest
      ]
    ]

unless_volatile :
    {x y : Option Codes} (key : Codes)
    → (is_volatile_key key ≡ false → x ≡ y)
    → (if is_volatile_key key then none else x) ≡ (if is_volatile_key key then none else y)
unless_volatile key h = elim (Bool-cases (is_volatile_key key)) [
  | inl v ↦ rw v refl
  | inr v ↦ rw v (h v)
]

stable_labels_iff :
    (l m : Dict Codes Codes)
    → ((key : Codes) → get key (stable_labels l) ≡ get key (stable_labels m))
      ↔ ((key : Codes) → is_volatile_key key ≡ false → get key l ≡ get key m)
stable_labels_iff l m = (
  λ h key v.
      sym (get-stable_labels key l ∙ ap (λ b. if b then none else get key l) v)
      ∙ h key
      ∙ get-stable_labels key m
      ∙ ap (λ b. if b then none else get key m) v,
  λ h key. get-stable_labels key l ∙ unless_volatile key (h key) ∙ sym (get-stable_labels key m),
)

SameMaterial-SameIdentity :
    (a b : Alert)
    → SameMaterial (fingerprint_material a) (fingerprint_material b) ↔ SameIdentity a b
unfolding fingerprint_material
SameMaterial-SameIdentity a b =
    let (to, from) = stable_labels_iff (labels_of a) (labels_of b) in
    (λ h. let (s, n, v, l) = h in (s, n, v, to l), λ h. let (s, n, v, l) = h in (s, n, v, from l))

is_exact_duplicate_tests :
    (sha256 : Codes → Codes) (canonical_json : Material → Codes) (a b : Alert) (scope : Codes)
    → (is_exact_duplicate sha256 canonical_json a b scope ≡ true) ↔ (
        (is_blank scope ≡ false)
        × (same_text (event_scope a scope) scope ≡ true)
        × (same_text (event_scope b scope) scope ≡ true)
        × (same_text
              (generate_fingerprint sha256 canonical_json a)
              (generate_fingerprint sha256 canonical_json b)
            ≡ true))
unfolding is_exact_duplicate
is_exact_duplicate_tests sha256 canonical_json a b scope = ground arith

-- When SHA-256 has no collision and the canonical JSON of two alerts is the same text exactly if their
-- material is the same, one repeats the other exactly if a scope is given, each is of it or names none,
-- and they agree on the service, the name, the severity and every label that is not volatile.
pub is_exact_duplicate_iff :
    (sha256 : Codes → Codes) (canonical_json : Material → Codes) (a b : Alert) (scope : Codes)
    → ((x y : Codes) → sha256 x ≡ sha256 y → x ≡ y)
    → (canonical_json (fingerprint_material a) ≡ canonical_json (fingerprint_material b))
      ↔ SameMaterial (fingerprint_material a) (fingerprint_material b)
    → (is_exact_duplicate sha256 canonical_json a b scope ≡ true) ↔ (
        (is_blank scope ≡ false)
        × (event_scope a scope ≡ scope)
        × (event_scope b scope ≡ scope)
        × SameIdentity a b)
unfolding generate_fingerprint
is_exact_duplicate_iff sha256 canonical_json a b scope injective canonical =
    let (to, from) = is_exact_duplicate_tests sha256 canonical_json a b scope in
    let ma = fingerprint_material a in
    let mb = fingerprint_material b in
    let texts = same_text_iff (sha256 (canonical_json ma)) (sha256 (canonical_json mb)) in
    let identity = SameMaterial-SameIdentity a b in
    (
      λ h.
          let (given, sa, sb, same) = to h in
          (
            given,
            (same_text_iff (event_scope a scope) scope).0 sa,
            (same_text_iff (event_scope b scope) scope).0 sb,
            identity.0
                (canonical.0 (injective (canonical_json ma) (canonical_json mb) (texts.0 same))),
          ),
      λ h.
          let (given, sa, sb, same) = h in
          from (
            given,
            (same_text_iff (event_scope a scope) scope).1 sa,
            (same_text_iff (event_scope b scope) scope).1 sb,
            texts.1 (ap sha256 (canonical.1 (identity.1 same))),
          ),
    )
