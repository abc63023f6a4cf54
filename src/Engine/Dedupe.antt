-- ===== src/Engine/Dedupe.antt =====
-- engine/dedupe.py: the stable identity of an alert, and which alerts repeat another. A text is its code
-- points, and only ASCII letters are lowered; SHA-256 and the canonical JSON are parameters.
pub mod Identity
mod Tests
use Prim.Native.String.{String}
use vh26_pixel_perfect.Prelude.{
  ℕ, Bool, true, false, ◌||◌, not, Option, none, some, List, [], ◌∷◌, map, any, nat_beq,
  if◌then◌else◌,
}
use vh26_pixel_perfect.Prelude.Dict.{Dict}
use vh26_pixel_perfect.Prelude.Text.{codes, lower_code}
use vh26_pixel_perfect.Prelude.Codes.{Codes, is_blank, same_text, strip, ends_with}

-- The fields of an alert that its identity reads; `none` is a missing key, or labels that are no mapping.
pub record Alert : Type 0 where
  pub service : Option Codes
  pub alertname : Option Codes
  pub severity : Option Codes
  pub severity_raw : Option Codes
  pub labels : Option (Dict Codes Codes)
  pub scope_key : Option Codes

pub record Material : Type 0 where
  pub service : Codes
  pub alertname : Codes
  pub severity : Codes
  pub labels : Dict Codes Codes

abbrev pub volatile_field_names : List String
volatile_field_names =
    "timestamp" ∷ "fired_at" ∷ "starts_at" ∷ "ends_at" ∷ "event_id" ∷ "source_event_id" ∷ "pod"
    ∷ "pod_name" ∷ "pod_uid" ∷ "uid" ∷ "instance" ∷ "container_id" ∷ "containerid" ∷ []

abbrev pub underscored : ℕ → ℕ
underscored c = if nat_beq c b'-' then b'_' else c

unfoldable pub normalise_key : Codes → Codes
normalise_key key = map underscored (map lower_code (strip key))

unfoldable pub is_volatile_name : Codes → Bool
is_volatile_name name =
    any (λ v. same_text name (codes v)) volatile_field_names
    || ends_with name (codes "_timestamp")
    || ends_with name (codes "_pod_uid")

unfoldable pub is_volatile_key : Codes → Bool
unfolding normalise_key is_volatile_name
is_volatile_key key = is_volatile_name (normalise_key key)

unfoldable pub stable_labels : Dict Codes Codes → Dict Codes Codes
stable_labels [] = []
stable_labels ((key, value) ∷ labels) =
    let rest = stable_labels labels in
    if not (is_volatile_key key) then (key, value) ∷ rest else rest

-- payload.get(key, default)
abbrev pub or_default {ℓ} : {A : Type ℓ} → Option A → A → A
or_default none default = default
or_default (some value) default = value

unfoldable pub fingerprint_material : Alert → Material
fingerprint_material a = record {
  service = or_default a.service [];
  alertname = or_default a.alertname [];
  severity = or_default a.severity (or_default a.severity_raw []);
  labels = stable_labels (or_default a.labels []);
}

abbrev pub event_scope : Alert → Codes → Codes
event_scope a fallback = or_default a.scope_key fallback

module _ (sha256 : Codes → Codes) (canonical_json : Material → Codes) where
  unfoldable pub generate_fingerprint : Alert → Codes
  generate_fingerprint a = sha256 (canonical_json (fingerprint_material a))

  unfoldable pub is_exact_duplicate : Alert → Alert → Codes → Bool
  unfolding generate_fingerprint
  is_exact_duplicate a b scope =
      if is_blank scope
      then false
      else if not (same_text (event_scope a scope) scope)
      then false
      else if not (same_text (event_scope b scope) scope)
      then false
      else same_text (generate_fingerprint a) (generate_fingerprint b)
