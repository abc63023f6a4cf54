-- ===== src/Engine/Dedupe/Tests.antt =====
-- engine/dedupe.py: two alerts of one service from different pods.
use vh26_pixel_perfect.Prelude.{◌≡◌, ◌↔◌, refl, true, false, none, some, [], ◌∷◌}
use vh26_pixel_perfect.Prelude.Text.{codes, lower_code}
use vh26_pixel_perfect.Prelude.Codes.{Codes, is_blank, ends_with, same_text, strip}
use vh26_pixel_perfect.Engine.Dedupe.{
  Alert, Material, normalise_key, is_volatile_name, is_volatile_key, stable_labels,
  fingerprint_material, event_scope, is_exact_duplicate,
}
use vh26_pixel_perfect.Engine.Dedupe.Identity.{SameMaterial, SameIdentity, is_exact_duplicate_iff}

abbrev from_pod : Codes → Alert
from_pod pod = record {
  service = some (codes "api");
  alertname = some (codes "HighLatency");
  severity = none;
  severity_raw = some (codes "high");
  labels = some ((codes "Pod-Name", pod) ∷ (codes "region", codes "eu") ∷ []);
  scope_key = none;
}

abbrev first : Alert
first = from_pod (codes "api-1")

abbrev second : Alert
second = from_pod (codes "api-2")

abbrev own_text : Codes → Codes
own_text text = text

abbrev named : Material → Codes
named m = m.service

same_material : SameMaterial (fingerprint_material first) (fingerprint_material second)
unfolding fingerprint_material stable_labels is_volatile_key is_volatile_name normalise_key
    ends_with same_text strip lower_code
same_material = (refl, refl, refl, λ key. refl)

same_service : named (fingerprint_material first) ≡ named (fingerprint_material second)
unfolding fingerprint_material
same_service = refl

is_exact_duplicate_iff_example :
    (is_exact_duplicate own_text named first second (codes "prod") ≡ true) ↔ (
      (is_blank (codes "prod") ≡ false)
      × (event_scope first (codes "prod") ≡ codes "prod")
      × (event_scope second (codes "prod") ≡ codes "prod")
      × SameIdentity first second)
is_exact_duplicate_iff_example =
    is_exact_duplicate_iff own_text named first second (codes "prod") (λ x y e. e)
      (λ _. same_material, λ _. same_service)
