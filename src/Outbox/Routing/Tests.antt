-- ===== src/Outbox/Routing/Tests.antt =====
-- Tests of outbox/routing.py.
use vh26_pixel_perfect.Prelude.{◌≡◌, refl, Bool, String, string_eq, ◌==◌, some}
use vh26_pixel_perfect.Outbox.Routing.{priority_for}

priority_tests : (priority_for (some "CRITICAL") ≡ 0) × (priority_for (some "page") ≡ 2)
unfolding priority_for
priority_tests = (refl, refl)

abbrev only_email : String → Bool
only_email c = c == "email"
