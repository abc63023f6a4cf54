-- ===== src/Github/SourceContext/Safety.antt =====
-- Which paths github_integration/source_context.py lets a diagnosis read.
use vh26_pixel_perfect.Prelude.{
  ◌≡◌, ◌≢◌, refl, ◌∙◌, sym, Bool, true, false, ◌&&◌, not, List, [], ◌∷◌, map, any, any-map,
  any-false, All, All-map, arith,
}
use vh26_pixel_perfect.Prelude.Text.{lower_code}
use vh26_pixel_perfect.Prelude.Codes.{Codes, same_text, has, split}
use vh26_pixel_perfect.Prelude.Codes.Laws.{same_text_iff}
use vh26_pixel_perfect.Github.Paths.{is_dots}
use vh26_pixel_perfect.Github.Paths.Containment.{resolve_parts, below, resolve_parts-below}
use vh26_pixel_perfect.Github.SourcePolicy.{
  SourceContextPolicy, is_safe_path, is_relative, is_dot_part, has_hidden_part, is_one_of,
  last_part, suffix_of, sensitive_directory_parts, sensitive_file_names,
}

-- The text is none of the names.
abbrev pub IsNoneOf : List Codes → Codes → Type 0
IsNoneOf names s = All (λ n. s ≢ n) names

none_of : (names : List Codes) (s : Codes) → is_one_of names s ≡ false → IsNoneOf names s
none_of [] s h = tt
none_of (n ∷ names) s h = (λ e. ground (arith, same_text_iff s n), none_of names s (ground arith))

dot-dots : (part : Codes) → is_dot_part part ≡ is_dots part
unfolding is_dot_part is_dots same_text
dot-dots [] = refl
dot-dots (c ∷ s) = ground arith

any-dots : (parts : List Codes) → any is_dot_part parts ≡ any is_dots parts
any-dots [] = refl
any-dots (part ∷ parts) = rw (dot-dots part, any-dots parts) refl

both : (a b : Bool) → (a && b) ≡ true → (a ≡ true) × (b ≡ true)
both true b h = (refl, h)
both false b h = cc

hidden :
    (parts : List Codes)
    → not (has_hidden_part parts) ≡ true
    → (any (is_one_of sensitive_directory_parts) parts ≡ false)
      × (is_one_of sensitive_file_names (last_part parts) ≡ false)
unfolding has_hidden_part
hidden parts h = (ground arith, ground arith)

no_backslash :
    (policy : SourceContextPolicy) (path : Codes)
    → is_relative path policy ≡ true
    → has b'\\' path ≡ false
unfolding is_relative
no_backslash policy path h = ground arith

-- A path that may be read leads, from whatever directory, to what its parts name one below the other,
-- has no backslash, and whatever the case of its letters, none of its parts is a directory of secrets
-- and its last is no file of secrets; its suffix is an allowed one.
pub record IsSafe (policy : SourceContextPolicy) (path : Codes) : Type 0 where
  pub contained :
      (here : List Codes) → resolve_parts here (split b'/' path) ≡ below here (split b'/' path)
  pub plain : has b'\\' path ≡ false
  pub no_secret :
      All (λ part. IsNoneOf sensitive_directory_parts (map lower_code part)) (split b'/' path)
  pub no_secret_file :
      IsNoneOf sensitive_file_names (last_part (map (map lower_code) (split b'/' path)))
  pub allowed :
      is_one_of policy.allowed_suffixes
        (b'.' ∷ map lower_code (suffix_of (last_part (split b'/' path))))
      ≡ true

pub is_safe_path-IsSafe :
    (policy : SourceContextPolicy) (path : Codes)
    → is_safe_path path policy ≡ true
    → IsSafe policy path
unfolding is_safe_path
is_safe_path-IsSafe policy path h =
    let parts = split b'/' path in
    let inside = not (any is_dot_part parts) in
    let shown = not (has_hidden_part (map (map lower_code) parts)) in
    let (h1, suffix) = both (is_relative path policy && inside && shown) _ h in
    let (h2, not_hidden) = both (is_relative path policy && inside) shown h1 in
    let (relative, below_here) = both (is_relative path policy) inside h2 in
    let (directories, file) = hidden (map (map lower_code) parts) not_hidden in
    let no_dots : any is_dot_part parts ≡ false = ground arith in
    record {
      contained = λ here. resolve_parts-below parts here (sym (any-dots parts) ∙ no_dots);
      plain = no_backslash policy path relative;
      no_secret =
          All-map (λ part. none_of sensitive_directory_parts (map lower_code part)) parts
            (any-false (λ part. is_one_of sensitive_directory_parts (map lower_code part)) parts
              (sym (any-map (is_one_of sensitive_directory_parts) (map lower_code) parts)
                ∙ directories));
      no_secret_file = none_of sensitive_file_names (last_part (map (map lower_code) parts)) file;
      allowed = suffix;
    }
