-- ===== src/Github/SourcePolicy.antt =====
-- github_integration/source_context.py: the policy of a diagnosis, what it reads, and the paths that are
-- safe to read. A text is the list of its code points; the row of a snapshot has the fields that are read.
use vh26_pixel_perfect.Prelude.{
  ℕ, Bool, ◌&&◌, ◌||◌, not, Option, List, [], ◌∷◌, map, any, length, ltb, if◌then◌else◌,
}
use vh26_pixel_perfect.Prelude.Text.{codes, lower_code}
use vh26_pixel_perfect.Prelude.Codes.{Codes, same_text, starts_with, ends_with, has, split}
use vh26_pixel_perfect.Prelude.Codes.Laws.{text_eq}

-- `source_context_error` is the only exception of its own.
pub data SourceContextError : Type 0 where
  source_context_error : SourceContextError

pub record SourceContextPolicy : Type 0 where
  pub max_files : ℕ
  pub max_file_bytes : ℕ
  pub max_total_bytes : ℕ
  pub max_path_length : ℕ
  pub allowed_suffixes : List Codes

pub record SourceFileReference : Type 0 where
  pub path : Codes
  pub blob_sha : Codes
  pub size_bytes : Option ℕ

pub record SourceExcerpt : Type 0 where
  pub path : Codes
  pub blob_sha : Codes
  pub text : Codes
  pub byte_count : ℕ

pub record SourceContext : Type 0 where
  pub excerpts : List SourceExcerpt
  pub omitted_file_count : ℕ
  pub total_bytes : ℕ
  pub digest : Codes

-- A row, of which path and sha may be missing or no texts, and the size no number.
pub data RowSize : Type 0 where
  no_size bad_size : RowSize
  sized : ℕ → RowSize

pub record SnapshotRow : Type 0 where
  pub object_type : Option Codes
  pub path : Option Codes
  pub blob_sha : Option Codes
  pub size : RowSize

-- A response: the sha, the declared size unless it is invalid, and the content if it is bytes.
pub record Blob : Type 0 where
  pub sha : Codes
  pub content : Option Codes
  pub size : Option ℕ

abbrev pub generated_directory_parts : List Codes
generated_directory_parts =
    codes ".next"
    ∷ codes "build"
    ∷ codes "coverage"
    ∷ codes "dist"
    ∷ codes "node_modules"
    ∷ codes "vendor"
    ∷ []

abbrev pub sensitive_directory_parts : List Codes
sensitive_directory_parts = codes ".aws" ∷ codes ".ssh" ∷ codes "credentials" ∷ codes "secrets" ∷ []

abbrev pub sensitive_file_names : List Codes
sensitive_file_names = codes "id_ed25519" ∷ codes "id_rsa" ∷ codes ".env" ∷ []

abbrev pub generated_file_suffixes : List Codes
generated_file_suffixes = codes ".map" ∷ codes ".min.css" ∷ codes ".min.js" ∷ codes ".lock" ∷ []

abbrev pub is_one_of : List Codes → Codes → Bool
is_one_of texts s = any (same_text s) texts

-- parts[-1]; a split has a part
abbrev pub last_part : List Codes → Codes
last_part [] = []
last_part (part ∷ []) = part
last_part (_ ∷ part ∷ parts) = last_part (part ∷ parts)

-- parts[:-1]
abbrev pub but_last : List Codes → List Codes
but_last [] = []
but_last (part ∷ []) = []
but_last (first ∷ part ∷ parts) = first ∷ but_last (part ∷ parts)

-- The suffix of a file name behind its last dot, or the empty text.
unfoldable pub suffix_of : Codes → Codes
suffix_of name = if has b'.' name then last_part (split b'.' name) else []

unfoldable pub has_hidden_part : List Codes → Bool
has_hidden_part parts =
    any (is_one_of generated_directory_parts) (but_last parts)
    || any (is_one_of sensitive_directory_parts) parts
    || is_one_of sensitive_file_names (last_part parts)
    || starts_with (last_part parts) (codes ".env.")
    || any (ends_with (last_part parts)) generated_file_suffixes

unfoldable pub is_relative : Codes → SourceContextPolicy → Bool
is_relative path policy = not (
    ltb policy.max_path_length (length path)
    || has b'\\' path
    || has 0 path
    || starts_with path (codes "/"))

unfoldable pub is_dot_part : Codes → Bool
is_dot_part part = is_one_of ([] ∷ codes "." ∷ codes ".." ∷ []) part

unfoldable pub is_safe_path : Codes → SourceContextPolicy → Bool
unfolding is_relative is_dot_part has_hidden_part suffix_of
is_safe_path path policy =
    let parts = split b'/' path in
    is_relative path policy
    && not (any is_dot_part parts)
    && not (has_hidden_part (map (map lower_code) parts))
    && is_one_of policy.allowed_suffixes (b'.' ∷ map lower_code (suffix_of (last_part parts)))
