-- ===== src/Sets/Files.antt =====
-- dns_forwarder/core/tag_files.py: `load_tag_files`. The tables of Unicode are an argument.
use mathlib.Core.List.{reverse}
use python_smartdns.Prelude.{
  ℕ, Bool, false, not, ◌||◌, ◌==◌, List, [], ◌∷◌, is_empty, if◌then◌else◌,
}
use python_smartdns.Outcome.{os_error, Outcome, done, raised, ◌>>=◌}
use python_smartdns.Sets.Texts.{Text, Multimap, add_to}

-- Python's white space, and `str.lower`.
pub record Unicode : Type 0 where
  pub is_space : ℕ → Bool
  pub lower : Text → Text

unfoldable pub drop_while : (ℕ → Bool) → Text → Text
drop_while p [] = []
drop_while p (c ∷ t) = if p c then drop_while p t else c ∷ t

-- `t.rstrip(chars)` and `t.strip()`
unfoldable pub rstrip : (ℕ → Bool) → Text → Text
unfolding drop_while
rstrip p t = reverse (drop_while p (reverse t))

unfoldable pub strip : Unicode → Text → Text
unfolding rstrip drop_while
strip u t = rstrip u.is_space (drop_while u.is_space t)

abbrev pub starts_with : ℕ → Text → Bool
starts_with c [] = false
starts_with c (d ∷ t) = d == c

-- An entry of the directory; `lines` is what `read_text(...).splitlines()` does.
pub record TagFile : Type 0 where
  pub name : Text
  pub stem : Text
  pub is_file : Bool
  pub lines : Outcome (List Text)

-- What the path names; the files in the order of their names.
pub data Directory : Type 0 where
  no_directory missing not_a_directory : Directory
  files : List TagFile → Directory

-- An empty line or a comment.
abbrev pub is_skipped : Text → Bool
is_skipped t = is_empty t || starts_with b'#' t

-- A file that is no file, is hidden or has no stem.
abbrev pub is_ignored : TagFile → Bool
is_ignored f = not f.is_file || starts_with b'.' f.name || is_empty f.stem

module _ (u : Unicode) (normalizer : Text → Outcome Text) where
  unfoldable pub add_line : Text → Text → Multimap → Outcome Multimap
  add_line tag line m =
      if is_skipped (strip u line)
      then done m
      else normalizer (strip u line) >>= λ value. done (add_to tag value m)

  unfoldable pub add_lines : Text → List Text → Multimap → Outcome Multimap
  add_lines tag [] m = done m
  add_lines tag (line ∷ lines) m = add_line tag line m >>= add_lines tag lines

  unfoldable pub add_file : TagFile → Multimap → Outcome Multimap
  add_file f m = if is_ignored f then done m else f.lines >>= λ lines. add_lines f.stem lines m

  unfoldable pub add_files : List TagFile → Multimap → Outcome Multimap
  add_files [] m = done m
  add_files (f ∷ fs) m = add_file f m >>= add_files fs

  unfoldable pub load_tag_files : Directory → Outcome Multimap
  load_tag_files no_directory = done []
  load_tag_files missing = raised os_error
  load_tag_files not_a_directory = raised os_error
  load_tag_files (files fs) = add_files fs []
