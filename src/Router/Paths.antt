-- ===== src/Router/Paths.antt =====
-- lib/router/directory-router.js, `extractUnescapedDirs`: the directories that a URL path may
-- name. `unescape` is the function of JavaScript, a parameter.
pub mod Safety
use shiny_server.Prelude.{
  ℕ, Bool, true, false, not, ◌&&◌, ◌||◌, List, [], ◌∷◌, ◌++◌, Option, none, some, leb, ◌==◌, all,
  if◌then◌else◌, Text, codes, text_eq,
}

pub record Candidate : Type 0 where
  pub path : Text
  pub raw_path : Text

-- The white space of `/\s/`.
unfoldable pub is_space : ℕ → Bool
is_space c =
    (leb 9 c && leb c 13)
    || c == b' '
    || c == 0xa0
    || c == 0x1680
    || (leb 0x2000 c && leb c 0x200a)
    || c == 0x2028
    || c == 0x2029
    || c == 0x202f
    || c == 0x205f
    || c == 0x3000
    || c == 0xfeff

-- A separator of directories, or the backslash of Windows.
unfoldable pub is_slash : ℕ → Bool
is_slash c = c == b'/' || c == 92

unfoldable pub has_slash : Text → Bool
unfolding is_slash
has_slash [] = false
has_slash (c ∷ cs) = is_slash c || has_slash cs

-- What the loop does with an element of the path.
pub data Verdict : Type 0 where
  skip bail take : Verdict

unfoldable pub judge : Text → Verdict
unfolding is_space has_slash text_eq
judge [] = skip
judge (c ∷ cs) =
    if all is_space (c ∷ cs)
    then bail
    else if text_eq (c ∷ cs) (codes "..")
    then bail
    else if text_eq (c ∷ cs) (codes ".")
    then skip
    else if has_slash (c ∷ cs)
    then bail
    else take

-- `pathAccum`, extended by an element.
unfoldable pub extend : Text → Text → Text
extend [] element = element
extend (c ∷ cs) element = (c ∷ cs) ++ (b'/' ∷ element)

unfoldable pub with_candidate : Candidate → Option (List Candidate) → Option (List Candidate)
with_candidate d none = none
with_candidate d (some ds) = some (d ∷ ds)

-- One match of the pattern: `accum` is `pathAccum`, `raw` the path before the match, and `element`
-- the unescaped part since the last slash; `rest` goes on from a path.
unfoldable pub take_element :
    Verdict → Text → Text → Text → (Text → Option (List Candidate)) → Option (List Candidate)
unfolding extend with_candidate
take_element skip accum raw element rest = rest accum
take_element bail accum raw element rest = none
take_element take accum raw element rest =
    with_candidate (record { path = extend accum element; raw_path = raw })
      (rest (extend accum element))

module _ (unescape : Text → Text) where
  -- The loop: a match at each slash, and one at the end.
  unfoldable pub scan : Text → Text → Text → Text → Option (List Candidate)
  unfolding judge take_element
  scan accum raw element [] =
      take_element (judge (unescape element)) accum raw (unescape element) (λ _. some [])
  scan accum raw element (c ∷ cs) =
      if c == b'/'
      then take_element (judge (unescape element)) accum raw (unescape element)
          (λ a. scan a (raw ++ (c ∷ [])) [] cs)
      else scan accum (raw ++ (c ∷ [])) (element ++ (c ∷ [])) cs

  unfoldable pub extract_unescaped_dirs : Text → Option (List Candidate)
  unfolding scan with_candidate
  extract_unescaped_dirs [] = none
  extract_unescaped_dirs (c ∷ cs) =
      if c == b'/'
      then with_candidate (record { path = []; raw_path = [] }) (scan [] [] [] (c ∷ cs))
      else none
