-- ===== src/Clusters/Keywords.antt =====
-- The keywords of a statement, `extractKeywords`, and the sets of strings of the language as the lists
-- of their elements in the order of their insertion.
use reasonbridge.Prelude.{
  ℕ, Bool, true, false, not, ◌&&◌, ◌||◌, List, [], ◌∷◌, ◌++◌, map, length, filter, any, ltb, leb,
  ◌==◌, if◌then◌else◌, Text, text, text_eq, is_space, to_lower_case,
}

abbrev has_text : List Text → Text → Bool
has_text set t = any (text_eq t) set

-- `Set.add`
abbrev with_text : Text → List Text → List Text
with_text t set = if has_text set t then set else set ++ t ∷ []

-- A set with further elements.
abbrev pub union_of : List Text → List Text → List Text
union_of set [] = set
union_of set (t ∷ ts) = union_of (with_text t set) ts

abbrev pub intersection_of : List Text → List Text → List Text
intersection_of set1 set2 = filter (has_text set2) set1

abbrev stop_words : List Text
stop_words =
    text "the"
    ∷ text "is"
    ∷ text "at"
    ∷ text "which"
    ∷ text "on"
    ∷ text "a"
    ∷ text "an"
    ∷ text "and"
    ∷ text "or"
    ∷ text "but"
    ∷ text "in"
    ∷ text "with"
    ∷ text "to"
    ∷ text "for"
    ∷ text "of"
    ∷ text "as"
    ∷ text "by"
    ∷ text "that"
    ∷ text "this"
    ∷ text "it"
    ∷ text "from"
    ∷ text "be"
    ∷ text "are"
    ∷ text "was"
    ∷ text "were"
    ∷ text "been"
    ∷ text "have"
    ∷ text "has"
    ∷ text "had"
    ∷ text "do"
    ∷ text "does"
    ∷ text "did"
    ∷ text "will"
    ∷ text "would"
    ∷ text "should"
    ∷ text "could"
    ∷ text "may"
    ∷ text "might"
    ∷ text "can"
    ∷ []

-- `\w`
abbrev pub is_word : ℕ → Bool
is_word c =
    (leb b'a' c && leb c b'z')
    || (leb b'A' c && leb c b'Z')
    || (leb b'0' c && leb c b'9')
    || c == b'_'

-- `/[^\w\s]/g` by a space.
abbrev spaced : ℕ → ℕ
spaced c = if is_word c || is_space c then c else 32

-- `split(/\s+/)`: the string read so far after the last separator, and whether one was just read.
abbrev split_spaces : Text → Bool → Text → List Text
split_spaces cur after [] = cur ∷ []
split_spaces cur after (c ∷ s) = elim (is_space c) [
  | false ↦ split_spaces (cur ++ c ∷ []) false s
  | true ↦ elim after [ true ↦ split_spaces cur true s | false ↦ cur ∷ split_spaces [] true s ]
]

abbrev is_keyword : Text → Bool
is_keyword w = ltb 2 (length w) && not (has_text stop_words w)

unfoldable pub extract_keywords : Text → List Text
unfolding to_lower_case is_space
extract_keywords t =
    union_of [] (filter is_keyword (split_spaces [] false (map spaced (to_lower_case t))))
