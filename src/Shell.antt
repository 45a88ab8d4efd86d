-- ===== src/Shell.antt =====
-- bin/sbush/sbush_process.c, from the text of a command to a job: `ProcessCommand` down to `execute`,
-- which is left out. A text is the list of its bytes without the 0. What is written behind the end of a
-- buffer makes the result `none`. For an empty text some tests read the byte in front of its
-- buffer; it is taken to be the same for all buffers, `front`. The copy that `ParseCommand` makes is one
-- byte too short for its 0, which is left out.
pub mod Split
pub mod RoundTrip
mod Tests
use sbu_os.Prelude.{
  ℕ, zero, suc, ◌+◌, Bool, true, false, not, ◌&&◌, ◌||◌, Option, none, some, List, [], ◌∷◌, ◌++◌,
  ltb, leb, ◌==◌, if◌then◌else◌, ◌>>=◌, length,
}
use sbu_os.Paths.{last}

-- The job that `execute` gets: the arguments of each process, and whether it runs in the background.
pub record Job : Type 0 where
  pub is_background : Bool
  pub processes : List (List (List ℕ))

-- The first loop of `removeSpaceOnTheEnd`
unfoldable pub strip_end : List ℕ → List ℕ
strip_end [] = []
strip_end (c ∷ cs) = elim (strip_end cs) [
  | [] ↦ if c == b' ' then [] else c ∷ []
  | d ∷ ds ↦ c ∷ d ∷ ds
]

-- The second one
unfoldable pub strip_front : List ℕ → List ℕ
strip_front [] = []
strip_front (c ∷ cs) = let rest = strip_front cs in if c == b' ' then rest else c ∷ cs

abbrev pub is_empty : List ℕ → Bool
is_empty [] = true
is_empty (c ∷ cs) = false

-- `removeSpaceOnTheEnd`: a text of spaces goes on in front of its buffer, and `template` has 100 bytes.
unfoldable pub remove_space_on_the_end : (front : ℕ) → List ℕ → Option (List ℕ)
unfolding strip_end strip_front
remove_space_on_the_end front token =
    let stripped = strip_end token in
    if is_empty stripped && front == b' '
    then none
    else if ltb (length (strip_front stripped)) 100
    then some (strip_front stripped)
    else none

-- `stripExtraSpace`; `after_space` tells that there is nothing or a space in front of the byte.
unfoldable pub strip_extra_space : (after_space : Bool) → List ℕ → List ℕ
strip_extra_space after_space [] = []
strip_extra_space after_space (c ∷ cs) =
    let rest = strip_extra_space (c == b' ') cs in
    if c == b' ' && after_space then rest else c ∷ rest

-- The loop of `ParseCommand` and that of `ParseBySpace`, with what `save_tokenChar` holds.
unfoldable pub split_at : (separator : ℕ) → (save : List ℕ) → List ℕ → List (List ℕ)
split_at separator save [] = save ∷ []
split_at separator save (c ∷ cs) =
    let next = split_at separator [] cs in
    let rest = split_at separator (save ++ (c ∷ [])) cs in
    if c == separator then save ∷ next else rest

-- NUMBER_OF_TOKENS_BY_PIPE, NUMBER_OF_TOKENS_BY_SPACE and NUMBER_OF_CHAR_EACH_TOKEN
abbrev pub number_of_tokens : ℕ
number_of_tokens = 20

abbrev pub number_of_char : ℕ
number_of_char = 50

-- Does each token fit into its buffer, with its 0?
abbrev pub all_fit : List (List ℕ) → Bool
all_fit [] = true
all_fit (t ∷ ts) = ltb (length t) number_of_char && all_fit ts

-- `ParseCommand`; no tokens for an empty text.
unfoldable pub parse_command : (front : ℕ) → List ℕ → Option (List (List ℕ))
unfolding remove_space_on_the_end split_at
parse_command front command = do
  backup ← remove_space_on_the_end front command
  let tokens = split_at b'|' [] backup
  if is_empty backup
      then some []
      else (if all_fit tokens && leb (length tokens) number_of_tokens then some tokens else none)

-- `lastCharIsAmpercent`
abbrev pub last_char_is_ampercent : (front : ℕ) → List ℕ → Bool
last_char_is_ampercent front t = elim (last t) [ none ↦ front == b'&' | some c ↦ c == b'&' ]

-- The last token, for which `isBackground` looks.
unfoldable pub is_background : (front : ℕ) → List (List ℕ) → Bool
is_background front [] = false
is_background front (t ∷ []) = last_char_is_ampercent front t
is_background front (t ∷ u ∷ ts) = is_background front (u ∷ ts)

abbrev pub is_ampercent : List ℕ → Bool
is_ampercent [] = false
is_ampercent (c ∷ []) = c == b'&'
is_ampercent (c ∷ d ∷ cs) = false

-- The text without its last byte.
abbrev pub without_last : List ℕ → List ℕ
without_last [] = []
without_last (c ∷ []) = []
without_last (c ∷ d ∷ cs) = c ∷ without_last (d ∷ cs)

-- The three cases at the end of `ParseBySpace`, on the last token; `left` is the room in `argv`.
unfoldable pub end_argv : (front left : ℕ) → List (List ℕ) → Option (List (List ℕ))
end_argv front left [] = some []
end_argv front zero (t ∷ ts) = none
end_argv front (suc left) (t ∷ []) =
    if is_ampercent t
    then some []
    else if left == 0 || is_empty t && last_char_is_ampercent front t
    then none
    else some ((if last_char_is_ampercent front t then without_last t else t) ∷ [])
end_argv front (suc left) (t ∷ u ∷ ts) = do rest ← end_argv front left (u ∷ ts); some (t ∷ rest)

-- `ParseBySpace`
unfoldable pub parse_by_space : (front : ℕ) → List ℕ → Option (List (List ℕ))
unfolding split_at end_argv
parse_by_space front token =
    let tokens = split_at b' ' [] token in
    if all_fit tokens then end_argv front number_of_tokens tokens else none

-- The loop of `ProcessCommand` over the tokens.
unfoldable pub parse_processes : (front : ℕ) → List (List ℕ) → Option (List (List (List ℕ)))
unfolding remove_space_on_the_end strip_extra_space parse_by_space
parse_processes front [] = some []
parse_processes front (t ∷ ts) = do
  trimmed ← remove_space_on_the_end front t
  argv ← parse_by_space front (strip_extra_space true trimmed)
  rest ← parse_processes front ts
  some (argv ∷ rest)

-- `ProcessCommand`: an inner `none` is the result 0, without a job.
unfoldable pub process_command : (front : ℕ) → List ℕ → Option (Option Job)
unfolding parse_command parse_processes is_background
process_command front command = do
  tokens ← parse_command front command
  if length tokens == 0 then some none else (do
    processes ← parse_processes front tokens
    some (some (record { is_background = is_background front tokens; processes = processes })))
