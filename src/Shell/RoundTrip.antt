-- ===== src/Shell/RoundTrip.antt =====
-- A command that is printed and parsed gives its words back.
use sbu_os.Prelude.{
  ℕ, zero, suc, ◌≤◌, ◌<◌, ◌≡◌, refl, true, false, none, some, List, [], ◌∷◌, arith, ltb, leb, ◌==◌,
  ◌>>=◌, map, length, length-append, length-map,
}
use sbu_os.Paths.{last}
use sbu_os.Shell.{
  is_empty, remove_space_on_the_end, split_at, number_of_tokens, all_fit, parse_command,
  is_background, is_ampercent, end_argv, parse_by_space, parse_processes, process_command,
}
use sbu_os.Shell.Split.{
  join, Without, AllWithout, split_at-join, Neat, strip_extra_space-Neat, strip_end-Neat,
  strip_front-Neat, AreWords, Neat-words, AllNeat, Neat-join, Without-join,
}

remove_space-Neat :
    (front : ℕ) (t : List ℕ)
    → Neat true t
    → length t < 100
    → (remove_space_on_the_end front t ≡ some t) × (is_empty t ≡ false)
unfolding remove_space_on_the_end
remove_space-Neat front [] n l = absurd (cc n)
remove_space-Neat front (c ∷ cs) n l =
    let ended = strip_end-Neat true (c ∷ cs) n in
    let fronted = strip_front-Neat c cs n in
    let fits : ltb (length (c ∷ cs)) 100 ≡ true = ground (arith, l) in
    (rw (remove_space_on_the_end, ended, fronted, fits) refl, refl)

last-Without :
    (front x : ℕ) (t : List ℕ)
    → is_empty t ≡ false
    → Without x t
    → elim (last t) [ none ↦ front == x | some c ↦ c == x ] ≡ false
last-Without front x [] e w = absurd (cc e)
last-Without front x (c ∷ []) e w = w.0
last-Without front x (c ∷ d ∷ cs) e w = last-Without front x (d ∷ cs) refl w.1

is_ampercent-Without : (t : List ℕ) → Without b'&' t → is_ampercent t ≡ false
is_ampercent-Without [] w = refl
is_ampercent-Without (c ∷ []) w = w.0
is_ampercent-Without (c ∷ d ∷ cs) w = refl

end_argv-words :
    (front left : ℕ) (ts : List (List ℕ))
    → AreWords ts
    → AllWithout b'&' ts
    → length ts < left
    → end_argv front left ts ≡ some ts
unfolding end_argv
end_argv-words front left [] a w l = refl
end_argv-words front zero (t ∷ ts) a w l = absurd (omega arith)
end_argv-words front (suc left) (t ∷ []) a w l =
    let room : (left == 0) ≡ false = ground (arith, l) in
    let one = is_ampercent-Without t w.0 in
    let full : is_empty t ≡ false = a.0 in
    let no = last-Without front b'&' t full w.0 in rw (end_argv, one, room, full, no) refl
end_argv-words front (suc left) (t ∷ u ∷ ts) a w l =
    let rest = end_argv-words front left (u ∷ ts) a.2 w.1 (omega arith) in rw (end_argv, rest) refl

-- The parts of a joined text are no longer than it.
all_fit-join : (x : ℕ) (ts : List (List ℕ)) → length (join x ts) < 50 → all_fit ts ≡ true
all_fit-join x [] l = refl
all_fit-join x (t ∷ []) l = ground (arith, l)
all_fit-join x (t ∷ u ∷ ts) l =
    let sum = length-append t (x ∷ join x (u ∷ ts)) in
    let rest = all_fit-join x (u ∷ ts) (omega arith) in
    let here : ltb (length t) 50 ≡ true = ground (arith, l, sum) in rw (here, rest) refl

-- A command of words: at least one and fewer than 20, none with a '|' or a '&', and as a text shorter
-- than the buffer of a token.
abbrev pub IsCommand : List (List ℕ) → Type 0
IsCommand ws =
    (0 < length ws)
    × AreWords ws
    × AllWithout b'|' ws
    × AllWithout b'&' ws
    × (length (join b' ' ws) < 50)
    × (length ws < 20)

abbrev pub AllCommands : List (List (List ℕ)) → Type 0
AllCommands [] = Unit {0}
AllCommands (ws ∷ cs) = IsCommand ws × AllCommands cs

IsCommand-Neat : (ws : List (List ℕ)) → IsCommand ws → Neat true (join b' ' ws)
IsCommand-Neat [] c = absurd (omega (arith, c.0))
IsCommand-Neat (t ∷ ts) c = Neat-words t ts c.1

AreWords-Without : (ts : List (List ℕ)) → AreWords ts → AllWithout b' ' ts
AreWords-Without [] a = tt
AreWords-Without (t ∷ ts) a = (a.1, AreWords-Without ts a.2)

parse_by_space-join :
    (front : ℕ) (ws : List (List ℕ)) → IsCommand ws → parse_by_space front (join b' ' ws) ≡ some ws
unfolding parse_by_space
parse_by_space-join front [] c = absurd (omega (arith, c.0))
parse_by_space-join front (t ∷ ts) c =
    let (_, words, _, no_amp, short, few) = c in
    let parts = split_at-join b' ' t ts (AreWords-Without (t ∷ ts) words) in
    let fit = all_fit-join b' ' (t ∷ ts) short in
    let ends = end_argv-words front 20 (t ∷ ts) words no_amp few in
    rw (parse_by_space, parts, fit) ends

-- The texts of the commands.
abbrev pub texts : List (List (List ℕ)) → List (List ℕ)
texts cs = map (join b' ') cs

parse_processes-texts :
    (front : ℕ) (cs : List (List (List ℕ)))
    → AllCommands cs
    → parse_processes front (texts cs) ≡ some cs
unfolding parse_processes
parse_processes-texts front [] a = refl
parse_processes-texts front (ws ∷ cs) (c, a) =
    let neat = IsCommand-Neat ws c in
    let short = c.4 in
    let trimmed = (remove_space-Neat front (join b' ' ws) neat (omega arith)).0 in
    let same = strip_extra_space-Neat true (join b' ' ws) neat in
    let words = parse_by_space-join front ws c in
    let rest = parse_processes-texts front cs a in
    rw (parse_processes, trimmed, ◌>>=◌, same, words, rest) refl

AllCommands-Without :
    (x : ℕ) (cs : List (List (List ℕ)))
    → (b' ' == x) ≡ false
    → ((ws : List (List ℕ)) → IsCommand ws → AllWithout x ws)
    → AllCommands cs
    → AllWithout x (texts cs)
AllCommands-Without x [] other each a = tt
AllCommands-Without x (ws ∷ cs) other each (c, a) =
    (Without-join x b' ' ws other (each ws c), AllCommands-Without x cs other each a)

AllCommands-AllNeat : (cs : List (List (List ℕ))) → AllCommands cs → AllNeat (texts cs)
AllCommands-AllNeat [] a = tt
AllCommands-AllNeat (ws ∷ cs) (c, a) = (IsCommand-Neat ws c, AllCommands-AllNeat cs a)

texts-all_fit : (cs : List (List (List ℕ))) → AllCommands cs → all_fit (texts cs) ≡ true
texts-all_fit [] a = refl
texts-all_fit (ws ∷ cs) (c, a) =
    let rest = texts-all_fit cs a in
    let here : ltb (length (join b' ' ws)) 50 ≡ true = ground (arith, c.4) in rw (here, rest) refl

Neat-some : (t : List ℕ) → Neat true t → is_empty t ≡ false
Neat-some [] n = absurd (cc n)
Neat-some (c ∷ cs) n = refl

is_background-texts :
    (front : ℕ) (ts : List (List ℕ))
    → AllNeat ts
    → AllWithout b'&' ts
    → is_background front ts ≡ false
unfolding is_background
is_background-texts front [] n w = refl
is_background-texts front (t ∷ []) n w = last-Without front b'&' t (Neat-some t n.0) w.0
is_background-texts front (t ∷ u ∷ ts) n w = is_background-texts front (u ∷ ts) n.1 w.1

-- The text of up to 20 commands of words, a space between two words and a '|' between two commands,
-- shorter than 100 bytes, is parsed to the job in the foreground whose processes have just these words
-- as arguments. A command is of at least one word and fewer than 20, has no '|' or '&', and is shorter
-- than 50 bytes; a word is not empty and has no space.
pub process_command-join :
    (front : ℕ) (c : List (List ℕ)) (cs : List (List (List ℕ)))
    → AllCommands (c ∷ cs)
    → length (c ∷ cs) ≤ 20
    → length (join b'|' (texts (c ∷ cs))) < 100
    → process_command front (join b'|' (texts (c ∷ cs)))
      ≡ some (some (record { is_background = false; processes = c ∷ cs }))
unfolding process_command parse_command
process_command-join front c cs a few short =
    let ts = texts (c ∷ cs) in
    let t = join b'|' ts in
    let neat = AllCommands-AllNeat (c ∷ cs) a in
    let (whole, some_text) =
      remove_space-Neat front t (Neat-join b'|' (join b' ' c) (texts cs) refl neat) short in
    let bars = AllCommands-Without b'|' (c ∷ cs) refl (λ ws k. k.2) a in
    let amps = AllCommands-Without b'&' (c ∷ cs) refl (λ ws k. k.3) a in
    let parts : split_at b'|' [] t ≡ ts = split_at-join b'|' (join b' ' c) (texts cs) bars in
    let fit = texts-all_fit (c ∷ cs) a in
    let count : leb (length ts) number_of_tokens ≡ true =
      ground (arith, few, length-map (c ∷ cs) (join b' ')) in
    let parsed : parse_command front t ≡ some ts =
      rw (parse_command, whole, ◌>>=◌, some_text, parts, fit, count) refl in
    let processes' = parse_processes-texts front (c ∷ cs) a in
    let shown = is_background-texts front ts neat amps in
    let job : (length ts == 0) ≡ false = ground arith in
    rw (process_command, parsed, ◌>>=◌, processes', shown, job) refl
