-- ===== src/Syscall/ExecStack.antt =====
-- sys/idt.c, sys_exec: the initial stack of a program, as words for the pointers and the bytes of the
-- texts behind them, and its relocation to the address where it is copied to. `argv` and `envp` are
-- lists of texts without their 0.
use sbu_os.Prelude.{
  ℕ, zero, suc, ◌+◌, ◌-◌, ◌*◌, ◌%◌, ◌^◌, ◌≤◌, ◌<◌, ◌≡◌, refl, ap, sym, ◌∙◌, false, List, [], ◌∷◌,
  ◌++◌, append-nil, append_assoc, arith, ◌==◌, if◌then◌else◌, drop, length, length-append,
}

-- `initial_stack`: the words up to `pointer_ends`, and the bytes behind it.
pub record Image : Type 0 where
  pub pointer_words : List ℕ
  pub string_bytes : List ℕ

-- `pointer_ends`
abbrev pub pointer_ends : (argv envp : List (List ℕ)) → ℕ
pointer_ends argv envp = 3 * 8 + 8 * length argv + 8 * length envp

-- The texts, each with its 0, one behind the other.
unfoldable pub text_bytes : List (List ℕ) → List ℕ
text_bytes [] = []
text_bytes (s ∷ ss) = s ++ (0 ∷ text_bytes ss)

-- The addresses of the texts, from `str_cur` on.
unfoldable pub pointers : (str_cur : ℕ) → List (List ℕ) → List ℕ
pointers str_cur [] = []
pointers str_cur (s ∷ ss) = str_cur ∷ pointers (str_cur + (length s + 1)) ss

-- The stack that is built.
unfoldable pub initial_stack : (argv envp : List (List ℕ)) → Image
unfolding text_bytes pointers
initial_stack argv envp =
    let ends = pointer_ends argv envp in
    record {
      pointer_words =
          length argv
          ∷ (pointers ends argv
              ++ (0 ∷ (pointers (ends + length (text_bytes argv)) envp ++ (0 ∷ []))));
      string_bytes = text_bytes argv ++ text_bytes envp;
    }

-- The loops that add `rsp` to each word up to a 0, one loop behind the other.
unfoldable pub relocate_loops : (loops rsp : ℕ) → List ℕ → List ℕ
relocate_loops zero rsp ws = ws
relocate_loops (suc loops) rsp [] = []
relocate_loops (suc loops) rsp (w ∷ ws) =
    let next = relocate_loops loops rsp ws in
    let rest = relocate_loops (suc loops) rsp ws in
    if w == 0 then 0 ∷ next else (w + rsp) % 2 ^ 64 ∷ rest

-- `rsp_c = rsp + 1` and the two loops.
unfoldable pub relocate : (rsp : ℕ) → Image → Image
unfolding relocate_loops
relocate rsp i = record i {
  pointer_words = elim i.pointer_words [ [] ↦ [] | argc ∷ ws ↦ argc ∷ relocate_loops 2 rsp ws ];
}

-- A text in memory, up to its 0.
abbrev pub c_string : List ℕ → List ℕ
c_string [] = []
c_string (c ∷ cs) = if c == 0 then [] else c ∷ c_string cs

-- The texts that pointers up to a 0 lead to, for bytes that start at `base`, and the words behind.
abbrev pub texts_at : (base : ℕ) → (bytes : List ℕ) → List ℕ → List (List ℕ) × List ℕ
texts_at base bytes [] = ([], [])
texts_at base bytes (w ∷ ws) =
    let (ss, rest) = texts_at base bytes ws in
    if w == 0 then ([], ws) else (c_string (drop (w - base) bytes) ∷ ss, rest)

-- What a program finds on its stack: `argc`, `argv` and `envp`.
abbrev pub arguments : (base : ℕ) → Image → ℕ × List (List ℕ) × List (List ℕ)
arguments base i = elim i.pointer_words [
  | [] ↦ (0, [], [])
  | argc ∷ ws ↦
      let (argv, rest) = texts_at base i.string_bytes ws in
      (argc, argv, (texts_at base i.string_bytes rest).0)
]

abbrev pub NoZero : List ℕ → Type 0
NoZero [] = Unit {0}
NoZero (c ∷ cs) = ((c == 0) ≡ false) × NoZero cs

abbrev pub AllNoZero : List (List ℕ) → Type 0
AllNoZero [] = Unit {0}
AllNoZero (s ∷ ss) = NoZero s × AllNoZero ss

c_string-NoZero : (s rest : List ℕ) → NoZero s → c_string (s ++ (0 ∷ rest)) ≡ s
c_string-NoZero [] rest n = refl
c_string-NoZero (c ∷ s) rest n =
    let other = n.0 in rw other (ap (λ z. c ∷ z) (c_string-NoZero s rest n.1))

drop-append : (xs ys : List ℕ) → drop (length xs) (xs ++ ys) ≡ ys
drop-append [] ys = refl
drop-append (x ∷ xs) ys = drop-append xs ys

-- Relocated pointers are the pointers to texts that start elsewhere.
relocate_loops-pointers :
    (loops rsp str_cur : ℕ) (ss : List (List ℕ)) (rest : List ℕ)
    → 0 < str_cur
    → str_cur + length (text_bytes ss) + rsp ≤ 2 ^ 64
    → relocate_loops (suc loops) rsp (pointers str_cur ss ++ (0 ∷ rest))
      ≡ pointers (str_cur + rsp) ss ++ (0 ∷ relocate_loops loops rsp rest)
unfolding relocate_loops pointers text_bytes
relocate_loops-pointers loops rsp str_cur [] rest p l = refl
relocate_loops-pointers loops rsp str_cur (s ∷ ss) rest p l =
    let size = length-append s (0 ∷ text_bytes ss) in
    let some_text : (str_cur == 0) ≡ false = ground (arith, p) in
    let small : (str_cur + rsp) % 2 ^ 64 ≡ str_cur + rsp = omega arith in
    let next : str_cur + (length s + 1) + rsp ≡ str_cur + rsp + (length s + 1) = omega arith in
    rw (relocate_loops, some_text, small)
      (ap (λ z. (str_cur + rsp) ∷ z)
        (relocate_loops-pointers loops rsp (str_cur + (length s + 1)) ss rest (omega arith)
            (omega arith)
          ∙ ap (λ a. pointers a ss ++ (0 ∷ relocate_loops loops rsp rest)) next))

-- Pointers to texts that stand behind other bytes lead to these texts.
texts_at-pointers :
    (base str_cur : ℕ) (pre post : List ℕ) (ss : List (List ℕ)) (rest : List ℕ)
    → 0 < str_cur
    → str_cur ≡ base + length pre
    → AllNoZero ss
    → texts_at base (pre ++ (text_bytes ss ++ post)) (pointers str_cur ss ++ (0 ∷ rest))
      ≡ (ss, rest)
unfolding pointers text_bytes
texts_at-pointers base str_cur pre post [] rest p e n = refl
texts_at-pointers base str_cur pre post (s ∷ ss) rest p e n =
    let some_text : (str_cur == 0) ≡ false = ground (arith, p) in
    let offset : str_cur - base ≡ length pre = omega arith in
    let bytes : (s ++ (0 ∷ text_bytes ss)) ++ post ≡ s ++ (0 ∷ (text_bytes ss ++ post)) =
      append_assoc s (0 ∷ text_bytes ss) post in
    let here : c_string (drop (str_cur - base) (pre ++ ((s ++ (0 ∷ text_bytes ss)) ++ post))) ≡ s =
      ap (λ k. c_string (drop k (pre ++ ((s ++ (0 ∷ text_bytes ss)) ++ post)))) offset
      ∙ ap c_string (drop-append pre ((s ++ (0 ∷ text_bytes ss)) ++ post))
      ∙ ap c_string bytes
      ∙ c_string-NoZero s (text_bytes ss ++ post) n.0 in
    let before = pre ++ (s ++ (0 ∷ [])) in
    let size = length-append pre (s ++ (0 ∷ [])) in
    let size' = length-append s (0 ∷ []) in
    let again : before ++ (text_bytes ss ++ post) ≡ pre ++ ((s ++ (0 ∷ text_bytes ss)) ++ post) =
      append_assoc pre (s ++ (0 ∷ [])) (text_bytes ss ++ post)
      ∙ ap (λ z. pre ++ z) (append_assoc s (0 ∷ []) (text_bytes ss ++ post) ∙ sym bytes) in
    let rest' =
      ap (λ b. texts_at base b (pointers (str_cur + (length s + 1)) ss ++ (0 ∷ rest))) (sym again)
      ∙ texts_at-pointers base (str_cur + (length s + 1)) before post ss rest (omega arith)
          (omega arith) n.1 in
    rw (some_text, here, rest') refl

-- A program whose stack was built from `argv` and `envp`, texts without a 0 in them, and relocated to
-- `rsp`, from where it ends below 2 ^ 64, finds the number of its arguments, and through the pointers
-- just these texts: the bytes of the texts start at `rsp + pointer_ends`.
pub arguments-initial_stack :
    (rsp : ℕ) (argv envp : List (List ℕ))
    → AllNoZero argv
    → AllNoZero envp
    → pointer_ends argv envp + length (text_bytes argv) + length (text_bytes envp) + rsp ≤ 2 ^ 64
    → arguments (rsp + pointer_ends argv envp) (relocate rsp (initial_stack argv envp))
      ≡ (length argv, argv, envp)
unfolding initial_stack relocate
arguments-initial_stack rsp argv envp na ne l =
    let ends = pointer_ends argv envp in
    let base = rsp + ends in
    let ta = text_bytes argv in
    let te = text_bytes envp in
    let mid = ends + length ta in
    let first =
      relocate_loops-pointers 1 rsp ends argv (pointers mid envp ++ (0 ∷ [])) (omega arith)
        (omega arith) in
    let second = relocate_loops-pointers 0 rsp mid envp [] (omega arith) (omega arith) in
    let behind = pointers (mid + rsp) envp ++ (0 ∷ relocate_loops 0 rsp []) in
    let read_first : texts_at base (ta ++ te) (pointers (ends + rsp) argv ++ (0 ∷ behind))
        ≡ (argv, behind) =
      texts_at-pointers base (ends + rsp) [] te argv behind (omega arith) (omega arith) na in
    let read_second : texts_at base (ta ++ (te ++ [])) behind ≡ (envp, relocate_loops 0 rsp []) =
      texts_at-pointers base (mid + rsp) ta [] envp (relocate_loops 0 rsp []) (omega arith)
        (omega arith) ne in
    let whole = append-nil te in
    let read_second' : texts_at base (ta ++ te) behind ≡ (envp, relocate_loops 0 rsp []) =
      ap (λ z. texts_at base (ta ++ z) behind) (sym whole) ∙ read_second in
    rw (first, second, read_first, read_second') refl
