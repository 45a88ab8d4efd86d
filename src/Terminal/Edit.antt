-- ===== src/Terminal/Edit.antt =====
-- The line that is typed.
use sbu_os.Prelude.{
  ℕ, zero, suc, ◌+◌, ◌-◌, ◌≤◌, ◌<◌, ◌≡◌, ◌≢◌, refl, ap, sym, ◌∙◌, some, List, [], ◌∷◌, ◌++◌, arith,
  ◌==◌, if◌then◌else◌, set, take, length, length-set, length-take, Bool-cases, inl, inr, ◌>>=◌,
}
use sbu_os.Pipe.{write}
use sbu_os.Pipe.Inv.{IsValid, contents}
use sbu_os.Pipe.Write.{write_refines}
use sbu_os.Pipe.Queue as Queue
use sbu_os.Terminal.{
  input_buffer_length, Terminal, send_line, interrupt, edit_line, show_line, terminal_input_ascii,
  input_all,
}

-- What the user has typed.
abbrev pub line : Terminal → List ℕ
line s = take s.terminal_buffer_end s.terminal_buffer

pub record TerminalValid (s : Terminal) : Type 0 where
  pub buffer_size_of : length s.terminal_buffer ≡ input_buffer_length
  pub end_in : s.terminal_buffer_end ≤ input_buffer_length
  pub pipe_out : IsValid s.terminal_out.output

-- The line after a character.
abbrev pub edited : List ℕ → (ascii : ℕ) → List ℕ
edited l ascii =
    if ascii == b'\n'
    then []
    else if ascii == 8
    then take (length l - 1) l
    else if ascii == 24
    then l
    else l ++ (ascii ∷ [])

-- What the processes can read after it: a line feed sends the line.
abbrev pub sent : Queue.Queue → List ℕ → (ascii : ℕ) → Queue.Queue
sent q l ascii = if ascii == b'\n' then (Queue.put q (l ++ (ascii ∷ []))).1 else q

take-set_self :
    (xs : List ℕ) (n v : ℕ) → n < length xs → take (suc n) (set xs n v) ≡ take n xs ++ (v ∷ [])
take-set_self [] n v h = absurd (omega arith)
take-set_self (x ∷ xs) zero v h = refl
take-set_self (x ∷ xs) (suc n) v h = ap (λ t. x ∷ t) (take-set_self xs n v (omega arith))

take-set_le : (xs : List ℕ) (k n v : ℕ) → k ≤ n → take k (set xs n v) ≡ take k xs
take-set_le xs zero n v h = refl
take-set_le [] (suc k) n v h = refl
take-set_le (x ∷ xs) (suc k) zero v h = absurd (omega arith)
take-set_le (x ∷ xs) (suc k) (suc n) v h = ap (λ t. x ∷ t) (take-set_le xs k n v (omega arith))

take-take : (xs : List ℕ) (k n : ℕ) → k ≤ n → take k (take n xs) ≡ take k xs
take-take xs zero n h = refl
take-take xs (suc k) zero h = absurd (omega arith)
take-take [] (suc k) (suc n) h = refl
take-take (x ∷ xs) (suc k) (suc n) h = ap (λ t. x ∷ t) (take-take xs k n (omega arith))

-- The result of a character that the line editor takes.
pub record Edits (s : Terminal) (ascii : ℕ) (t : Terminal) : Type 0 where
  pub line_of : line t ≡ edited (line s) ascii
  pub sends : contents t.terminal_out.output ≡ sent (contents s.terminal_out.output) (line s) ascii
  pub valid : TerminalValid t

-- The character is in the buffer.
abbrev typed : Terminal → ℕ → Terminal
typed s ascii = record s {
  terminal_buffer = set s.terminal_buffer s.terminal_buffer_end ascii;
  terminal_buffer_end = s.terminal_buffer_end + 1;
}

edit_line-plain :
    (s : Terminal) (ascii : ℕ)
    → ascii ≢ b'\n'
    → ascii ≢ 8
    → ascii ≢ 24
    → edit_line (typed s ascii) ascii ≡ some (typed s ascii)
unfolding edit_line
edit_line-plain s ascii a b c = ground arith

module _ (s : Terminal) (ascii : ℕ) (v : TerminalValid s) (h : s.terminal_buffer_end < 255) where
  line-typed : line (typed s ascii) ≡ line s ++ (ascii ∷ [])
  line-typed =
      ap (λ n. take n (set s.terminal_buffer s.terminal_buffer_end ascii))
        {y = suc s.terminal_buffer_end} (omega arith)
      ∙ take-set_self s.terminal_buffer s.terminal_buffer_end ascii
          (omega (arith, v.buffer_size_of))

  length-line : length (line s) ≡ s.terminal_buffer_end
  length-line = omega (arith, length-take s.terminal_buffer_end s.terminal_buffer, v.buffer_size_of)

  length-typed : length (set s.terminal_buffer s.terminal_buffer_end ascii) ≡ 256
  length-typed = length-set s.terminal_buffer s.terminal_buffer_end ascii ∙ v.buffer_size_of

  wrote :
      (bytes : List ℕ)
      → let (n, out, _) = write s.terminal_out (λ q. (s.kernel.procs q).on_hold) bytes in
        ((n, contents out.output) ≡ Queue.put (contents s.terminal_out.output) bytes)
        × IsValid out.output
  wrote bytes = write_refines s.terminal_out (λ q. (s.kernel.procs q).on_hold) bytes v.pipe_out

  edit_line-line_feed :
      ascii ≡ b'\n'
      → (t : Terminal) × (edit_line (typed s ascii) ascii ≡ some t) × Edits s ascii (show_line t)
  unfolding edit_line
  edit_line-line_feed e = (
    send_line (typed s ascii),
    ground arith,
    record {
      line_of = rw e refl;
      sends =
          ap (λ r. r.1)
            (wrote (
              take (s.terminal_buffer_end + 1) (
                set (set s.terminal_buffer s.terminal_buffer_end ascii) (s.terminal_buffer_end + 1)
                  0))).0
          ∙ ap (λ l. (Queue.put (contents s.terminal_out.output) l).1)
              (take-set_le (set s.terminal_buffer s.terminal_buffer_end ascii)
                  (s.terminal_buffer_end + 1) (s.terminal_buffer_end + 1) 0 (omega arith)
                ∙ line-typed)
          ∙ sent-line_feed;
      valid = record {
        buffer_size_of =
            length-set (set s.terminal_buffer s.terminal_buffer_end ascii)
              (s.terminal_buffer_end + 1) 0
            ∙ length-typed;
        end_in = omega arith;
        pipe_out =
            (wrote (
              take (s.terminal_buffer_end + 1) (
                set (set s.terminal_buffer s.terminal_buffer_end ascii) (s.terminal_buffer_end + 1)
                  0))).1;
      };
    },
  )
    where
      sent-line_feed :
          (Queue.put (contents s.terminal_out.output) (line s ++ (ascii ∷ []))).1
          ≡ sent (contents s.terminal_out.output) (line s) ascii
      sent-line_feed = rw e refl

  edit_line-backspace :
      ascii ≡ 8
      → (t : Terminal) × (edit_line (typed s ascii) ascii ≡ some t) × Edits s ascii (show_line t)
  unfolding edit_line
  edit_line-backspace e = (
    record (typed s ascii) { terminal_buffer_end = s.terminal_buffer_end - 1 },
    ground arith,
    record {
      line_of =
          take-set_le s.terminal_buffer (s.terminal_buffer_end - 1) s.terminal_buffer_end ascii
            (omega arith)
          ∙ sym (
              take-take s.terminal_buffer (s.terminal_buffer_end - 1) s.terminal_buffer_end
                (omega arith))
          ∙ ap (λ k. take k (line s)) {y = length (line s) - 1} (omega (arith, length-line))
          ∙ edited-backspace;
      sends = rw e refl;
      valid = record { buffer_size_of = length-typed; end_in = omega arith; pipe_out = v.pipe_out };
    },
  )
    where
      edited-backspace : take (length (line s) - 1) (line s) ≡ edited (line s) ascii
      edited-backspace = rw e refl

  edit_line-control_c :
      ascii ≡ 24
      → (t : Terminal) × (edit_line (typed s ascii) ascii ≡ some t) × Edits s ascii (show_line t)
  unfolding edit_line
  edit_line-control_c e = (
    record (typed s ascii) {
      terminal_buffer_end = s.terminal_buffer_end + 1 - 1;
      kernel = interrupt (typed s ascii);
    },
    ground arith,
    record {
      line_of =
          ap (λ n. take n (set s.terminal_buffer s.terminal_buffer_end ascii))
            {y = s.terminal_buffer_end} (omega arith)
          ∙ take-set_le s.terminal_buffer s.terminal_buffer_end s.terminal_buffer_end ascii
              (omega arith)
          ∙ edited-control_c;
      sends = rw e refl;
      valid = record { buffer_size_of = length-typed; end_in = omega arith; pipe_out = v.pipe_out };
    },
  )
    where
      edited-control_c : line s ≡ edited (line s) ascii
      edited-control_c = rw e refl

  edit_line-other :
      ascii ≢ b'\n'
      → ascii ≢ 8
      → ascii ≢ 24
      → (t : Terminal) × (edit_line (typed s ascii) ascii ≡ some t) × Edits s ascii (show_line t)
  unfolding edit_line
  edit_line-other a b c = (
    typed s ascii,
    edit_line-plain s ascii a b c,
    record {
      line_of = line-typed ∙ edited-other;
      sends = ground arith;
      valid = record { buffer_size_of = length-typed; end_in = omega arith; pipe_out = v.pipe_out };
    },
  )
    where
      edited-other : line s ++ (ascii ∷ []) ≡ edited (line s) ascii
      edited-other = ground arith

  edit_line-Edits :
      (t : Terminal) × (edit_line (typed s ascii) ascii ≡ some t) × Edits s ascii (show_line t)
  edit_line-Edits = elim (Bool-cases (ascii == b'\n')) [
    | inl feed ↦ edit_line-line_feed (ground arith)
    | inr not_feed ↦ elim (Bool-cases (ascii == 8)) [
      | inl back ↦ edit_line-backspace (ground arith)
      | inr not_back ↦ elim (Bool-cases (ascii == 24)) [
        | inl control ↦ edit_line-control_c (ground arith)
        | inr other ↦ edit_line-other (ground arith) (ground arith) (ground arith)
      ]
    ]
  ]

-- With a place free, `edit_line` decides.
input_room :
    (s : Terminal) (ascii : ℕ)
    → s.terminal_buffer_end < input_buffer_length
    → {t : Terminal} → edit_line (typed s ascii) ascii ≡ some t
    → terminal_input_ascii s ascii ≡ some (show_line t)
unfolding terminal_input_ascii
input_room s ascii h e = ground arith

-- As long as two places of the buffer are free, a character edits the line: a line feed sends the line
-- with it and starts a new one, backspace removes the last character, and control-c leaves the line
-- as it is; the terminal stays valid.
pub terminal_input_ascii-Edits :
    (s : Terminal) (ascii : ℕ)
    → TerminalValid s
    → s.terminal_buffer_end < 255
    → (t : Terminal) × (terminal_input_ascii s ascii ≡ some t) × Edits s ascii t
terminal_input_ascii-Edits s ascii v h =
    let (t, e, edits) = edit_line-Edits s ascii v h in
    (show_line t, input_room s ascii (omega arith) e, edits)

terminal_input_ascii-full :
    (s : Terminal) (ascii : ℕ)
    → s.terminal_buffer_end ≡ input_buffer_length
    → terminal_input_ascii s ascii ≡ some s
unfolding terminal_input_ascii
terminal_input_ascii-full s ascii e = ground arith

-- A terminal whose buffer is full takes no character any more, not even a line feed or a backspace.
input_all-full :
    (cs : List ℕ) (s : Terminal)
    → s.terminal_buffer_end ≡ input_buffer_length
    → input_all s cs ≡ some s
unfolding input_all
input_all-full [] s e = refl
input_all-full (c ∷ cs) s e =
    ap (λ o. o >>= λ t. input_all t cs) (terminal_input_ascii-full s c e) ∙ input_all-full cs s e

-- A character that fills the last place of the buffer, and is none of the three special ones, jams
-- the terminal: whatever is typed behind it changes nothing.
pub terminal_input_ascii_jams :
    (s : Terminal) (ascii : ℕ) (cs : List ℕ)
    → s.terminal_buffer_end ≡ 255
    → ascii ≢ b'\n'
    → ascii ≢ 8
    → ascii ≢ 24
    → input_all s (ascii ∷ cs) ≡ terminal_input_ascii s ascii
unfolding input_all
terminal_input_ascii_jams s ascii cs e a b c =
    ap (λ o. o >>= λ t. input_all t cs) fills
    ∙ input_all-full cs (show_line (typed s ascii)) (omega arith)
    ∙ sym fills
  where
    fills : terminal_input_ascii s ascii ≡ some (show_line (typed s ascii))
    fills = input_room s ascii (omega arith) (edit_line-plain s ascii a b c)
