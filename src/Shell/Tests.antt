-- ===== src/Shell/Tests.antt =====
-- Commands as they are typed.
use sbu_os.Prelude.{◌≡◌, refl, true, false, none, some, [], ◌∷◌, arith}
use sbu_os.Shell.{
  strip_end, strip_front, remove_space_on_the_end, strip_extra_space, split_at, parse_command,
  is_background, end_argv, parse_by_space, parse_processes, process_command,
}
use sbu_os.Shell.RoundTrip.{process_command-join}

-- " ls  -a &"
in_background :
    process_command 0 (b' ' ∷ b'l' ∷ b's' ∷ b' ' ∷ b' ' ∷ b'-' ∷ b'a' ∷ b' ' ∷ b'&' ∷ [])
    ≡ some (
        some (record {
          is_background = true;
          processes = ((b'l' ∷ b's' ∷ []) ∷ (b'-' ∷ b'a' ∷ []) ∷ []) ∷ [];
        }))
unfolding process_command parse_command parse_processes parse_by_space end_argv is_background
    remove_space_on_the_end strip_end strip_front strip_extra_space split_at
in_background = refl

-- An empty command is no job.
no_command : process_command 0 [] ≡ some none
unfolding process_command parse_command remove_space_on_the_end strip_end strip_front split_at
no_command = refl

-- "ls|cat b"
process_command-join_example :
    process_command 0 (b'l' ∷ b's' ∷ b'|' ∷ b'c' ∷ b'a' ∷ b't' ∷ b' ' ∷ b'b' ∷ [])
    ≡ some (
        some (record {
          is_background = false;
          processes =
              ((b'l' ∷ b's' ∷ []) ∷ []) ∷ ((b'c' ∷ b'a' ∷ b't' ∷ []) ∷ (b'b' ∷ []) ∷ []) ∷ [];
        }))
process_command-join_example =
    process_command-join 0 ((b'l' ∷ b's' ∷ []) ∷ [])
      (((b'c' ∷ b'a' ∷ b't' ∷ []) ∷ (b'b' ∷ []) ∷ []) ∷ [])
      (
        (
          omega arith,
          (refl, (refl, (refl, tt)), tt),
          ((refl, (refl, tt)), tt),
          ((refl, (refl, tt)), tt),
          omega arith,
          omega arith,
        ),
        (
          (
            omega arith,
            (refl, (refl, (refl, (refl, tt))), (refl, (refl, tt), tt)),
            ((refl, (refl, (refl, tt))), ((refl, tt), tt)),
            ((refl, (refl, (refl, tt))), ((refl, tt), tt)),
            omega arith,
            omega arith,
          ),
          tt,
        ),
      )
      (omega arith) (omega arith)
