-- ===== src/Paths/Tests.antt =====
-- Paths that the loop shortens, and the witness.
use sbu_os.Prelude.{◌≡◌, refl, none, some, [], ◌∷◌, arith}
use sbu_os.Paths.{str_collapse, slash_before, this_dir, parent_dir, shorten_path, calculate_path}
use sbu_os.Paths.Plain.{calculate_path-IsPlain}

-- "/ab" and "../c" are "/c".
above :
    calculate_path 20 (b'/' ∷ b'a' ∷ b'b' ∷ []) (b'.' ∷ b'.' ∷ b'/' ∷ b'c' ∷ [])
    ≡ some (b'/' ∷ b'c' ∷ 0 ∷ b'/' ∷ b'.' ∷ b'.' ∷ b'/' ∷ b'c' ∷ 0 ∷ [])
unfolding calculate_path shorten_path this_dir parent_dir str_collapse slash_before
above = refl

-- "/a./b" becomes "/ab": the '.' at the end of a name is taken for the directory itself.
lost_dot :
    calculate_path 20 (b'/' ∷ []) (b'a' ∷ b'.' ∷ b'/' ∷ b'b' ∷ [])
    ≡ some (b'/' ∷ b'a' ∷ b'b' ∷ 0 ∷ b'b' ∷ 0 ∷ [])
unfolding calculate_path shorten_path this_dir parent_dir str_collapse slash_before
lost_dot = refl

-- "/a/." is read behind the end of its buffer.
behind_the_end : calculate_path 20 (b'/' ∷ b'a' ∷ []) (b'.' ∷ []) ≡ none
unfolding calculate_path shorten_path this_dir parent_dir str_collapse slash_before
behind_the_end = refl

calculate_path-IsPlain_example :
    calculate_path 10 (b'/' ∷ b'a' ∷ []) (b'b' ∷ []) ≡ some (b'/' ∷ b'a' ∷ b'/' ∷ b'b' ∷ 0 ∷ [])
calculate_path-IsPlain_example =
    calculate_path-IsPlain 10 (b'/' ∷ b'a' ∷ []) (b'b' ∷ []) b'a' refl (omega arith) (omega arith)
      (omega arith, refl, (omega arith, refl, (omega arith, refl, (omega arith, omega arith))))
      (omega arith)
