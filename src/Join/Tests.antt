-- ===== src/Join/Tests.antt =====
-- Two parties of a full join, and the theorem at them.
use psi.Prelude.{ℕ, ◌≡◌, refl, true, false, [], ◌∷◌, map, ok, ◌>>=◌}
use psi.Prelude.Bytes.{Bytes}
use psi.Join.{
  receiver, sender, full_join, PsiConfig, make, quoted, more_columns, make_quoted_csv_line, na_line,
  write_output, write_na, generate_result,
}
use psi.Join.Alignment.{joined, shown, null_of, IsParty, generate_result_aligned}

abbrev line : ℕ → Bytes
line n = n ∷ []

abbrev left : PsiConfig
left = record {
  input_is_csv = true;
  output_is_csv = true;
  keys_unique = false;
  advanced_join_type = full_join;
  role = receiver;
  left_side = receiver;
  csv_null_rep = [];
  disable_alignment = false;
}

abbrev right : PsiConfig
right = record left { role = sender }

left-IsParty : IsParty left true
left-IsParty = record {
  input = refl;
  output = refl;
  valid_role = refl;
  valid_side = refl;
  side = refl;
}

right-IsParty : IsParty right false
right-IsParty = record {
  input = refl;
  output = refl;
  valid_role = refl;
  valid_side = refl;
  side = refl;
}

generate_result_aligned_example :
    ((make left >>= λ p.
    generate_result p (line 97 ∷ []) (line 0 ∷ line 1 ∷ []) (line 0 ∷ line 2 ∷ []) 1)
      ≡ (make_quoted_csv_line (line 97 ∷ []) >>= λ header. ok (
          header
          ∷ map
              (λ row. shown (na_line 1 (null_of left)) row.0)
              (joined full_join (line 1 ∷ []) (line 11 ∷ []) (line 2 ∷ []) (line 13 ∷ [])))))
    × ((make right >>= λ p.
          generate_result p (line 98 ∷ []) (line 0 ∷ line 11 ∷ []) (line 0 ∷ line 13 ∷ []) 1)
        ≡ (make_quoted_csv_line (line 98 ∷ []) >>= λ header. ok (
            header
            ∷ map
                (λ row. shown (na_line 1 (null_of right)) row.1)
                (joined full_join (line 1 ∷ []) (line 11 ∷ []) (line 2 ∷ []) (line 13 ∷ [])))))
generate_result_aligned_example =
    generate_result_aligned left right (line 97 ∷ []) (line 98 ∷ []) (line 0) (line 0) (line 0)
      (line 0) (line 1 ∷ []) (line 11 ∷ []) (line 2 ∷ []) (line 13 ∷ []) left-IsParty right-IsParty
      refl refl

left_lines :
    (make left >>= λ p.
    generate_result p (line 97 ∷ []) (line 0 ∷ line 1 ∷ []) (line 0 ∷ line 2 ∷ []) 1)
    ≡ ok ((34 ∷ 97 ∷ 34 ∷ []) ∷ line 1 ∷ line 2 ∷ (78 ∷ 85 ∷ 76 ∷ 76 ∷ []) ∷ [])
unfolding make generate_result make_quoted_csv_line quoted more_columns write_output write_na
    na_line
left_lines = refl
