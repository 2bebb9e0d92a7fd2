-- ===== src/Join/Alignment.antt =====
-- The outputs of the two parties of a join (psi/utils/join_processor.cc), against the rows of the join.
use psi.Prelude.{
  ℕ, ◌≡◌, refl, Bool, true, false, ◌&&◌, ◌||◌, not, Option, none, some, List, [], ◌∷◌, ◌++◌, map,
  length, replicate, ok, ◌>>=◌, ap, ◌∙◌, arith, if◌then◌else◌,
}
use mathlib.Core.List.{append_assoc, append-nil, map-append}
use psi.Prelude.Bytes.{Bytes, is_nil}
use psi.Join.{
  role_unspecified, receiver, role_eq, type_eq, JoinProcessor, join_unspecified, sender, JoinType,
  inner_join, left_join, right_join, full_join, difference, PsiConfig, effective_type, k_null_rep,
  make, make_quoted_csv_line, write_output, na_line, write_na, generate_result,
}

-- A row of a join: the line of the left party and that of the right one, where it has one.
abbrev pub JoinRow : Type 0
JoinRow = Option Bytes × Option Bytes

abbrev pub both : List Bytes → List Bytes → List JoinRow
both [] rs = []
both (l ∷ ls) [] = []
both (l ∷ ls) (r ∷ rs) = (some l, some r) ∷ both ls rs

abbrev pub only_left : List Bytes → List JoinRow
only_left ls = map (λ l. (some l, none)) ls

abbrev pub only_right : List Bytes → List JoinRow
only_right rs = map (λ r. (none, some r)) rs

-- The rows of each join of the common lines `ls`, `rs` and the other lines `ls'`, `rs'`.
unfoldable pub joined : JoinType → List Bytes → List Bytes → List Bytes → List Bytes → List JoinRow
joined left_join ls rs ls' rs' = both ls rs ++ only_left ls'
joined right_join ls rs ls' rs' = both ls rs ++ only_right rs'
joined full_join ls rs ls' rs' = both ls rs ++ (only_left ls' ++ only_right rs')
joined difference ls rs ls' rs' = only_left ls' ++ only_right rs'
joined _ ls rs ls' rs' = both ls rs

abbrev pub shown : Bytes → Option Bytes → Bytes
shown na none = na
shown na (some line) = line

abbrev pub null_of : PsiConfig → Bytes
null_of config = if is_nil config.csv_null_rep then k_null_rep else config.csv_null_rep

-- A configuration that the constructor takes, of a party on the given side.
pub record IsParty (config : PsiConfig) (is_left : Bool) : Type 0 where
  pub input : config.input_is_csv ≡ true
  pub output : config.output_is_csv ≡ true
  pub valid_role : (role_eq config.role sender || role_eq config.role receiver) ≡ true
  pub valid_side : role_eq config.left_side role_unspecified ≡ false
  pub side : role_eq config.role config.left_side ≡ is_left

-- What the constructor sets, for the type of the join and the side.
abbrev processor : PsiConfig → JoinType → JoinProcessor
processor config type = record {
  is_input_key_unique = config.keys_unique;
  csv_null_rep = null_of config;
  align_output = not config.disable_alignment;
  type = type;
  role = config.role;
  left_side = config.left_side;
  has_intersect_path = not (type_eq type difference);
  has_except_path =
      type_eq type difference
      || (type_eq type full_join
          || (type_eq type left_join && role_eq config.left_side config.role
              || type_eq type right_join && not (role_eq config.left_side config.role)));
}

make-processor :
    (config : PsiConfig) (is_left : Bool)
    → IsParty config is_left
    → make config ≡ ok (processor config (effective_type config.advanced_join_type))
unfolding make
make-processor config is_left party =
    let t = type_eq (effective_type config.advanced_join_type) inner_join in
    let sides : (t || not (role_eq config.left_side role_unspecified)) ≡ true =
      ap (λ b. t || not b) party.valid_side
      ∙ (let always : (t || true) ≡ true = ground arith in always) in
    rw (party.input, party.output, party.valid_role, sides) refl

module _ (na : Bytes) where
  shown_left-both :
      (ls rs : List Bytes) → length ls ≡ length rs → map (λ row. shown na row.0) (both ls rs) ≡ ls
  shown_left-both [] rs e = refl
  shown_left-both (l ∷ ls) [] e = absurd (omega (arith, e))
  shown_left-both (l ∷ ls) (r ∷ rs) e = ap (λ t. l ∷ t) (shown_left-both ls rs (omega (arith, e)))

  shown_right-both :
      (ls rs : List Bytes) → length ls ≡ length rs → map (λ row. shown na row.1) (both ls rs) ≡ rs
  shown_right-both [] [] e = refl
  shown_right-both [] (r ∷ rs) e = absurd (omega (arith, e))
  shown_right-both (l ∷ ls) [] e = absurd (omega (arith, e))
  shown_right-both (l ∷ ls) (r ∷ rs) e = ap (λ t. r ∷ t) (shown_right-both ls rs (omega (arith, e)))

  shown_left-only_left : (ls : List Bytes) → map (λ row. shown na row.0) (only_left ls) ≡ ls
  shown_left-only_left [] = refl
  shown_left-only_left (l ∷ ls) = ap (λ t. l ∷ t) (shown_left-only_left ls)

  shown_right-only_right : (rs : List Bytes) → map (λ row. shown na row.1) (only_right rs) ≡ rs
  shown_right-only_right [] = refl
  shown_right-only_right (r ∷ rs) = ap (λ t. r ∷ t) (shown_right-only_right rs)

  shown_left-only_right :
      (rs : List Bytes) → map (λ row. shown na row.0) (only_right rs) ≡ replicate (length rs) na
  shown_left-only_right [] = refl
  shown_left-only_right (r ∷ rs) = ap (λ t. na ∷ t) (shown_left-only_right rs)

  shown_right-only_left :
      (ls : List Bytes) → map (λ row. shown na row.1) (only_left ls) ≡ replicate (length ls) na
  shown_right-only_left [] = refl
  shown_right-only_left (l ∷ ls) = ap (λ t. na ∷ t) (shown_right-only_left ls)

flipped :
    (config : PsiConfig) {b : Bool}
    → role_eq config.role config.left_side ≡ b
    → role_eq config.left_side config.role ≡ b
flipped config {b} e = ground (arith, e)

-- The lines that `generate_result` writes after the header.
body_of : JoinType → Bool → Bytes → List Bytes → List Bytes → ℕ → List Bytes
body_of type is_left na intersect except peer_except_cnt =
    let na_lines = replicate peer_except_cnt na in
    write_output (not (type_eq type difference)) intersect
    ++ (if not is_left
          && (type_eq type left_join || (type_eq type difference || type_eq type full_join))
        then na_lines
        else [])
    ++ write_output
        (type_eq type difference
          || (type_eq type full_join
              || (type_eq type left_join && is_left || type_eq type right_join && not is_left)))
        except
    ++ (if is_left
          && (type_eq type right_join || (type_eq type difference || type_eq type full_join))
        then na_lines
        else [])

generate_result-body_of :
    (config : PsiConfig) (is_left : Bool) (type : JoinType) (columns intersect except : List Bytes)
    (cnt : ℕ)
    → IsParty config is_left
    → generate_result (processor config type) columns intersect except cnt ≡ (
        make_quoted_csv_line columns >>= λ header. ok (
          header
          ∷ body_of type is_left (na_line (length columns) (null_of config)) intersect except cnt))
unfolding generate_result body_of write_na
generate_result-body_of config is_left type columns intersect except cnt party =
    rw (party.side, flipped config party.side) refl

module _ (h h' : Bytes) (ls rs ls' rs' : List Bytes) (paired : length ls ≡ length rs) where
  left_body :
      (type : JoinType) (na : Bytes)
      → body_of type true na (h ∷ ls) (h' ∷ ls') (length rs')
        ≡ map (λ row. shown na row.0) (joined type ls rs ls' rs')
  unfolding body_of write_output joined
  left_body join_unspecified na = simp (shown_left-both na ls rs paired, append-nil)
  left_body inner_join na = simp (shown_left-both na ls rs paired, append-nil)
  left_body left_join na =
      simp (map-append, shown_left-both na ls rs paired, shown_left-only_left na ls', append-nil)
  left_body right_join na =
      simp (map-append, shown_left-both na ls rs paired, shown_left-only_right na rs', append-nil)
  left_body full_join na = simp (
    map-append,
    append_assoc,
    shown_left-both na ls rs paired,
    shown_left-only_left na ls',
    shown_left-only_right na rs',
    append-nil,
  )
  left_body difference na =
      simp (map-append, shown_left-only_left na ls', shown_left-only_right na rs')

  right_body :
      (type : JoinType) (na : Bytes)
      → body_of type false na (h ∷ rs) (h' ∷ rs') (length ls')
        ≡ map (λ row. shown na row.1) (joined type ls rs ls' rs')
  unfolding body_of write_output joined
  right_body join_unspecified na = simp (shown_right-both na ls rs paired, append-nil)
  right_body inner_join na = simp (shown_right-both na ls rs paired, append-nil)
  right_body left_join na =
      simp (map-append, shown_right-both na ls rs paired, shown_right-only_left na ls', append-nil)
  right_body right_join na =
      simp (map-append, shown_right-both na ls rs paired, shown_right-only_right na rs', append-nil)
  right_body full_join na = simp (
    map-append,
    append_assoc,
    shown_right-both na ls rs paired,
    shown_right-only_right na rs',
    shown_right-only_left na ls',
    append-nil,
  )
  right_body difference na =
      simp (map-append, shown_right-only_right na rs', shown_right-only_left na ls', append-nil)

joined-effective_type :
    (type : JoinType) (ls rs ls' rs' : List Bytes)
    → joined (effective_type type) ls rs ls' rs' ≡ joined type ls rs ls' rs'
unfolding joined
joined-effective_type join_unspecified ls rs ls' rs' = refl
joined-effective_type inner_join ls rs ls' rs' = refl
joined-effective_type left_join ls rs ls' rs' = refl
joined-effective_type right_join ls rs ls' rs' = refl
joined-effective_type full_join ls rs ls' rs' = refl
joined-effective_type difference ls rs ls' rs' = refl

-- One party's output, where the body of it is known.
party_output :
    (config : PsiConfig) (is_left : Bool) (columns intersect except body : List Bytes) (cnt : ℕ)
    → IsParty config is_left
    → body_of
        (effective_type config.advanced_join_type)
        is_left
        (na_line (length columns) (null_of config))
        intersect
        except
        cnt
      ≡ body
    → (make config >>= λ p. generate_result p columns intersect except cnt)
      ≡ (make_quoted_csv_line columns >>= λ header. ok (header ∷ body))
party_output config is_left columns intersect except body cnt party e =
    let type = effective_type config.advanced_join_type in
    rw
      (
        make-processor config is_left party,
        generate_result-body_of config is_left type columns intersect except cnt party,
      )
      (ap (λ lines. make_quoted_csv_line columns >>= λ header. ok (header ∷ lines)) e)

-- For two parties whose configurations the constructor takes, one on the left side and one not, with one
-- type of join: if the files of common lines have a header and equally many lines, and each party is
-- told how many lines the other's file of other lines has after its header, then each party's output is
-- the header and its column of the rows of the join, the same rows for both, with the line of nulls where
-- the party has none; without columns both runs end in the undefined access of the header.
pub generate_result_aligned :
    (left right : PsiConfig) (left_columns right_columns : List Bytes) (h h' k k' : Bytes)
    (ls rs ls' rs' : List Bytes)
    → IsParty left true
    → IsParty right false
    → right.advanced_join_type ≡ left.advanced_join_type
    → length ls ≡ length rs
    → ((make left >>= λ p. generate_result p left_columns (h ∷ ls) (h' ∷ ls') (length rs')) ≡ (
        make_quoted_csv_line left_columns >>= λ header. ok (
          header
          ∷ map
              (λ row. shown (na_line (length left_columns) (null_of left)) row.0)
              (joined left.advanced_join_type ls rs ls' rs'))))
      × ((make right >>= λ p. generate_result p right_columns (k ∷ rs) (k' ∷ rs') (length ls')) ≡ (
          make_quoted_csv_line right_columns >>= λ header. ok (
            header
            ∷ map
                (λ row. shown (na_line (length right_columns) (null_of right)) row.1)
                (joined left.advanced_join_type ls rs ls' rs'))))
generate_result_aligned left right left_columns right_columns h h' k k' ls rs ls' rs' on_left
      on_right same paired =
    let type = effective_type left.advanced_join_type in
    let type' = effective_type right.advanced_join_type in
    let left_na = na_line (length left_columns) (null_of left) in
    let right_na = na_line (length right_columns) (null_of right) in
    (
      party_output left true left_columns (h ∷ ls) (h' ∷ ls') _ (length rs') on_left (
          left_body h h' ls rs ls' rs' paired type left_na
          ∙ ap (map (λ row. shown left_na row.0))
              (joined-effective_type left.advanced_join_type ls rs ls' rs')),
      party_output right false right_columns (k ∷ rs) (k' ∷ rs') _ (length ls') on_right (
          right_body k k' ls rs ls' rs' paired type' right_na
          ∙ ap (map (λ row. shown right_na row.1)) (
              joined-effective_type right.advanced_join_type ls rs ls' rs'
              ∙ ap (λ t. joined t ls rs ls' rs') same)),
    )
