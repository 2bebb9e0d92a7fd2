-- ===== src/Join.antt =====
-- psi/utils/join_processor.h and .cc: which parts of a party's table its output keeps for the type of
-- join, and the output itself. A file is the list of its lines, each ended by a newline; of a path only
-- whether it is set counts. Random prefixes of paths are left out.
use psi.Prelude.{
  ℕ, zero, suc, ◌+◌, ◌-◌, ◌≡◌, Bool, true, false, ◌&&◌, ◌||◌, not, List, [], ◌∷◌, ◌++◌, length,
  replicate, drop, Result, ok, err, thrown, undefined, ◌>>=◌, ◌>>◌, enforce, ◌==◌, if◌then◌else◌,
}
use psi.Prelude.Bytes.{Bytes, is_nil, concat}
pub mod Alignment
mod Tests

pub data Role : Type 0 where
  role_unspecified receiver sender server client : Role

pub data JoinType : Type 0 where
  join_unspecified inner_join left_join right_join full_join difference : JoinType

-- The numbers of the enumerations of the protocol file.
abbrev pub role_number : Role → ℕ
role_number role_unspecified = 0
role_number receiver = 1
role_number sender = 2
role_number server = 3
role_number client = 4

abbrev pub type_number : JoinType → ℕ
type_number join_unspecified = 0
type_number inner_join = 1
type_number left_join = 2
type_number right_join = 3
type_number full_join = 4
type_number difference = 5

abbrev pub role_eq : Role → Role → Bool
role_eq a b = role_number a == role_number b

abbrev pub type_eq : JoinType → JoinType → Bool
type_eq a b = type_number a == type_number b

-- The fields of `PsiConfig` that the constructor reads; the formats are whether they are csv.
pub record PsiConfig : Type 0 where
  pub input_is_csv : Bool
  pub output_is_csv : Bool
  pub keys_unique : Bool
  pub advanced_join_type : JoinType
  pub role : Role
  pub left_side : Role
  pub csv_null_rep : Bytes
  pub disable_alignment : Bool

pub record JoinProcessor : Type 0 where
  pub is_input_key_unique : Bool
  pub csv_null_rep : Bytes
  pub align_output : Bool
  pub type : JoinType
  pub role : Role
  pub left_side : Role
  pub has_intersect_path : Bool
  pub has_except_path : Bool

-- The bytes of `NULL`.
abbrev pub k_null_rep : Bytes
k_null_rep = 78 ∷ 85 ∷ 76 ∷ 76 ∷ []

abbrev pub effective_type : JoinType → JoinType
effective_type type = if type_eq type join_unspecified then inner_join else type

-- The constructor for a `PsiConfig`.
unfoldable pub make : PsiConfig → Result JoinProcessor
make config = do
  enforce config.input_is_csv
  enforce config.output_is_csv
  let type = effective_type config.advanced_join_type
  let role = config.role
  enforce (role_eq role sender || role_eq role receiver)
  let left_side = config.left_side
  enforce (type_eq type inner_join || not (role_eq left_side role_unspecified))
  ok (record {
    is_input_key_unique = config.keys_unique;
    csv_null_rep = if is_nil config.csv_null_rep then k_null_rep else config.csv_null_rep;
    align_output = not config.disable_alignment;
    type = type;
    role = role;
    left_side = left_side;
    has_intersect_path = not (type_eq type difference);
    has_except_path =
        type_eq type difference
        || (type_eq type full_join
            || (type_eq type left_join && role_eq left_side role
                || type_eq type right_join && not (role_eq left_side role)));
  })

unfoldable pub quoted : Bytes → Bytes
quoted c = 34 ∷ (c ++ 34 ∷ [])

-- The columns after the first, in the loop of `MakeQuotedCsvLine`.
unfoldable pub more_columns : List Bytes → Bytes
more_columns [] = []
more_columns (c ∷ cs) = 44 ∷ (quoted c ++ more_columns cs)

-- `MakeQuotedCsvLine`
unfoldable pub make_quoted_csv_line : List Bytes → Result Bytes
make_quoted_csv_line [] = err undefined
make_quoted_csv_line (column ∷ columns) = ok (quoted column ++ more_columns columns)

-- `write_output`: the lines of a file after its header.
unfoldable pub write_output : Bool → List Bytes → List Bytes
write_output has_path file = if has_path then drop 1 file else []

-- The line of nulls of `write_na`.
unfoldable pub na_line : ℕ → Bytes → Bytes
na_line size null_rep = null_rep ++ concat (replicate (size - 1) (44 ∷ null_rep))

unfoldable pub write_na : ℕ → Bytes → ℕ → List Bytes
write_na size null_rep na_line_cnt = replicate na_line_cnt (na_line size null_rep)

-- `GenerateResult` on the columns of the source file and the two files of the sorted input.
unfoldable pub generate_result :
    JoinProcessor → List Bytes → List Bytes → List Bytes → ℕ → Result (List Bytes)
generate_result p columns intersect except peer_except_cnt = do
  header ← make_quoted_csv_line columns
  let na = write_na (length columns) p.csv_null_rep peer_except_cnt
  let before =
      not (role_eq p.role p.left_side)
      && (type_eq p.type left_join || (type_eq p.type difference || type_eq p.type full_join))
  let after =
      role_eq p.role p.left_side
      && (type_eq p.type right_join || (type_eq p.type difference || type_eq p.type full_join))
  ok (
      header
      ∷ (write_output p.has_intersect_path intersect
          ++ (if before then na else [])
          ++ write_output p.has_except_path except
          ++ (if after then na else [])))
