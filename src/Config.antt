-- ===== src/Config.antt =====
-- The chains (interstate-gateway/src/config/group_config.rs) and the choice among them, and the
-- validator indexes. SSZ is a parameter.
pub mod Indexes
pub mod Domains
pub mod Environment
use proposer_commitment_netw.Base.{
  ℕ, zero, suc, ◌-◌, Bool, true, false, Option, none, some, List, [], ◌∷◌, ◌++◌, Result, ok, err,
  ◌>>=◌, ok_or, any_of, take, ◌==◌, if◌then◌else◌,
}
use proposer_commitment_netw.Base.Text.{
  Text, contains, split, before_dots, after_dots, dots, parse_u64, trim,
}

pub data Chain : Type 0 where
  mainnet holesky kurtosis helder : Chain

pub record ChainConfig : Type 0 where
  pub chain : Chain
  pub commitment_deadline : ℕ
  pub slot_time : ℕ
  pub id : ℕ

unfoldable pub default_chain_config : ChainConfig
default_chain_config = record {
  chain = holesky;
  commitment_deadline = 8_000;
  slot_time = 12;
  id = 17_000;
}

unfoldable pub get_fork_version : Chain → List ℕ
get_fork_version mainnet = 5 ∷ 0 ∷ 0 ∷ 0 ∷ []
get_fork_version holesky = 1 ∷ 1 ∷ 112 ∷ 0 ∷ []
get_fork_version kurtosis = 16 ∷ 0 ∷ 0 ∷ 56 ∷ []
get_fork_version helder = 16 ∷ 0 ∷ 0 ∷ 0 ∷ []

unfoldable pub builder_domain : ChainConfig → ℕ
builder_domain c = elim c.chain [
  | mainnet ↦ 0x00000001f5a5fd42d16a20302798ef6ed309979b43003d2320d9f0e8ea9831a9
  | holesky ↦ 0x000000015b83a23759c560b2d0c64576e1dcfc34ea94c4988f3e0d9f77f05387
  | kurtosis ↦ 0x000000010b41be4cdb34d183dddca5398337626dcdcfaf1720c1202d3b95f84e
  | helder ↦ 0x0000000194c41af484fff7964969e0bdd922f82dff0f4be87a60d0664cc9d1ff
]

-- `fork_data_root` is that of the version with the zero root.
unfoldable pub compute_domain_from_mask : (List ℕ → List ℕ) → ChainConfig → List ℕ → List ℕ
compute_domain_from_mask fork_data_root c mask =
    mask ++ take 28 (fork_data_root (get_fork_version c.chain))

abbrev pub commit_boost_domain_mask : List ℕ
commit_boost_domain_mask = 109 ∷ 109 ∷ 111 ∷ 67 ∷ []

unfoldable pub commit_boost_domain : (List ℕ → List ℕ) → ChainConfig → List ℕ
unfolding compute_domain_from_mask
commit_boost_domain fork_data_root c =
    compute_domain_from_mask fork_data_root c commit_boost_domain_mask

abbrev pub ValidatorIndexes : Type 0
ValidatorIndexes = List ℕ

-- `ValidatorIndexes::contains`
unfoldable pub has_index : ValidatorIndexes → ℕ → Bool
has_index indexes index = any_of (λ i. i == index) indexes

-- `start..=end`, by the number of its items.
unfoldable pub range : ℕ → ℕ → List ℕ
range start zero = []
range start (suc n) = start ∷ range (suc start) n

pub data ReportError : Type 0 where
  parse_int invalid_range : ReportError

unfoldable pub read_part : Text → Result ReportError (List ℕ)
unfolding contains before_dots after_dots parse_u64 range
read_part part =
    if contains dots part
    then (do
      start ← ok_or (parse_u64 (before_dots part)) parse_int
      rest ← ok_or (after_dots part) invalid_range
      last ← ok_or (parse_u64 (before_dots rest)) parse_int
      ok (range start (suc last - start)))
    else (do index ← ok_or (parse_u64 part) parse_int; ok (index ∷ []))

unfoldable pub read_parts : List Text → Result ReportError (List ℕ)
unfolding read_part
read_parts [] = ok []
read_parts (part ∷ parts) = do here ← read_part part; rest ← read_parts parts; ok (here ++ rest)

-- `ValidatorIndexes::from_str`; 44 is the comma.
unfoldable pub from_str : Text → Result ReportError ValidatorIndexes
unfolding trim split read_parts
from_str s = read_parts (split 44 (trim s))
