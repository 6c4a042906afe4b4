-- ===== src/Pbs/Server/Bids.antt =====
-- Which messages are stored and which bid wins (interstate-pbs-module/src/server.rs).
use proposer_commitment_netw.Base.{
  ℕ, ◌≤◌, ◌<◌, ◌≡◌, ◌≢◌, ◌↔◌, refl, true, Option, none, some, List, [], ◌∷◌, ok, ltb, if◌then◌else◌,
  inl, inr, ◌⊎◌, Bool-cases, arith, sym,
}
use cubical.Cubical.Foundations.Prelude.{transport}
use proposer_commitment_netw.Pbs.Message.{ConstraintsWithProofData, PbsLib}
use proposer_commitment_netw.Pbs.Store.{ConstraintStore, remove_constraints}
use proposer_commitment_netw.Pbs.Server.{
  Header, Bid, validate_header, is_proven, collect_bids, max_by_value, later_max, choose_header,
}

-- A header passes exactly with a block hash, the requested parent, some transactions, a value above
-- the minimum bid and the relay's own key.
pub validate_header_iff :
    (empty_tx_root_hash : ℕ) (h : Header) (relay parent minimum : ℕ)
    → (validate_header empty_tx_root_hash h relay parent minimum ≡ ok tt) ↔ (
        (h.block_hash ≢ 0)
        × (h.parent_hash ≡ parent)
        × (h.transactions_root ≢ empty_tx_root_hash)
        × (minimum < h.value)
        × (h.pubkey ≡ relay))
unfolding validate_header
validate_header_iff e h relay parent minimum = ground arith

-- The bid is among the relays' answers.
abbrev pub Answered : Bid → List (Option Bid) → Type 0
Answered bid [] = ⊥
Answered bid (r ∷ rs) = (r ≡ some bid) ⊎ Answered bid rs

-- A header of a relay's answer with the proofs it needs.
abbrev pub Proven :
    PbsLib → Option (List ConstraintsWithProofData) → List (Option Bid) → Header → Type 0
Proven lib saved results h =
    (bid : Bid) × Answered bid results × (is_proven lib saved bid ≡ true) × (bid.header ≡ h)

abbrev pub Best :
    PbsLib → Option (List ConstraintsWithProofData) → List (Option Bid) → Option Header → Type 0
Best lib saved results none = (h : Header) → ¬ Proven lib saved results h
Best lib saved results (some best) =
    Proven lib saved results best
    × ((h : Header) → Proven lib saved results h → h.value ≤ best.value)

-- Whether a saved header is in the list of collected ones.
abbrev pub Among : Header → List Header → Type 0
Among h [] = ⊥
Among h (x ∷ xs) = (x ≡ h) ⊎ Among h xs

collect_bids_sound :
    (lib : PbsLib) (saved : Option (List ConstraintsWithProofData)) (results : List (Option Bid))
    (h : Header)
    → Among h (collect_bids lib saved results)
    → Proven lib saved results h
unfolding collect_bids
collect_bids_sound lib saved [] h a = absurd a
collect_bids_sound lib saved (none ∷ results) h a =
    let (bid, i, p, e) = collect_bids_sound lib saved results h a in (bid, inr i, p, e)
collect_bids_sound lib saved (some b ∷ results) h a = elim (Bool-cases (is_proven lib saved b)) [
  | inl p ↦
      elim (transport
        (λ i. Among h (
          if p i
          then b.header ∷ collect_bids lib saved results
          else collect_bids lib saved results))
        a) [
          | inl e ↦ (b, inl refl, p, e)
          | inr a' ↦
              let (bid, i, q, e) = collect_bids_sound lib saved results h a' in (bid, inr i, q, e)
        ]
  | inr p ↦
      let a' =
        transport
          (λ i. Among h (
            if p i
            then b.header ∷ collect_bids lib saved results
            else collect_bids lib saved results))
          a in
      let (bid, i, q, e) = collect_bids_sound lib saved results h a' in (bid, inr i, q, e)
]

collect_bids_complete :
    (lib : PbsLib) (saved : Option (List ConstraintsWithProofData)) (results : List (Option Bid))
    (bid : Bid)
    → Answered bid results
    → is_proven lib saved bid ≡ true
    → Among bid.header (collect_bids lib saved results)
unfolding collect_bids
collect_bids_complete lib saved [] bid i p = absurd i
collect_bids_complete lib saved (none ∷ results) bid (inl e) p = absurd (ground arith)
collect_bids_complete lib saved (none ∷ results) bid (inr i) p =
    collect_bids_complete lib saved results bid i p
collect_bids_complete lib saved (some b ∷ results) bid (inl e) p =
    let same : b ≡ bid = cc in rw (same, p) (inl refl)
collect_bids_complete lib saved (some b ∷ results) bid (inr i) p =
    let rest = collect_bids_complete lib saved results bid i p in
    elim (Bool-cases (is_proven lib saved b)) [ inl q ↦ rw (q) (inr rest) | inr q ↦ rw (q) rest ]

abbrev pub Largest : List Header → Option Header → Type 0
Largest hs none = (h : Header) → ¬ Among h hs
Largest hs (some best) = Among best hs × ((h : Header) → Among h hs → h.value ≤ best.value)

later_max-Largest :
    (x : Header) (xs : List Header) (o : Option Header)
    → Largest xs o
    → Largest (x ∷ xs) (some (later_max x o))
later_max-Largest x xs none l =
    (inl refl, λ h a. elim a [ inl e ↦ ground arith | inr a' ↦ absurd (l h a') ])
later_max-Largest x xs (some best) (i, l) = elim (Bool-cases (ltb best.value x.value)) [
  | inl e ↦
      let first : later_max x (some best) ≡ x = ground arith in
      transport (λ i. Largest (x ∷ xs) (some (sym first i)))
        (inl refl, λ h a. elim a [ inl s ↦ ground arith | inr a' ↦ let m = l h a' in ground arith ])
  | inr e ↦
      let second : later_max x (some best) ≡ best = ground arith in
      transport (λ i. Largest (x ∷ xs) (some (sym second i)))
        (inr i, λ h a. elim a [ inl s ↦ ground arith | inr a' ↦ l h a' ])
]

max_by_value-Largest : (hs : List Header) → Largest hs (max_by_value hs)
unfolding max_by_value
max_by_value-Largest [] = λ h a. a
max_by_value-Largest (x ∷ xs) = later_max-Largest x xs (max_by_value xs) (max_by_value-Largest xs)

Largest-Best :
    (lib : PbsLib) (saved : Option (List ConstraintsWithProofData)) (results : List (Option Bid))
    (o : Option Header)
    → Largest (collect_bids lib saved results) o
    → Best lib saved results o
Largest-Best lib saved results none l =
    λ h (bid, i, p, e). l bid.header (collect_bids_complete lib saved results bid i p)
Largest-Best lib saved results (some best) (i, l) = (
  collect_bids_sound lib saved results best i,
  λ h (bid, j, p, e).
      let m = l bid.header (collect_bids_complete lib saved results bid j p) in rw (← e) m,
)

-- The header that is chosen answers a relay's bid whose proofs hold for the constraints saved for
-- the slot (no proof is asked where none are saved), its value is the largest of such bids, and
-- there is no answer only if there is no such bid.
pub choose_header-Best :
    (lib : PbsLib) (s : ConstraintStore) (slot : ℕ) (results : List (Option Bid))
    → Best lib (remove_constraints s slot).1 results (choose_header lib s slot results).1
unfolding choose_header
choose_header-Best lib s slot results =
    let saved = (remove_constraints s slot).1 in
    let hs = collect_bids lib saved results in
    Largest-Best lib saved results (max_by_value hs) (max_by_value-Largest hs)
