-- ===== src/Config/Domains.antt =====
-- The signing domains of the gateway (interstate-gateway/src/config/group_config.rs) and of the
-- delegation scripts (scripts/delegate-sidecar/src/main.rs).
use proposer_commitment_netw.Base.{ℕ, ◌≡◌, ◌≢◌, refl, ap, ◌↔◌, List, [], ◌∷◌, arith}
use proposer_commitment_netw.Config
use proposer_commitment_netw.Config.{ChainConfig, get_fork_version, commit_boost_domain}
use proposer_commitment_netw.Delegation
use proposer_commitment_netw.Delegation.{BlsLib, fork_version, compute_domain_from_mask}

-- The chain of the scripts that a chain of the gateway is.
abbrev pub same_chain : Config.Chain → Delegation.Chain
same_chain Config.Chain.mainnet = Delegation.Chain.mainnet
same_chain Config.Chain.holesky = Delegation.Chain.holesky
same_chain Config.Chain.kurtosis = Delegation.Chain.kurtosis
same_chain Config.Chain.helder = Delegation.Chain.helder

abbrev head_or_zero : List ℕ → ℕ
head_or_zero [] = 0
head_or_zero (x ∷ xs) = x

versions_agree :
    (chain : Config.Chain)
    → chain ≢ Config.Chain.mainnet
    → get_fork_version chain ≡ fork_version (same_chain chain)
unfolding get_fork_version fork_version
versions_agree Config.Chain.mainnet h = absurd (h refl)
versions_agree Config.Chain.holesky h = refl
versions_agree Config.Chain.kurtosis h = refl
versions_agree Config.Chain.helder h = refl

versions_differ :
    (chain : Config.Chain)
    → get_fork_version chain ≡ fork_version (same_chain chain)
    → chain ≢ Config.Chain.mainnet
unfolding get_fork_version fork_version
versions_differ Config.Chain.mainnet h e =
    let first : ◌≡◌ {A = ℕ} 5 0 = ap head_or_zero h in omega arith
versions_differ Config.Chain.holesky h e = cc
versions_differ Config.Chain.kurtosis h e = cc
versions_differ Config.Chain.helder h e = cc

-- The gateway and the scripts have the same fork version of a chain exactly if it is not Mainnet, and then the same commit-boost domain.
pub commit_boost_domain_agrees :
    (lib : BlsLib) (c : ChainConfig)
    → ((get_fork_version c.chain ≡ fork_version (same_chain c.chain))
        ↔ (c.chain ≢ Config.Chain.mainnet))
      × (c.chain ≢ Config.Chain.mainnet
          → commit_boost_domain lib.fork_data_root c
            ≡ compute_domain_from_mask lib (fork_version (same_chain c.chain)))
unfolding commit_boost_domain compute_domain_from_mask
commit_boost_domain_agrees lib c =
    ((versions_differ c.chain, versions_agree c.chain), λ h. rw (versions_agree c.chain h) refl)
