-- ===== src/Delegation/Sidecar/Posted.antt =====
-- What the delegate-only sidecar posts (interstate-gateway/delegate-only-sidecar/src/main.rs).
use proposer_commitment_netw.Base.{◌≡◌, some}
use proposer_commitment_netw.Delegation.{Bytes}
use proposer_commitment_netw.Delegation.Scripts
use proposer_commitment_netw.Delegation.Sidecar.{SidecarEnv}

-- The variables that are only looked for.
abbrev pub HasOthers : SidecarEnv → Type 0
HasOthers env =
    ((out : Bytes) × (env.out_file ≡ some out))
    × ((out_web3 : Bytes) × (env.out_file_web3 ≡ some out_web3))
    × ((url : Bytes) × (env.relay_url ≡ some url))
    × ((signer : Bytes) × (env.web3signer_url ≡ some signer))
