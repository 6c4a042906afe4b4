-- ===== src/Gateway/EventLoop/Offered.antt =====
-- Which payloads the proxy gives in a run of the event loop (interstate-gateway/src/main.rs).
use proposer_commitment_netw.Base.{
  ℕ, ◌≡◌, ◌⊎◌, refl, inl, inr, Bool, true, false, Option, none, some, List, ◌∷◌, ◌++◌, Result, ok,
  err, panic, Any, arith,
}
use proposer_commitment_netw.Tx.{TxLib}
use proposer_commitment_netw.Pricing.{F64}
use proposer_commitment_netw.Execution.{ExecutionState}
use proposer_commitment_netw.State.{
  Block, ConstraintState, CommitmentDeadline, Poll, ready, pending, wait,
}
use proposer_commitment_netw.Builder.{BuilderLib, BuilderError}
use proposer_commitment_netw.Builder.Sealing.{Node}
use proposer_commitment_netw.Builder.Fallback.{
  FallbackBuilder, GetPayloadResponse, PayloadAndBid, build_fallback_payload, cached,
  get_cached_payload, execution_payload,
}
use proposer_commitment_netw.Proxy
use proposer_commitment_netw.Proxy.{
  ConstraintsApiProxyServer, CommitBoostError, VersionedValue, SignedBlindedBeaconBlock, get_header,
  local_header, get_payload, fetch_payload, handle_local_payload_request,
}
use proposer_commitment_netw.Proxy.Integrity.{Matches}
use proposer_commitment_netw.Proxy.Requests.{get_payload-cases}
use proposer_commitment_netw.Gateway.{
  Signer, Response, accepted, rejected, unanswered, handle_commitment_deadline,
  handle_preconfirmation_request,
}
use proposer_commitment_netw.Gateway.EventLoop.{
  start, Task, preconfirmation_request, commitment_deadline, head_event, System, World, log_promise,
  send_and_build, run_task, spawn, spawn_deadline, poll_deadline, is_given, fetched_unless,
  ask_header, Step, receive_request, reach_deadline, receive_head, request_header, run, Reach, here,
  next,
}

module _ (builder_lib : BuilderLib) where
  -- What the builder has kept of building that block.
  abbrev pub Builds : ℕ × Block → PayloadAndBid → Type 0
  Builds (slot, block) p =
      (node : Node) × (b : FallbackBuilder) × ((build_fallback_payload builder_lib node b block
          slot).1
        ≡ ok tt)
      × ((build_fallback_payload builder_lib node b block slot).0.payload_and_bid ≡ some p)

  abbrev pub IsBuilt : List (ℕ × Block) → PayloadAndBid → Type 0
  IsBuilt sent p = Any (λ e. Builds e p) sent

  -- A payload that was built from a block that was sent.
  abbrev pub PayloadIsBuilt : List (ℕ × Block) → GetPayloadResponse → Type 0
  PayloadIsBuilt sent payload = (p : PayloadAndBid) × (p.payload ≡ payload) × IsBuilt sent p

  pub BuilderIsBuilt : List (ℕ × Block) → FallbackBuilder → Type 0
  BuilderIsBuilt sent b = (p : PayloadAndBid) → b.payload_and_bid ≡ some p → IsBuilt sent p

  pub ServerIsBuilt : List (ℕ × Block) → ConstraintsApiProxyServer → Type 0
  ServerIsBuilt sent server =
      (payload : GetPayloadResponse)
      → server.fallback_payload ≡ some payload
      → PayloadIsBuilt sent payload

  pub record OffersBuilt (s : System) : Type 0 where
    pub builder : BuilderIsBuilt s.sent s.fallback_builder
    pub server : ServerIsBuilt s.sent s.server

  -- The builder has what it had, or what it has just built.
  cached-cases :
      (b : FallbackBuilder) (r : Result BuilderError PayloadAndBid) (p : PayloadAndBid)
      → (cached b r).0.payload_and_bid ≡ some p
      → (b.payload_and_bid ≡ some p) ⊎ ((cached b r).1 ≡ ok tt)
  cached-cases b (ok q) p e = inr refl
  cached-cases b (err x) p e = inl e
  cached-cases b panic p e = inl e

  build-IsBuilt :
      (node : Node) (b : FallbackBuilder) (slot : ℕ) (block : Block) (sent : List (ℕ × Block))
      → BuilderIsBuilt sent b
      → BuilderIsBuilt
          ((slot, block) ∷ sent)
          (build_fallback_payload builder_lib node b block slot).0
  unfolding BuilderIsBuilt build_fallback_payload
  build-IsBuilt node b slot block sent h p e = elim (cached-cases b _ p e) [
    | inl old ↦ inr (h p old)
    | inr built ↦ inl (node, b, built, e)
  ]

  more-ServerIsBuilt :
      (server : ConstraintsApiProxyServer) (e : ℕ × Block) (sent : List (ℕ × Block))
      → ServerIsBuilt sent server
      → ServerIsBuilt (e ∷ sent) server
  unfolding ServerIsBuilt
  more-ServerIsBuilt server e sent h payload same =
      let (p, q, built) = h payload same in (p, q, inr built)

  -- What is fetched was in the builder, which has nothing then.
  fetch-IsBuilt :
      (b : FallbackBuilder) (given response_open : Bool) (sent : List (ℕ × Block))
      → BuilderIsBuilt sent b
      → let (b', fetched) = fetched_unless given b response_open in
        BuilderIsBuilt sent b' × ((p : PayloadAndBid) → fetched ≡ some p → IsBuilt sent p)
  unfolding BuilderIsBuilt fetch_payload handle_local_payload_request get_cached_payload
  fetch-IsBuilt b true response_open sent h = (h, λ p e. absurd (ground arith))
  fetch-IsBuilt b false true sent h = (λ p e. absurd (ground arith), h)
  fetch-IsBuilt b false false sent h = (λ p e. absurd (ground arith), λ p e. absurd (ground arith))

  local_header-IsBuilt :
      (server : ConstraintsApiProxyServer) (slot : ℕ) (fetched : Option PayloadAndBid)
      (sent : List (ℕ × Block))
      → ServerIsBuilt sent server
      → ((p : PayloadAndBid) → fetched ≡ some p → IsBuilt sent p)
      → ServerIsBuilt sent (local_header server slot fetched).0
  unfolding ServerIsBuilt
  local_header-IsBuilt server slot none sent h built = h
  local_header-IsBuilt server slot (some p) sent h built = λ payload e. (p, (cc), built p refl)

  get_header-IsBuilt :
      (server : ConstraintsApiProxyServer) (slot : ℕ)
      (relay : Option (Result CommitBoostError VersionedValue)) (fetched : Option PayloadAndBid)
      (sent : List (ℕ × Block))
      → ServerIsBuilt sent server
      → ((p : PayloadAndBid) → fetched ≡ some p → IsBuilt sent p)
      → ServerIsBuilt sent (get_header server slot relay fetched).0
  unfolding get_header ServerIsBuilt
  get_header-IsBuilt server slot none fetched sent h built =
      local_header-IsBuilt server slot fetched sent h built
  get_header-IsBuilt server slot (some (ok header)) fetched sent h built =
      λ payload e. absurd (ground arith)
  get_header-IsBuilt server slot (some (err x)) fetched sent h built =
      local_header-IsBuilt _ slot fetched sent (λ payload e. absurd (ground arith)) built
  get_header-IsBuilt server slot (some panic) fetched sent h built = h

  module _ (lib : TxLib) (f : F64) (sign : Signer) (pubkeys : List ℕ) where
    same-OffersBuilt :
        (s t : System)
        → t.sent ≡ s.sent
        → t.fallback_builder ≡ s.fallback_builder
        → t.server ≡ s.server
        → OffersBuilt s
        → OffersBuilt t
    same-OffersBuilt s t sent b server h = record {
      builder = rw (sent, b) h.builder;
      server = rw (sent, server) h.server;
    }

    log_promise-OffersBuilt :
        (slot : ℕ) (r : Option Response) (s : System)
        → OffersBuilt s
        → OffersBuilt (log_promise slot r s)
    log_promise-OffersBuilt slot none s h = h
    log_promise-OffersBuilt slot (some unanswered) s h = h
    log_promise-OffersBuilt slot (some (rejected e)) s h = h
    log_promise-OffersBuilt slot (some (accepted list)) s h =
        same-OffersBuilt s (log_promise slot (some (accepted list)) s) refl refl refl h

    send_and_build-OffersBuilt :
        (w : World) (slot : ℕ) (st : ConstraintState) (o : Option Block) (s : System)
        → OffersBuilt s
        → OffersBuilt (send_and_build lib f builder_lib sign pubkeys w slot (st, o) s)
    send_and_build-OffersBuilt w slot st none s h = record {
      builder = h.builder;
      server = h.server;
    }
    send_and_build-OffersBuilt w slot st (some block) s h = record {
      builder = build-IsBuilt w.node s.fallback_builder slot block s.sent h.builder;
      server = more-ServerIsBuilt s.server (slot, block) s.sent h.server;
    }

    run_task-OffersBuilt :
        (w : World) (t : Task) (s : System)
        → OffersBuilt s
        → OffersBuilt (run_task lib f builder_lib sign pubkeys w t s)
    unfolding run_task
    run_task-OffersBuilt w (preconfirmation_request req) s h =
        let (st, r) =
          handle_preconfirmation_request lib f w.fetch sign pubkeys w.delegations s.constraint_state
            req w.now in
        log_promise-OffersBuilt req.slot r (record s { constraint_state = st })
          (record { builder = h.builder; server = h.server })
    run_task-OffersBuilt w (commitment_deadline slot) s h =
        let (st, o) = handle_commitment_deadline s.constraint_state slot in
        send_and_build-OffersBuilt w slot st o s h
    run_task-OffersBuilt w (head_event head) s h = record { builder = h.builder; server = h.server }

    spawn_deadline-OffersBuilt :
        (d : CommitmentDeadline) (p : Poll) (s : System)
        → OffersBuilt s
        → OffersBuilt (spawn_deadline s (d, p))
    unfolding spawn
    spawn_deadline-OffersBuilt d pending s h = h
    spawn_deadline-OffersBuilt d (ready none) s h = record {
      builder = h.builder;
      server = h.server;
    }
    spawn_deadline-OffersBuilt d (ready (some slot)) s h = record {
      builder = h.builder;
      server = h.server;
    }

    Step-OffersBuilt :
        {s t : System} → Step lib f builder_lib sign pubkeys s t → OffersBuilt s → OffersBuilt t
    unfolding spawn poll_deadline ask_header
    Step-OffersBuilt (receive_request req) h = record { builder = h.builder; server = h.server }
    Step-OffersBuilt {s} (reach_deadline now) h =
        let (d, p) = wait s.constraint_state.commitment_deadline now in
        spawn_deadline-OffersBuilt d p s h
    Step-OffersBuilt (receive_head slot) h = record { builder = h.builder; server = h.server }
    Step-OffersBuilt {s} (request_header slot relay response_open) h =
        let (b, fetched) = fetched_unless (is_given relay) s.fallback_builder response_open in
        let (rest, taken) =
          fetch-IsBuilt s.fallback_builder (is_given relay) response_open s.sent h.builder in
        record {
          builder = rest;
          server = get_header-IsBuilt s.server slot relay fetched s.sent h.server taken;
        }
    Step-OffersBuilt {s} (run w before t after e) h =
        run_task-OffersBuilt w t (record s { tasks = before ++ after })
          (record { builder = h.builder; server = h.server })

    reached :
        {s t : System} → OffersBuilt s → Reach lib f builder_lib sign pubkeys s t → OffersBuilt t
    reached h here = h
    reached h (next r step) = Step-OffersBuilt step (reached h r)

    -- In every run, in whatever order the handlers run: a payload that the proxy gives for a signed
    -- block is the relay's answer, or it matches the header of the signed block and is what the
    -- builder made of a block whose constraints were sent to the relay.
    pub Reach-PayloadIsBuilt :
        (execution : ExecutionState) (builder : FallbackBuilder) (duration chain_id now : ℕ)
        (s : System) (block : SignedBlindedBeaconBlock)
        (relay : SignedBlindedBeaconBlock → Result CommitBoostError GetPayloadResponse)
        (payload : GetPayloadResponse)
        → Reach lib f builder_lib sign pubkeys (start execution builder duration chain_id now) s
        → get_payload s.server (some (some block)) relay ≡ ok payload
        → (relay block ≡ ok payload)
          ⊎ (Matches block.execution_payload_header (execution_payload payload)
              × PayloadIsBuilt s.sent payload)
    unfolding start Proxy.new BuilderIsBuilt ServerIsBuilt
    Reach-PayloadIsBuilt execution builder duration chain_id now s block relay payload r e =
        let h =
          reached
            (record {
              builder = λ p none_kept. absurd (ground arith);
              server = λ payload none_kept. absurd (ground arith);
            })
            r in
        elim (get_payload-cases s.server block relay payload e) [
          | inl given ↦ inl given
          | inr (matches, local) ↦ inr (matches, h.server payload local)
        ]
