-- ===== src/State/Listener.antt =====
-- `HeadEventListener` (interstate-gateway/src/state/mod.rs): the task that subscribes to head events
-- and broadcasts them. The beacon node's answers to its subscriptions are an argument, in their order;
-- the pauses before a retry are left out.
use proposer_commitment_netw.Base.{ℕ, ◌≡◌, refl, ap, Option, none, some, List, [], ◌∷◌, ◌++◌}

-- A subscription fails, or gives a stream of events, of which `none` cannot be read.
pub data Subscription : Type 0 where
  refused : Subscription
  stream : List (Option ℕ) → Subscription

-- A round of the loop: what is broadcast, as a list of at most one slot. The stream is dropped with
-- the rest of its events.
unfoldable pub listen_once : Subscription → List ℕ
listen_once refused = []
listen_once (stream []) = []
listen_once (stream (none ∷ events)) = []
listen_once (stream (some slot ∷ events)) = slot ∷ []

unfoldable pub listen : List Subscription → List ℕ
unfolding listen_once
listen [] = []
listen (s ∷ ss) = listen_once s ++ listen ss

-- Whatever follows the first event of a stream is never broadcast.
pub listen-rest :
    (before after : List Subscription) (e : Option ℕ) (events others : List (Option ℕ))
    → listen (before ++ (stream (e ∷ events) ∷ after))
      ≡ listen (before ++ (stream (e ∷ others) ∷ after))
unfolding listen listen_once
listen-rest [] after none events others = refl
listen-rest [] after (some slot) events others = refl
listen-rest (s ∷ before) after e events others =
    ap (λ l. listen_once s ++ l) (listen-rest before after e events others)
