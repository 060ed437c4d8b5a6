-- ===== src/Relay/Acknowledged.antt =====
-- What `receive_wg_message` of rustlib/src/quicwg.rs returns and acknowledges over TLS.
use mathlib.Core.List.{append_assoc}
use obscuravpn_client.Prelude.{
  ℕ, zero, suc, ◌<◌, ◌≡◌, refl, List, [], ◌∷◌, ◌++◌, length, length-append, All, arith,
}
use obscuravpn_client.NetworkConfig.{ok}
use obscuravpn_client.Relay.{RelayProtocol, Layout, wire_guard, ok_response, op, response}
use obscuravpn_client.Relay.Responses.{Block, block, blocks, Arrives, recv-block, length-blocks}
use obscuravpn_client.Relay.Outbox.{on_received, received, receive_loop, receive_wg_message}

module _ (p : RelayProtocol) (layout : Layout p) where
  -- A message that arrives, and is the relay's confirmation of one of the client's.
  abbrev pub Confirmation : Block → Type 0
  Confirmation b = Arrives p b × (b.message.code ≡ response ok_response)

  receive_loop-blocks :
      (fuel : ℕ) (bs : List Block) (b : Block) (rest : List ℕ)
      → length bs < fuel
      → All Confirmation bs
      → Arrives p b
      → b.message.code ≡ op wire_guard
      → receive_loop fuel p (blocks p bs ++ (block p b ++ rest))
        ≡ (ok (b.message.arg, rest), b.message.context ∷ [])
  unfolding receive_loop received on_received
  receive_loop-blocks zero bs b rest h confirmed arrives code = absurd (omega (arith, h))
  receive_loop-blocks (suc fuel) [] b rest h confirmed arrives code =
      rw (recv-block p layout b rest arrives, code) refl
  receive_loop-blocks (suc fuel) (q ∷ bs) b rest h ((first, is_ok), others) arrives code =
      rw
        (
          append_assoc (block p q) (blocks p bs) (block p b ++ rest),
          recv-block p layout q (blocks p bs ++ (block p b ++ rest)) first,
          is_ok,
        )
        (receive_loop-blocks fuel bs b rest (omega (arith, h)) others arrives code)

  -- A WireGuard message of the relay is returned whole and queued for one acknowledgement, with its
  -- own context, whatever confirmations and frames that cannot be read come before it.
  pub receive_wg_message-packet :
      (bs : List Block) (b : Block) (rest : List ℕ)
      → All Confirmation bs
      → Arrives p b
      → b.message.code ≡ op wire_guard
      → receive_wg_message p (blocks p bs ++ (block p b ++ rest))
        ≡ (ok (b.message.arg, rest), b.message.context ∷ [])
  unfolding receive_wg_message
  receive_wg_message-packet bs b rest confirmed arrives code =
      let input = blocks p bs ++ (block p b ++ rest) in
      receive_loop-blocks (suc (length input)) bs b rest
        (omega
          (arith, length-blocks p layout bs, length-append {0} (blocks p bs) (block p b ++ rest)))
        confirmed arrives code
