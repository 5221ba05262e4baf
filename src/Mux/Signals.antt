-- ===== src/Mux/Signals.antt =====
-- Packets without a payload, from `multiplex_handler_send_packet` of src/session/multiplex_handler.c.
use elastos_net_carrier_nati.Base.{ℕ, ◌≡◌, refl, ◌∙◌, ap, ap₂, [], none, arith, length-replicate}
use elastos_net_carrier_nati.FlexBuffer.{flex_padding_len, flex_buffer_alloca}
use elastos_net_carrier_nati.FlexBuffer.Refine.{IsValid}
use elastos_net_carrier_nati.Mux.Channel.{Rc, ok, err, System}
use elastos_net_carrier_nati.Mux.Handler.{
  MultiplexHandler, multiplex_handler_send_packet, no_payload,
}
use elastos_net_carrier_nati.Mux.Sending.{packet, send_buffer_lem}

no_payload-IsValid : IsValid no_payload
unfolding flex_buffer_alloca
no_payload-IsValid = record {
  block = length-replicate {A = ℕ} flex_padding_len 0;
  inside = omega arith;
  small = omega arith;
}

-- The result of sending a packet of which no byte is payload.
abbrev pub signalled : Rc → Rc
signalled (ok n) = ok 0
signalled (err e) = err e

module _ {sys : System} where
  -- The handler below is given the header alone.
  pub send_signal :
      (h : MultiplexHandler sys) (type option local remote : ℕ) (rc : Rc) (w : sys.World)
      → sys.next_write (packet type option local remote []) h.world ≡ (rc, w)
      → multiplex_handler_send_packet h type option local remote none
        ≡ (signalled rc, record h { world = w })
  unfolding multiplex_handler_send_packet flex_buffer_alloca
  send_signal h type option local remote rc w e =
      let (moved, result) =
        send_buffer_lem h type option local remote no_payload no_payload-IsValid (omega arith) in
      ap₂ (λ (r : Rc) (h' : MultiplexHandler sys). (r, h'))
        (result ∙ ap (λ (r : Rc × sys.World). size r.0) e ∙ zero_size rc)
        (moved ∙ ap (λ (r : Rc × sys.World). record h { world = r.1 }) e)
    where
      size : Rc → Rc
      size r = elim r as (λ _. Rc) [ ok n ↦ ok 0 | err c ↦ err c ]

      zero_size : (r : Rc) → size r ≡ signalled r
      zero_size (ok n) = refl
      zero_size (err c) = refl
