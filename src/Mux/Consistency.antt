-- ===== src/Mux/Consistency.antt =====
-- The table of channels and the id heap of a handler of src/session/multiplex_handler.c agree, and a
-- step of one channel keeps it so.
use elastos_net_carrier_nati.Base.{
  ℕ, ◌<◌, ◌≤◌, ◌≡◌, ap, ◌∙◌, inl, inr, Option, some, arith, ◌==◌, Bool-cases,
}
use elastos_net_carrier_nati.Mux.Channel.{Channel, System, max_channel_id}
use elastos_net_carrier_nati.Mux.Handler.{MultiplexHandler, channels_get}
use elastos_net_carrier_nati.Mux.Effects.{is_some, SameTables, Touches}
use elastos_net_carrier_nati.Mux.Transitions.{
  Outcome, kept, confirmed, paused, resumed, removed, Holds, Steps,
}

Outcome-id :
    (ch : Channel) (r : Option Channel) → Outcome ch r → (c : Channel) → r ≡ some c → c.id ≡ ch.id
Outcome-id ch r (kept c' e i _ _) c f = ground arith
Outcome-id ch r (confirmed c' e i _ _ _) c f = ground arith
Outcome-id ch r (paused c' e i _ _ _) c f = ground arith
Outcome-id ch r (resumed c' e i _ _ _) c f = ground arith
Outcome-id ch r (removed e) c f = cc

module _ {sys : System} where
  open sys use {ids_used, ids_alloc}

  -- An id is in use exactly if the table has a channel under it; that channel knows its id, which is
  -- between 1 and 2048.
  pub record IsConsistent (h : MultiplexHandler sys) : Type 0 where
    pub agree : (k : ℕ) → ids_used h.channel_ids k ≡ is_some (channels_get h k)
    pub named :
        (k : ℕ) (c : Channel)
        → channels_get h k ≡ some c
        → (c.id ≡ k) × (0 < k) × (k ≤ max_channel_id)

  module _ {h h' : MultiplexHandler sys} (v : IsConsistent h) where
    pub same-IsConsistent : SameTables h h' → IsConsistent h'
    unfolding channels_get
    same-IsConsistent s = record {
      agree = λ k. ground (arith, v.agree k);
      named = λ k c e. v.named k c (ground arith);
    }

    pub Touches-IsConsistent :
        (id : ℕ) (r : Option Channel)
        → 0 < id
        → id ≤ max_channel_id
        → ((c : Channel) → r ≡ some c → c.id ≡ id)
        → Touches h h' id r
        → IsConsistent h'
    Touches-IsConsistent id r p q name t = record {
      agree = λ k. ground (arith, v.agree k, t.table k, t.heap k);
      named = λ k c e. elim (Bool-cases (id == k)) [
        | inl hit ↦ ground (arith, t.table k, name c)
        | inr miss ↦ ground (arith, t.table k, v.named k c)
      ];
    }

  pub consistent-Holds :
      {h : MultiplexHandler sys} (k : ℕ) (c : Channel)
      → IsConsistent h
      → channels_get h k ≡ some c
      → Holds h c
  consistent-Holds {h} k c v e =
      let (i, p, q) = v.named k c e in
      record {
        found = ap (channels_get h) i ∙ e;
        used = ap (ids_used h.channel_ids) i ∙ v.agree k ∙ ap is_some e;
        positive = omega arith;
      }

  -- One step at a channel that the handler holds.
  pub Steps-IsConsistent :
      {h h' : MultiplexHandler sys} (k : ℕ) (c : Channel)
      → IsConsistent h
      → channels_get h k ≡ some c
      → Steps h c h'
      → IsConsistent h'
  Steps-IsConsistent {h} {h'} k c v e (r, t, o) =
      let (i, p, q) = v.named k c e in
      Touches-IsConsistent v c.id r (omega arith) (omega arith) (Outcome-id c r o) t
